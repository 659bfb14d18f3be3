-- ===== src/Rfb/Messages.antt =====
-- The functions of src/rfbproto.c that send a message, with the layouts of include/rfbproto.h.
use wlvncc.Base.{
  ℕ, ◌%◌, Bool, true, false, not, ◌&&◌, List, [], ◌∷◌, ◌++◌, Option, none, some, length, ltb, ◌==◌,
  if◌then◌else◌,
}
use wlvncc.Base.Int.{ℤ, pos_part}
use wlvncc.Rfb.{Rfb, be16, be32, write, ◌and_then◌, if_supported}

abbrev pub flag : Bool → ℕ
flag b = if b then 1 else 0

unfoldable pub framebuffer_update_request : Bool → ℕ → ℕ → ℕ → ℕ → List ℕ
unfolding be16
framebuffer_update_request incremental x y w h =
    3 ∷ flag incremental ∷ be16 x ++ (be16 y ++ (be16 w ++ be16 h))

unfoldable pub key_event : Bool → ℕ → List ℕ
unfolding be32
key_event down key = 4 ∷ flag down ∷ 0 ∷ 0 ∷ be32 key

unfoldable pub extended_key_event : Bool → ℕ → ℕ → List ℕ
unfolding be16 be32
extended_key_event down keysym keycode = 255 ∷ 0 ∷ be16 (flag down) ++ (be32 keysym ++ be32 keycode)

unfoldable pub pointer_event : ℕ → ℕ → ℕ → List ℕ
unfolding be16
pointer_event mask x y = 5 ∷ mask % 256 ∷ be16 x ++ be16 y

-- The header of a text that follows: its type and its length.
unfoldable pub text_header : ℕ → ℕ → List ℕ
unfolding be32
text_header type n = type ∷ 0 ∷ 0 ∷ 0 ∷ be32 n

unfoldable pub send_framebuffer_update_request : ℕ → ℕ → ℕ → ℕ → Bool → Rfb → Option (Rfb × Bool)
unfolding if_supported framebuffer_update_request write
send_framebuffer_update_request x y w h incremental = if_supported 3 true (λ r.
    if r.requested_resize
    then some (r, true)
    else (write (framebuffer_update_request incremental x y w h) r))

unfoldable pub send_incremental_framebuffer_update_request : Rfb → Option (Rfb × Bool)
unfolding send_framebuffer_update_request
send_incremental_framebuffer_update_request r =
    send_framebuffer_update_request r.update_rect.x r.update_rect.y r.update_rect.w r.update_rect.h
      true r

-- UltraVNC's message, and then PalmVNC's.
unfoldable pub send_scale_setting : ℕ → Rfb → Option (Rfb × Bool)
unfolding if_supported write ◌and_then◌
send_scale_setting scale =
    if_supported 8 true (write (8 ∷ scale % 256 ∷ 0 ∷ 0 ∷ []))
    and_then if_supported 15 true (write (15 ∷ scale % 256 ∷ 0 ∷ 0 ∷ []))

unfoldable pub text_chat_send : List ℕ → Rfb → Option (Rfb × Bool)
unfolding if_supported text_header write ◌and_then◌
text_chat_send text = if_supported 11 true (
    write (text_header 11 (length text))
    and_then (λ r. if ltb 0 (length text) then write text r else some (r, true)))

-- -1, -2 and -3 in place of a length.
unfoldable pub text_chat_open : Rfb → Option (Rfb × Bool)
unfolding if_supported text_header write
text_chat_open = if_supported 11 true (write (text_header 11 4294967295))

unfoldable pub text_chat_close : Rfb → Option (Rfb × Bool)
unfolding if_supported text_header write
text_chat_close = if_supported 11 true (write (text_header 11 4294967294))

unfoldable pub text_chat_finish : Rfb → Option (Rfb × Bool)
unfolding if_supported text_header write
text_chat_finish = if_supported 11 true (write (text_header 11 4294967293))

unfoldable pub permit_server_input : Bool → Rfb → Option (Rfb × Bool)
unfolding if_supported write
permit_server_input enabled = if_supported 9 true (write (9 ∷ flag enabled ∷ 0 ∷ 0 ∷ []))

unfoldable pub send_xvp_msg : ℕ → ℕ → Rfb → Option (Rfb × Bool)
unfolding if_supported write
send_xvp_msg version code =
    if_supported 250 true (write (250 ∷ 0 ∷ version % 256 ∷ code % 256 ∷ []))

-- Coordinates that are negative become 0.
unfoldable pub send_pointer_event : ℤ → ℤ → ℕ → Rfb → Option (Rfb × Bool)
unfolding if_supported pointer_event write
send_pointer_event x y mask =
    if_supported 5 true (write (pointer_event mask (pos_part x) (pos_part y)))

unfoldable pub send_key_event : ℕ → Bool → Rfb → Option (Rfb × Bool)
unfolding if_supported key_event write
send_key_event key down = if_supported 4 true (write (key_event down key))

-- FALSE, where the others return TRUE, if the server has not announced the message.
unfoldable pub send_extended_key_event : ℕ → ℕ → Bool → Rfb → Option (Rfb × Bool)
unfolding if_supported extended_key_event write
send_extended_key_event keysym keycode down =
    if_supported 255 false (write (extended_key_event down keysym keycode))

unfoldable pub send_client_cut_text : List ℕ → Rfb → Option (Rfb × Bool)
unfolding if_supported text_header write ◌and_then◌
send_client_cut_text text =
    if_supported 6 true (write (text_header 6 (length text)) and_then write text)

-- What stands in the parts of the two structures of SendExtDesktopSize that it never writes: their
-- padding, and the screen's id, position and flags.
pub record Stale : Type 0 where
  pub pad1 : ℕ
  pub pad2 : ℕ
  pub id : List ℕ
  pub position : List ℕ
  pub flags : List ℕ

unfoldable pub set_desktop_size : Stale → ℕ → ℕ → List ℕ
unfolding be16
set_desktop_size stale width height =
    251 ∷ stale.pad1 ∷ be16 width ++ (be16 height ++ (1 ∷ stale.pad2 ∷ []))

unfoldable pub ext_desktop_screen : Stale → ℕ → ℕ → List ℕ
unfolding be16
ext_desktop_screen stale width height =
    stale.id ++ (stale.position ++ (be16 width ++ (be16 height ++ stale.flags)))

-- The request for an update is made with requestedResize cleared, and its result is not read.
unfoldable pub send_ext_desktop_size : Stale → ℕ → ℕ → Rfb → Option (Rfb × Bool)
unfolding set_desktop_size ext_desktop_screen send_framebuffer_update_request ◌and_then◌
send_ext_desktop_size stale width height r =
    if r.screen.width == 0 && r.screen.height == 0
    then some (r, true)
    else (if not (r.screen.width == width && r.screen.height == height)
        then (write (set_desktop_size stale width height)
              and_then write (ext_desktop_screen stale width height)
              and_then (λ s.
                  let shown = record s {
                    screen = record { width = width; height = height };
                    requested_resize = false;
                  } in
                  elim (send_framebuffer_update_request 0 0 width height false shown) [
                    | none ↦ none
                    | some t ↦ some (record t.0 { requested_resize = true }, true)
                  ]))
            r
        else some (r, true))
