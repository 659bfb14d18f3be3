-- ===== src/Decoding/Safety/Whole.antt =====
-- A whole update (HandleFramebufferUpdate of src/rfbproto.c) stays within the client's memory.
use wlvncc.Base.{
  ℕ, ◌<◌, ◌*◌, Option, none, some, zero, suc, ◌+◌, ◌/◌, ◌%◌, ◌≡◌, refl, Bool, true, false, not,
  ◌&&◌, ◌||◌, List, length, ◌≤◌, ◌==◌, if◌then◌else◌, done, arith,
}
use wlvncc.Rfb.{Area, Size}
use wlvncc.Decoding.{started, finished, cancelled, Decoder, Step, ◌followed_by◌, note, field}
use wlvncc.Decoding.Update.{
  Callbacks, see_screen, no_resize_requested, resized, resize_client_buffer, request,
  request_anyway, handle_led_state, read_screens, settle_size, handle_ext_desktop_size,
  take_supported_messages, take_extended_keys, draw_rect, rect_too_large, got_update, handle_pixels,
  server_identity, handle_rect, area_of, handle_rects, request_next, conclude,
  handle_framebuffer_update,
}
use wlvncc.Decoding.Safety.{
  Safe, Sound, Safe-done, Safe-succeed, Safe-give_up, Safe-if, Safe-followed_by, Safe-reading,
  Safe-handle_raw, Safe-handle_copy_rect, Safe-handle_rre, Safe-handle_corre,
}
use wlvncc.Decoding.Safety.Cursor.{Safe-handle_cursor_shape}
use wlvncc.Decoding.Safety.Hextile.{Safe-handle_hextile}

-- The callbacks keep within memory too, and the allocation returns: the framebuffers that it gives
-- have columns, and fewer than 2^31 cells.
pub record SafeCallbacks (C : Callbacks) : Type 0 where
  pub allocate :
      (size : Size)
      → (o : Option (ℕ → ℕ)) × (C.allocate size ≡ done o)
        × ((cells : ℕ → ℕ)
            → o ≡ some cells
            → (0 < size.width) × (size.width * size.height < 2147483648))
  pub other_encoding : (a : Area) (encoding : ℕ) → Safe (C.other_encoding a encoding)
  pub other_message : (type : ℕ) → Safe (C.other_message type)

module _ (C : Callbacks) (S : SafeCallbacks C) where
  pub Safe-resize : (w h : ℕ) → Safe (resize_client_buffer C w h)
  unfolding resize_client_buffer Safe Sound
  Safe-resize w h d v =
      let size : Size = record { width = w; height = h } in
      let (o, e, fits) = S.allocate size in go o e fits
    where
      go :
          (o : Option (ℕ → ℕ))
          → C.allocate (record { width = w; height = h }) ≡ done o
          → ((cells : ℕ → ℕ) → o ≡ some cells → (0 < w) × (w * h < 2147483648))
          → (r : Decoder × Bool) × (resize_client_buffer C w h d ≡ done r)
            × (length r.0.input ≤ length d.input)
            × Sound r.0.frame
      go none e fits =
          (resized C (record { width = w; height = h }) none d, rw e refl, omega arith, tt)
      go (some cells) e fits = (
        resized C (record { width = w; height = h }) (some cells) d,
        rw e refl,
        omega arith,
        fits cells refl,
      )

  Safe-see_screen : (bytes : List ℕ) → Safe (see_screen C bytes)
  unfolding see_screen
  Safe-see_screen bytes = Safe-done _ _ (λ d. (refl, refl, refl))

  Safe-read_screens :
      (n : ℕ) (invalid : Bool) (k : Bool → Step)
      → ((b : Bool) → Safe (k b))
      → Safe (read_screens C n invalid k)
  unfolding read_screens
  Safe-read_screens zero invalid k s = s invalid
  Safe-read_screens (suc n) invalid k s =
      let bad = Safe-read_screens n true k s in
      let good = Safe-read_screens n invalid k s in
      Safe-reading 16 _ (λ bytes short.
        Safe-if (field 0 4 bytes == 0) _ _ bad (Safe-followed_by _ _ (Safe-see_screen bytes) good))

  Safe-no_resize_requested : Safe (no_resize_requested C)
  unfolding no_resize_requested
  Safe-no_resize_requested = Safe-done _ _ (λ d. (refl, refl, refl))

  Safe-settle_size : (w h : ℕ) (invalid : Bool) → Safe (settle_size C w h invalid)
  unfolding Safe settle_size
  Safe-settle_size w h invalid d v =
      Safe-if (not invalid && (not (d.size.width == w) || not (d.size.height == h))) _ _
        (Safe-followed_by _ _ (Safe-resize w h) Safe-no_resize_requested) Safe-no_resize_requested d
        v

  Safe-take_extended_keys : Safe (take_extended_keys C)
  unfolding take_extended_keys
  Safe-take_extended_keys = Safe-done _ _ (λ d. (refl, refl, refl))

  Safe-draw_rect : (a : Area) (encoding : ℕ) → Safe (draw_rect C a encoding)
  unfolding Safe draw_rect
  Safe-draw_rect a encoding d v =
      let size = d.bits_per_pixel % 256 / 8 in
      Safe-if (encoding == 0) _ _ (Safe-handle_raw size a)
        (Safe-if (encoding == 1) _ _ (Safe-handle_copy_rect a) (
          Safe-if (encoding == 2) _ _ (Safe-handle_rre size a) (
            Safe-if (encoding == 4) _ _ (Safe-handle_corre size a) (
              Safe-if (encoding == 5) _ _ (Safe-handle_hextile size (omega arith) C.stale a) (
                Safe-if (encoding == 4294967038) _ _ Safe-take_extended_keys
                  (S.other_encoding a encoding))))))
        d v

  Safe-got_update : (a : Area) → Safe (got_update C a)
  unfolding got_update
  Safe-got_update a = Safe-done _ _ (λ d. (refl, refl, refl))

  Safe-handle_pixels : (a : Area) (encoding : ℕ) → Safe (handle_pixels C a encoding)
  unfolding Safe handle_pixels
  Safe-handle_pixels a encoding d v =
      Safe-if (not (encoding == 4294901769) && rect_too_large C a d) _ _ Safe-give_up
        (Safe-followed_by _ _ (Safe-draw_rect a encoding) (Safe-got_update a)) d v

  Safe-cursor_pos : (x y : ℕ) → Safe (λ d. done (d, C.cursor_pos x y))
  Safe-cursor_pos x y = Safe-done _ _ (λ d. (refl, refl, refl))

  Safe-handle_led_state : (state : ℕ) → Safe (handle_led_state C state)
  unfolding handle_led_state
  Safe-handle_led_state state = Safe-done _ _ (λ d. (refl, refl, refl))

  pub Safe-request_anyway : (a : Area) (incremental : Bool) → Safe (request_anyway C a incremental)
  unfolding request_anyway
  Safe-request_anyway a incremental = Safe-done _ _ (λ d. (refl, refl, refl))

  Safe-take_supported : (bytes : List ℕ) → Safe (take_supported_messages C bytes)
  unfolding take_supported_messages
  Safe-take_supported bytes = Safe-done _ _ (λ d. (refl, refl, refl))

  Safe-handle_ext : (w h : ℕ) → Safe (handle_ext_desktop_size C w h)
  unfolding handle_ext_desktop_size
  Safe-handle_ext w h =
      Safe-reading 4 _
        (λ bytes short. Safe-read_screens (field 0 1 bytes) false _ (Safe-settle_size w h))

  Safe-server_identity : (n : ℕ) → Safe (server_identity C n)
  unfolding server_identity
  Safe-server_identity n =
      Safe-if (C.memory (n + 1)) _ _ (Safe-reading n _ (λ bytes short. Safe-succeed)) Safe-give_up

  Safe-handle_rect : (a : Area) (encoding : ℕ) → Safe (handle_rect C a encoding)
  unfolding handle_rect
  Safe-handle_rect a encoding =
      Safe-if (encoding == 4294967056 || encoding == 4294967057) _ _
        (Safe-handle_cursor_shape C.memory a encoding)
        (Safe-if (encoding == 4294967064) _ _ (Safe-cursor_pos a.x a.y) (
          Safe-if (encoding == 4294836224) _ _ (Safe-handle_led_state a.x) (
            Safe-if (encoding == 4294967073) _ _
              (Safe-followed_by _ _ (Safe-resize a.w a.h) (Safe-request_anyway _ false))
              (Safe-if (encoding == 4294966988) _ _ (Safe-handle_ext a.w a.h) (
                Safe-if (encoding == 4294836225) _ _
                  (Safe-reading 64 _ (λ bytes short. Safe-take_supported bytes))
                  (Safe-if (encoding == 4294836226) _ _
                    (Safe-reading a.w _ (λ bytes short. Safe-succeed))
                    (Safe-if (encoding == 4294836227) _ _ (Safe-server_identity a.w)
                      (Safe-handle_pixels a encoding))))))))

  Safe-handle_rects : (n : ℕ) → Safe (handle_rects C n)
  unfolding handle_rects
  Safe-handle_rects zero = Safe-succeed
  Safe-handle_rects (suc n) =
      let rest = Safe-handle_rects n in
      Safe-reading 12 _ (λ bytes short.
        Safe-if (field 8 4 bytes == 4294967072) _ _ Safe-succeed
          (Safe-followed_by _ _ (Safe-handle_rect (area_of C bytes) (field 8 4 bytes)) rest))

  Safe-request_next : Safe (request_next C)
  unfolding request_next request
  Safe-request_next = Safe-done _ _ (λ d. (refl, refl, refl))

  updating-whole :
      (d : Decoder)
      → Sound d.frame
      → (r : Decoder × Bool) × (handle_framebuffer_update C d ≡ conclude C r)
        × (length r.0.input ≤ length d.input)
        × Sound r.0.frame
  unfolding Safe handle_framebuffer_update
  updating-whole d v =
      let (r, e, l, u) =
        Safe-reading 3 (λ bytes. handle_rects C (field 1 2 bytes) followed_by request_next C)
          (λ bytes short.
            Safe-followed_by _ _ (Safe-handle_rects (field 1 2 bytes)) Safe-request_next)
          (note started d) v in
      (r, rw e refl, l, u)

  pub Safe-handle_framebuffer_update : Safe (handle_framebuffer_update C)
  unfolding Safe conclude
  Safe-handle_framebuffer_update d v = let (r, e, l, u) = updating-whole d v in go r e l u
    where
      go :
          (r : Decoder × Bool)
          → handle_framebuffer_update C d ≡ conclude C r
          → length r.0.input ≤ length d.input
          → Sound r.0.frame
          → (s : Decoder × Bool) × (handle_framebuffer_update C d ≡ done s)
            × (length s.0.input ≤ length d.input)
            × Sound s.0.frame
      go (d', true) e l u = ((note finished d', true), e, l, u)
      go (d', false) e l u = ((note cancelled d', false), e, l, u)

  -- Whatever the server sends as an update, from a framebuffer that is sound, every run returns, and
  -- the callbacks hear of its end, finished if it returns TRUE and cancelled if it returns FALSE.
  handle_framebuffer_update_safe :
      (d : Decoder)
      → Sound d.frame
      → (d' : Decoder) × (b : Bool) × (handle_framebuffer_update C d
          ≡ done (if b then note finished d' else note cancelled d', b))
  unfolding conclude
  handle_framebuffer_update_safe d v = let (r, e, l, u) = updating-whole d v in (r.0, r.1, e)
