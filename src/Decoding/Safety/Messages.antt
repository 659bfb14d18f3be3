-- ===== src/Decoding/Safety/Messages.antt =====
-- Every message of the server (HandleRFBServerMessage of src/rfbproto.c) stays within the client's
-- memory, and is read from what comes.
use wlvncc.Base.{
  ℕ, ◌+◌, ◌≤◌, ◌<◌, ◌≡◌, refl, Bool, true, false, List, [], ltb, ◌==◌, length, done, arith,
}
use wlvncc.Decoding.{Event, bell, cut_text, text_chat, Decoder, field}
use wlvncc.Decoding.Update.{Callbacks}
use wlvncc.Decoding.Message.{
  calling, text, server_cut_text, server_text_chat, support_xvp, server_xvp, new_size,
  unknown_message, handle_message, handle_rfb_server_message,
}
use wlvncc.Decoding.Safety.{
  Safe, Sound, Safe-done, Safe-succeed, Safe-give_up, Safe-if, Safe-followed_by, Safe-reading,
  Reads, reading-Reads,
}
use wlvncc.Decoding.Safety.Whole.{
  SafeCallbacks, Safe-resize, Safe-request_anyway, Safe-handle_framebuffer_update,
}

Safe-calling : (e : Event) → Safe (calling e)
unfolding calling
Safe-calling e = Safe-done _ _ (λ d. (refl, refl, refl))

module _ (C : Callbacks) (S : SafeCallbacks C) where
  Safe-text : (n : ℕ) (event : List ℕ → Event) → Safe (text C n event)
  unfolding text
  Safe-text n event =
      Safe-if (C.memory (n + 1)) _ _ (Safe-reading n _ (λ bytes short. Safe-calling (event bytes)))
        Safe-give_up

  Safe-cut_text : (bytes : List ℕ) → Safe (server_cut_text C bytes)
  unfolding server_cut_text
  Safe-cut_text bytes =
      Safe-if (ltb 1048576 (field 3 4 bytes)) _ _ Safe-give_up
        (Safe-text (field 3 4 bytes) cut_text)

  Safe-chat : (bytes : List ℕ) → Safe (server_text_chat C bytes)
  unfolding server_text_chat
  Safe-chat bytes =
      let n = field 3 4 bytes in
      let told = Safe-calling (text_chat n []) in
      Safe-if (n == 4294967295) _ _ told (
        Safe-if (n == 4294967294) _ _ told (
          Safe-if (n == 4294967293) _ _ told
            (Safe-if (ltb 10485760 n) _ _ Safe-give_up (Safe-text n (text_chat n)))))

  Safe-support_xvp : Safe (support_xvp C)
  unfolding support_xvp
  Safe-support_xvp = Safe-done _ _ (λ d. (refl, refl, refl))

  Safe-xvp : (bytes : List ℕ) → Safe (server_xvp C bytes)
  unfolding server_xvp
  Safe-xvp bytes = Safe-followed_by _ _ Safe-support_xvp (Safe-calling _)

  Safe-new_size : (w h : ℕ) → Safe (new_size C w h)
  unfolding new_size
  Safe-new_size w h = Safe-followed_by _ _ (Safe-resize C S w h) (Safe-request_anyway C S _ false)

  Safe-unknown : (type : ℕ) → Safe (unknown_message C type)
  unfolding Safe unknown_message
  Safe-unknown type d v = let (r, e, l, u) = S.other_message type d v in go r e l u
    where
      go :
          (r : Decoder × Bool)
          → C.other_message type d ≡ done r
          → length r.0.input ≤ length d.input
          → Sound r.0.frame
          → (s : Decoder × Bool) × (unknown_message C type d ≡ done s)
            × (length s.0.input ≤ length d.input)
            × Sound s.0.frame
      go (d', true) e l u = ((d', true), rw e refl, l, u)
      go (d', false) e l u =
          let (s, e', l', u') = Safe-reading 256 _ (λ bytes short. Safe-give_up) d' u in
          (s, rw e e', omega (arith, l, l'), u')

  Safe-handle_message : (type : ℕ) → Safe (handle_message C type)
  unfolding handle_message
  Safe-handle_message type = Safe-if (type == 1) _ _ Safe-succeed (
      Safe-if (type == 0) _ _ (Safe-handle_framebuffer_update C S) (
        Safe-if (type == 2) _ _ (Safe-calling bell) (
          Safe-if (type == 3) _ _ (Safe-reading 7 _ (λ bytes short. Safe-cut_text bytes)) (
            Safe-if (type == 11) _ _ (Safe-reading 7 _ (λ bytes short. Safe-chat bytes)) (
              Safe-if (type == 250) _ _ (Safe-reading 3 _ (λ bytes short. Safe-xvp bytes)) (
                Safe-if (type == 4) _ _ (Safe-reading 5 _ (λ bytes short. Safe-new_size _ _)) (
                  Safe-if (type == 15) _ _ (Safe-reading 11 _ (λ bytes short. Safe-new_size _ _))
                    (Safe-unknown type))))))))

  pub handle_rfb_server_message_safe :
      (d : Decoder)
      → Sound d.frame
      → (d' : Decoder) × (b : Bool) × (handle_rfb_server_message C d ≡ done (d', b))
        × (length d'.input ≤ length d.input)
        × Sound d'.frame
        × (b ≡ true → length d'.input < length d.input)
  unfolding handle_rfb_server_message Reads
  handle_rfb_server_message_safe d v =
      let (r, e, l, u, used) =
        reading-Reads 1 _ (λ bytes short. Safe-handle_message (field 0 1 bytes)) d v in
      (r.0, r.1, e, l, u, λ t. omega (arith, used t))
