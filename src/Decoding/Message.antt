-- ===== src/Decoding/Message.antt =====
-- HandleRFBServerMessage of src/rfbproto.c: one message of the server, by its type.
use wlvncc.Base.{ℕ, ◌+◌, List, [], true, false, ltb, ◌==◌, if◌then◌else◌, done, ◌>>=◌}
use wlvncc.Rfb.{set_supported}
use wlvncc.Decoding.{
  Event, bell, cut_text, text_chat, xvp, Step, succeed, give_up, ◌followed_by◌, reading, note,
  field,
}
use wlvncc.Decoding.Update.{
  Callbacks, resize_client_buffer, request_anyway, handle_framebuffer_update,
}

-- A callback of the program, which is taken to be set.
unfoldable pub calling : Event → Step
calling e d = done (note e d, true)

module _ (C : Callbacks) where
  -- A text of n bytes in fresh memory, with room for the 0 at its end.
  unfoldable pub text : ℕ → (List ℕ → Event) → Step
  text n event = if C.memory (n + 1) then reading n (λ bytes. calling (event bytes)) else give_up

  unfoldable pub server_cut_text : List ℕ → Step
  server_cut_text bytes =
      let n = field 3 4 bytes in if ltb 1048576 n then give_up else text n cut_text

  -- Three lengths stand for the chat's start, its end and that it has come to an end.
  unfoldable pub server_text_chat : List ℕ → Step
  server_text_chat bytes =
      let n = field 3 4 bytes in
      if n == 4294967295
      then calling (text_chat n [])
      else if n == 4294967294
      then calling (text_chat n [])
      else if n == 4294967293
      then calling (text_chat n [])
      else if ltb 10485760 n
      then give_up
      else text n (text_chat n)

  unfoldable pub support_xvp : Step
  support_xvp d = done (
    record d {
      supported = record {
        client2server = set_supported d.supported.client2server 250;
        server2client = set_supported d.supported.server2client 250;
      };
    },
    true,
  )

  unfoldable pub server_xvp : List ℕ → Step
  server_xvp bytes = support_xvp followed_by calling (xvp (field 1 1 bytes) (field 2 1 bytes))

  unfoldable pub new_size : ℕ → ℕ → Step
  new_size width height =
      resize_client_buffer C width height
      followed_by request_anyway C (record { x = 0; y = 0; w = width; h = height }) false

  -- A message that only an extension may know; what else it may be is dropped.
  unfoldable pub unknown_message : ℕ → Step
  unknown_message type d =
      C.other_message type d >>= λ r. if r.1 then done r else reading 256 (λ bytes. give_up) r.0

  -- Nothing is read of a message that sets colours.
  unfoldable pub handle_message : ℕ → Step
  handle_message type =
      if type == 1
      then succeed
      else if type == 0
      then handle_framebuffer_update C
      else if type == 2
      then calling bell
      else if type == 3
      then reading 7 server_cut_text
      else if type == 11
      then reading 7 server_text_chat
      else if type == 250
      then reading 3 server_xvp
      else if type == 4
      then reading 5 (λ bytes. new_size (field 1 2 bytes) (field 3 2 bytes))
      else if type == 15
      then reading 11 (λ bytes. new_size (field 5 2 bytes) (field 7 2 bytes))
      else unknown_message type

  unfoldable pub handle_rfb_server_message : Step
  handle_rfb_server_message = reading 1 (λ bytes. handle_message (field 0 1 bytes))
