-- ===== src/Decoding/Processing.antt =====
-- The loop of vnc_client_process (src/vnc.c) over the messages of HandleRFBServerMessage
-- (src/rfbproto.c). What the program's callbacks do to the rest of vnc_client, and how many bytes
-- are in the buffer of src/sockets.c, are parameters.
use wlvncc.Base.{
  ℕ, ◌<◌, ◌≡◌, refl, Bool, true, false, length, Outcome, done, fault, aborted, endless, ap,
}
use wlvncc.Pixman.{Pixman}
use wlvncc.VncClient.{VncClient}
use wlvncc.VncClient.Process.{Connection}
use wlvncc.VncClient.Returning.{Progress}
use wlvncc.Decoding.{Decoder}
use wlvncc.Decoding.Update.{Callbacks}
use wlvncc.Decoding.Message.{handle_rfb_server_message}
use wlvncc.Decoding.Safety.{Sound}
use wlvncc.Decoding.Safety.Whole.{SafeCallbacks}
use wlvncc.Decoding.Safety.Messages.{handle_rfb_server_message_safe}

-- The state after a message and its result; a fault, which does not happen, would end it.
unfoldable pub ended : Decoder → Outcome (Decoder × Bool) → Decoder × Bool
ended d (done r) = r
ended d fault = (d, false)
ended d aborted = (d, false)
ended d endless = (d, false)

module _ (P : Pixman) (C : Callbacks) (S : SafeCallbacks C) where
  -- What stands around the messages: the bytes that are buffered, the read into the buffer, and what
  -- vnc_client's callbacks make of the client when they hear of the events of a message.
  pub record Around : Type 0 where
    pub buffered : Decoder → ℕ
    pub read_to_buffer : Decoder → Decoder × Bool
    pub read_to_buffer-frame : (d : Decoder) → (read_to_buffer d).0.frame ≡ d.frame
    pub react : Decoder → VncClient P → VncClient P
    pub react-lock : (d : Decoder) (c : VncClient P) → (react d c).handler_lock ≡ c.handler_lock

  abbrev pub Served : Type 0
  Served = VncClient P × Decoder

  module _ (A : Around) where
    abbrev pub served : Decoder → Decoder × Bool
    served d = ended d (handle_rfb_server_message C d)

    served-step :
        (d : Decoder)
        → Sound d.frame
        → Sound (served d).0.frame
          × ((served d).1 ≡ true → length (served d).0.input < length d.input)
    unfolding ended
    served-step d v =
        let (d', b, e, l, u, used) = handle_rfb_server_message_safe C S d v in
        let same : served d ≡ (d', b) = ap (ended d) e in
        (rw same u, λ t. rw same (used (rw same at t)))

    abbrev pub messages : Connection P Served
    messages = record {
      client = λ s. s.0;
      with_client = λ s c. (c, s.1);
      buffered = λ s. A.buffered s.1;
      read_to_buffer = λ s. ((s.0, (A.read_to_buffer s.1).0), (A.read_to_buffer s.1).1);
      handle_message = λ s. ((A.react (served s.1).0 s.0, (served s.1).0), (served s.1).1);
    }

    pub messages-Progress : Progress P messages
    messages-Progress = record {
      remaining = λ s. length s.1.input;
      Valid = λ s. Sound s.1.frame;
      stays = λ s v. (served-step s.1 v).0;
      Valid-with = λ s c v. v;
      consumes = λ s v t. (served-step s.1 v).1 t;
      keeps_lock = λ s. A.react-lock (served s.1).0 s.0;
      client-with = λ s c. refl;
      remaining-with = λ s c. refl;
      buffered-with = λ s c. refl;
    }
