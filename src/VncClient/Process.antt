-- ===== src/VncClient/Process.antt =====
-- src/vnc.c, vnc_client_process: the loop over the messages that are buffered, and the lock that
-- keeps the handler from running within itself. The messages' handler (HandleRFBServerMessage) and
-- the read into the buffer (ReadToBuffer) act on a state of the connection that is open here.
use wlvncc.Base.{ℕ, zero, suc, Bool, Option, none, some, ltb, if◌then◌else◌, Outcome, done, ◌>>=◌}
use wlvncc.Pixman.{Pixman}
use wlvncc.VncClient.{VncClient, lock_handler, unlock_handler}

-- What vnc_client_process returns: 0, -1, or a variable that was never written.
pub data Rc : Type 0 where
  ok failed unset : Rc

module _ (P : Pixman) where
  pub record Connection (S : Type 0) : Type 0 where
    pub client : S → VncClient P
    pub with_client : S → VncClient P → S
    pub buffered : S → ℕ
    pub read_to_buffer : S → S × Bool
    pub handle_message : S → S × Bool

  module _ {S : Type 0} (C : Connection S) where
    -- One result of the loop's body: go on, or stop with -1.
    unfoldable pub process_loop : ℕ → S → Rc → Option (S × Rc)
    process_loop zero s rc = none
    process_loop (suc fuel) s rc =
        let handled = C.handle_message s in
        let rest = process_loop fuel handled.0 ok in
        if ltb 0 (C.buffered s)
        then (if handled.1 then rest else some (handled.0, failed))
        else some (s, rc)

    unfoldable pub finish_process : S × Rc → Outcome (S × Rc)
    finish_process r = unlock_handler P (C.client r.0) >>= λ c. done (C.with_client r.0 c, r.1)

    -- `none` where the fuel is used up.
    unfoldable pub run_locked : ℕ → S → Option (Outcome (S × Rc))
    unfolding process_loop finish_process
    run_locked fuel s = elim (process_loop fuel s unset) [
      | none ↦ none
      | some r ↦ some (finish_process r)
    ]

    unfoldable pub vnc_client_process : ℕ → S → Option (Outcome (S × Rc))
    unfolding run_locked
    vnc_client_process fuel s =
        let read = C.read_to_buffer s in
        let locked = lock_handler P (C.client read.0) in
        if read.1
        then (if locked.1
            then run_locked fuel (C.with_client read.0 locked.0)
            else some (done (C.with_client read.0 locked.0, ok)))
        else some (done (read.0, failed))
