-- ===== src/VncClient/Returning.antt =====
-- vnc_client_process comes to an end and gives the lock back.
use wlvncc.Base.{
  ℕ, zero, suc, ◌<◌, ◌≡◌, refl, ap, ◌∙◌, Bool, true, false, some, ltb, done, Bool-cases, inl, inr,
  arith, ◌⊎◌,
}
use wlvncc.Pixman.{Pixman}
use wlvncc.VncClient.{VncClient, lock_handler, unlock_handler}
use wlvncc.VncClient.Process.{
  Connection, Rc, ok, failed, unset, process_loop, finish_process, run_locked, vnc_client_process,
}

module _ (P : Pixman) {S : Type 0} (C : Connection P S) where
  abbrev pub locked : S → Bool
  locked s = (C.client s).handler_lock

  -- What the loop relies on: from the states that come up, a message that is handled uses up some of
  -- what the server sends, the handler leaves the lock alone, and a write of the client changes
  -- nothing else.
  pub record Progress : Type 1 where
    pub remaining : S → ℕ
    pub Valid : S → Type 0
    pub stays : (s : S) → Valid s → Valid (C.handle_message s).0
    pub Valid-with : (s : S) (c : VncClient P) → Valid s → Valid (C.with_client s c)
    pub consumes :
        (s : S)
        → Valid s
        → (C.handle_message s).1 ≡ true
        → remaining (C.handle_message s).0 < remaining s
    pub keeps_lock : (s : S) → locked (C.handle_message s).0 ≡ locked s
    pub client-with : (s : S) (c : VncClient P) → C.client (C.with_client s c) ≡ c
    pub remaining-with : (s : S) (c : VncClient P) → remaining (C.with_client s c) ≡ remaining s
    pub buffered-with : (s : S) (c : VncClient P) → C.buffered (C.with_client s c) ≡ C.buffered s

  module _ (G : Progress) where
    -- How the loop ends: by a message that fails, or with nothing left in the buffer.
    Ended : S × Rc → Type 0
    Ended r = (r.1 ≡ failed) ⊎ (C.buffered r.0 ≡ 0)

    process_loop-Ended :
        (fuel : ℕ) (s : S) (rc : Rc)
        → G.Valid s
        → G.remaining s < fuel
        → (r : S × Rc) × (process_loop P C fuel s rc ≡ some r) × (locked r.0 ≡ locked s) × Ended r
    unfolding process_loop Ended
    process_loop-Ended zero s rc v h = absurd (omega (arith, h))
    process_loop-Ended (suc fuel) s rc v h = elim (Bool-cases (ltb 0 (C.buffered s))) [
      | inr empty ↦ ((s, rc), rw empty refl, refl, inr (ground (arith, empty)))
      | inl more ↦ elim (Bool-cases (C.handle_message s).1) [
        | inr bad ↦
            (((C.handle_message s).0, failed), rw (more, bad) refl, G.keeps_lock s, inl refl)
        | inl good ↦
            let less = G.consumes s v good in
            let (r, e, l, d) =
              process_loop-Ended fuel (C.handle_message s).0 ok (G.stays s v)
                (omega (arith, h, less)) in
            (r, rw (more, good) e, l ∙ G.keeps_lock s, d)
      ]
    ]

    unlock-locked :
        (c : VncClient P)
        → c.handler_lock ≡ true
        → unlock_handler P c ≡ done (record c { handler_lock = false })
    unfolding unlock_handler
    unlock-locked c e = rw e refl

    run_locked-run :
        (fuel : ℕ) (s : S) (r : S × Rc)
        → process_loop P C fuel s unset ≡ some r
        → locked r.0 ≡ true
        → run_locked P C fuel s
          ≡ some (done (C.with_client r.0 (record (C.client r.0) { handler_lock = false }), r.1))
    unfolding run_locked finish_process
    run_locked-run fuel s r e l = rw (run_locked, e, unlock-locked (C.client r.0) l) refl

    -- If the read into the buffer succeeds and no handler runs: with more fuel than what the server
    -- still sends, the call returns, with the lock free again, and either reports a message that
    -- failed or leaves nothing in the buffer.
    pub vnc_client_process-returns :
        (fuel : ℕ) (s : S)
        → (C.read_to_buffer s).1 ≡ true
        → locked (C.read_to_buffer s).0 ≡ false
        → G.Valid (C.read_to_buffer s).0
        → G.remaining (C.read_to_buffer s).0 < fuel
        → (s' : S) × (rc : Rc) × (vnc_client_process P C fuel s ≡ some (done (s', rc)))
          × (locked s' ≡ false)
          × ((rc ≡ failed) ⊎ (C.buffered s' ≡ 0))
    unfolding vnc_client_process lock_handler Ended
    vnc_client_process-returns fuel s read free valid h =
        let s0 = (C.read_to_buffer s).0 in
        let s1 = C.with_client s0 (record (C.client s0) { handler_lock = true }) in
        let (r, e, l, d) =
          process_loop-Ended fuel s1 unset (G.Valid-with s0 _ valid) (
            omega (arith, h, G.remaining-with s0 (record (C.client s0) { handler_lock = true }))) in
        let held : locked s1 ≡ true =
          ap (λ (c : VncClient P). c.handler_lock) (G.client-with s0 _) in
        let c' : VncClient P = record (C.client r.0) { handler_lock = false } in
        (
          C.with_client r.0 c',
          r.1,
          rw (read, free) (run_locked-run fuel s1 r e (l ∙ held)),
          ap (λ (c : VncClient P). c.handler_lock) (G.client-with r.0 c'),
          ended r c' d,
        )
      where
        ended :
            (r : S × Rc) (c : VncClient P)
            → (r.1 ≡ failed) ⊎ (C.buffered r.0 ≡ 0)
            → (r.1 ≡ failed) ⊎ (C.buffered (C.with_client r.0 c) ≡ 0)
        ended r c (inl f) = inl f
        ended r c (inr z) = inr (G.buffered-with r.0 c ∙ z)
