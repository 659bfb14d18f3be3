-- ===== src/Sockets/Sending.antt =====
-- What WriteToRFBServer (src/sockets.c) has sent when it returns.
use mathlib.Core.List.{append-nil, append_assoc}
use wlvncc.Base.{
  ℕ, ◌<◌, ◌≡◌, refl, sym, ◌∙◌, ap, subst, Bool, true, false, List, [], ◌∷◌, ◌++◌, some, min, length,
  take, drop, take-append-drop, ◌==◌, Bool-cases, inl, inr, ◌⊎◌, arith,
}
use wlvncc.Sockets.{Attempt, wrote, would_block, broken, Put, write_loop, write_to_rfb_server}

-- A front of the bytes has been sent; all of them exactly if the result is TRUE.
record Sends (bytes sent : List ℕ) (p : Put) : Type 0 where
  front : List ℕ
  back : List ℕ
  whole : front ++ back ≡ bytes
  sends : p.sent ≡ sent ++ front
  all : ((p.ok ≡ true) × (length back ≡ 0)) ⊎ ((p.ok ≡ false) × (0 < length back))

-- A part that is sent before the others.
Sends-after :
    (size : ℕ) (rest sent : List ℕ) (p : Put)
    → Sends (drop size rest) (sent ++ take size rest) p
    → Sends rest sent p
Sends-after size rest sent p s = record {
  front = take size rest ++ s.front;
  back = s.back;
  whole =
      append_assoc (take size rest) s.front s.back
      ∙ ap (λ t. take size rest ++ t) s.whole
      ∙ take-append-drop size rest;
  sends = s.sends ∙ append_assoc sent (take size rest) s.front;
  all = s.all;
}

-- The loop stops before its next call.
Sends-none :
    (rest sent : List ℕ) (left : List Attempt) (b : Bool)
    → ((b ≡ true) × (length rest ≡ 0)) ⊎ ((b ≡ false) × (0 < length rest))
    → Sends rest sent (record { sent = sent; left = left; ok = b })
Sends-none rest sent left b h = record {
  front = [];
  back = rest;
  whole = refl;
  sends = sym (append-nil sent);
  all = h;
}

stop :
    (rest sent : List ℕ) {left : List Attempt} {p : Put}
    → (length rest == 0) ≡ true
    → record { sent = sent; left = left; ok = true } ≡ p
    → Sends rest sent p
stop rest sent {left} e q =
    subst (Sends rest sent) q (Sends-none rest sent left true (inl (refl, ground (arith, e))))

give_up :
    (rest sent : List ℕ) {left : List Attempt} {p : Put}
    → (length rest == 0) ≡ false
    → record { sent = sent; left = left; ok = false } ≡ p
    → Sends rest sent p
give_up rest sent {left} e q =
    subst (Sends rest sent) q (Sends-none rest sent left false (inr (refl, ground (arith, e))))

write_loop-Sends :
    (ws : List Attempt) (rest sent : List ℕ) {p : Put}
    → write_loop ws rest sent ≡ some p
    → Sends rest sent p
unfolding write_loop
write_loop-Sends [] rest sent e = elim (Bool-cases (length rest == 0)) [
  | inl over ↦ stop rest sent {left = []} over (ground (arith, e, over))
  | inr more ↦ absurd (ground (arith, e, more))
]
write_loop-Sends (wrote k ∷ ws) rest sent {p} e = elim (Bool-cases (length rest == 0)) [
  | inl over ↦ stop rest sent {left = wrote k ∷ ws} over (ground (arith, e, over))
  | inr more ↦ elim (Bool-cases (min k (length rest) == 0)) [
    | inl nothing ↦ give_up rest sent {left = ws} more (ground (arith, e, more, nothing))
    | inr some_sent ↦
        let size = min k (length rest) in
        Sends-after size rest sent p (
          write_loop-Sends ws (drop size rest) (sent ++ take size rest)
            (ground (arith, e, more, some_sent)))
  ]
]
write_loop-Sends (would_block true ∷ ws) rest sent e = elim (Bool-cases (length rest == 0)) [
  | inl over ↦ stop rest sent {left = would_block true ∷ ws} over (ground (arith, e, over))
  | inr more ↦ write_loop-Sends ws rest sent (ground (arith, e, more))
]
write_loop-Sends (would_block false ∷ ws) rest sent e = elim (Bool-cases (length rest == 0)) [
  | inl over ↦ stop rest sent {left = would_block false ∷ ws} over (ground (arith, e, over))
  | inr more ↦ give_up rest sent {left = ws} more (ground (arith, e, more))
]
write_loop-Sends (broken ∷ ws) rest sent e = elim (Bool-cases (length rest == 0)) [
  | inl over ↦ stop rest sent {left = broken ∷ ws} over (ground (arith, e, over))
  | inr more ↦ give_up rest sent {left = ws} more (ground (arith, e, more))
]

-- Whatever the socket takes at each call, when the function returns the bytes have been sent in
-- order from the first on, all of them if it returns TRUE and not all if it returns FALSE.
pub write_to_rfb_server_exact :
    (ws : List Attempt) (bytes sent : List ℕ) {p : Put}
    → write_to_rfb_server ws bytes sent ≡ some p
    → (front : List ℕ) × (back : List ℕ) × (front ++ back ≡ bytes)
      × (p.sent ≡ sent ++ front)
      × (((p.ok ≡ true) × (length back ≡ 0)) ⊎ ((p.ok ≡ false) × (0 < length back)))
unfolding write_to_rfb_server
write_to_rfb_server_exact ws bytes sent e =
    let s = write_loop-Sends ws bytes sent e in (s.front, s.back, s.whole, s.sends, s.all)
