-- ===== src/PointerEvents/Steps.antt =====
-- How often the server sees each wheel turn.
use Prim.Native.Nat.{bit_or}
use wlvncc.Base.{
  ℕ, zero, suc, ◌+◌, ◌-◌, ◌*◌, ◌<◌, ◌≡◌, refl, sym, ap, ◌∙◌, max, Bool, true, false, not, ◌&&◌,
  ◌||◌, List, [], ◌∷◌, ◌==◌, ltb, if◌then◌else◌, length, arith, ==_iff, if_true, if_false,
  both_true, not-true, Bool-cases, inl, inr,
}
use wlvncc.Base.Int.{ℤ, pos, negsuc, magnitude, pos_part, neg_part}
use wlvncc.Base.Masks.{
  clear_bits, has_bit, every, every_six, every_six_sound, every_four_sound, all_below,
  all_below_sound, same, same→eq,
}
use wlvncc.PointerEvents.{
  PointerMessage, scroll_loop, after_step, scroll_mask, direction, vertical_bits, horizontal_bits,
  on_pointer_event,
}

or_false : {a b : Bool} → a ≡ false → (a || b) ≡ b
or_false e = rw e

-- The bits of a direction, by its sign, while steps are left.
abbrev vertical_bit : Bool → ℕ
vertical_bit up = if up then 8 else 16

abbrev horizontal_bit : Bool → ℕ
horizontal_bit left = if left then 32 else 64

abbrev mask_of : Bool → Bool → Bool → Bool → ℕ
mask_of p q up left =
    bit_or (if p then vertical_bit up else 0) (if q then horizontal_bit left else 0)

-- The two clearing steps of a round, on every combination of what is left before and after.
step_table : Bool → Bool → Bool → Bool → Bool → Bool → Bool
unfolding vertical_bits horizontal_bits
step_table p1 p2 q1 q2 up left =
    let m = mask_of p1 q1 up left in
    let m1 = if p2 then m else clear_bits m vertical_bits in
    let m2 = if q2 then m1 else clear_bits m1 horizontal_bits in
    (p2 && not p1) || ((q2 && not q1) || m2 == mask_of p2 q2 up left)

step_table_holds : every_six step_table ≡ true
unfolding every_six step_table clear_bits
step_table_holds = refl

table_eq :
    (p1 p2 q1 q2 up left : Bool)
    → step_table p1 p2 q1 q2 up left ≡ true
    → (p2 && not p1) ≡ false
    → (q2 && not q1) ≡ false
    → (if q2
        then (if p2
            then mask_of p1 q1 up left
            else clear_bits (mask_of p1 q1 up left) vertical_bits)
        else clear_bits
            (if p2 then mask_of p1 q1 up left else clear_bits (mask_of p1 q1 up left) vertical_bits)
            horizontal_bits)
      ≡ mask_of p2 q2 up left
unfolding step_table
table_eq p1 p2 q1 q2 up left t hp hq = (==_iff _ _).0 (sym (or_false hq) ∙ sym (or_false hp) ∙ t)

after_step_lem :
    (steps bits m : ℕ)
    → after_step steps bits m ≡ (if ltb 0 (steps - 1) then m else clear_bits m bits)
unfolding after_step
after_step_lem steps bits m = ground arith

after_round : ℕ → ℕ → ℕ → ℕ
after_round vertical horizontal mask =
    after_step horizontal horizontal_bits (after_step vertical vertical_bits mask)

after_round-mask_of :
    (vertical horizontal : ℕ) (up left : Bool)
    → after_round vertical horizontal (mask_of (ltb 0 vertical) (ltb 0 horizontal) up left)
      ≡ mask_of (ltb 0 (vertical - 1)) (ltb 0 (horizontal - 1)) up left
unfolding after_round
after_round-mask_of vertical horizontal up left =
    let v = ltb 0 vertical in
    let v' = ltb 0 (vertical - 1) in
    let h = ltb 0 horizontal in
    let h' = ltb 0 (horizontal - 1) in
    let m = mask_of v h up left in
    rw (after_step_lem vertical vertical_bits m) (
      after_step_lem horizontal horizontal_bits _
      ∙ table_eq v v' h h' up left (every_six_sound step_table v v' h h' up left step_table_holds)
          (ground arith) (ground arith))

module _ (x y : ℤ) (pressed : ℕ) where
  abbrev message : ℕ → PointerMessage
  message mask = record { x = x; y = y; button_mask = mask }

  -- `n` rounds: the bits of a direction are sent while its steps last.
  turns : ℕ → ℕ → ℕ → Bool → Bool → List PointerMessage
  turns zero vertical horizontal up left = []
  turns (suc n) vertical horizontal up left =
      message (bit_or pressed (mask_of (ltb 0 vertical) (ltb 0 horizontal) up left))
      ∷ message pressed
      ∷ turns n (vertical - 1) (horizontal - 1) up left

  scroll_loop-turns :
      (fuel n vertical horizontal : ℕ) (up left : Bool)
      → max vertical horizontal ≡ n
      → n < fuel
      → scroll_loop fuel x y pressed vertical horizontal
          (mask_of (ltb 0 vertical) (ltb 0 horizontal) up left)
        ≡ turns n vertical horizontal up left
  unfolding scroll_loop turns after_round
  scroll_loop-turns zero n vertical horizontal up left e lt = absurd (omega arith)
  scroll_loop-turns (suc fuel) zero vertical horizontal up left e lt =
      if_false {b = ltb 0 horizontal || ltb 0 vertical} _ _ (ground arith)
  scroll_loop-turns (suc fuel) (suc n) vertical horizontal up left e lt =
      if_true {b = ltb 0 horizontal || ltb 0 vertical} _ _ (ground arith)
      ∙ ap
          (λ ms.
            message (bit_or pressed (mask_of (ltb 0 vertical) (ltb 0 horizontal) up left))
            ∷ message pressed
            ∷ ms)
          (ap (λ (m : ℕ). scroll_loop fuel x y pressed (vertical - 1) (horizontal - 1) m)
              (after_round-mask_of vertical horizontal up left)
            ∙ scroll_loop-turns fuel n (vertical - 1) (horizontal - 1) up left (omega arith)
                (omega arith))

-- How many messages have the bit.
pub count_bit : ℕ → List PointerMessage → ℕ
count_bit b [] = 0
count_bit b (m ∷ ms) = (if has_bit m.button_mask b then 1 else 0) + count_bit b ms

-- The four scroll bits of a round, on three button bits.
round_table : ℕ → Bool → Bool → Bool → Bool → Bool
round_table pressed p q up left =
    let m = bit_or pressed (mask_of p q up left) in
    same (has_bit m 8) (p && up)
    && (same (has_bit m 16) (p && not up)
        && (same (has_bit m 32) (q && left) && same (has_bit m 64) (q && not left)))

quiet_table : ℕ → Bool
quiet_table pressed =
    not (has_bit pressed 8)
    && (not (has_bit pressed 16) && (not (has_bit pressed 32) && not (has_bit pressed 64)))

rounds_table : ℕ → Bool
unfolding every
rounds_table pressed =
    quiet_table pressed
    && every (λ p. every (λ q. every (λ up. every (λ left. round_table pressed p q up left))))

rounds_table_holds : all_below 8 rounds_table ≡ true
unfolding all_below rounds_table round_table quiet_table has_bit
rounds_table_holds = refl

round_bits :
    (pressed : ℕ) (p q up left : Bool)
    → pressed < 8
    → let m = bit_or pressed (mask_of p q up left) in
      (has_bit m 8 ≡ (p && up))
      × (has_bit m 16 ≡ (p && not up))
      × (has_bit m 32 ≡ (q && left))
      × (has_bit m 64 ≡ (q && not left))
      × (has_bit pressed 8 ≡ false)
      × (has_bit pressed 16 ≡ false)
      × (has_bit pressed 32 ≡ false)
      × (has_bit pressed 64 ≡ false)
unfolding rounds_table round_table quiet_table
round_bits pressed p q up left h =
    let (quiet, all_rounds) =
      both_true (all_below_sound 8 rounds_table pressed rounds_table_holds h) in
    let (q8, quiet1) = both_true quiet in
    let (q16, quiet2) = both_true quiet1 in
    let (q32, q64) = both_true quiet2 in
    let t = every_four_sound (round_table pressed) p q up left all_rounds in
    let (r8, t1) = both_true t in
    let (r16, t2) = both_true t1 in
    let (r32, r64) = both_true t2 in
    (
      same→eq _ _ r8,
      same→eq _ _ r16,
      same→eq _ _ r32,
      same→eq _ _ r64,
      not-true q8,
      not-true q16,
      not-true q32,
      not-true q64,
    )

-- The rounds of one direction show its bit as often as it has steps, and the other bit never.
counts-turns :
    (x y : ℤ) (pressed n vertical horizontal : ℕ) (up left : Bool)
    → pressed < 8
    → max vertical horizontal ≡ n
    → let ms = turns x y pressed n vertical horizontal up left in
      (count_bit 8 ms ≡ (if up then vertical else 0))
      × (count_bit 16 ms ≡ (if up then 0 else vertical))
      × (count_bit 32 ms ≡ (if left then horizontal else 0))
      × (count_bit 64 ms ≡ (if left then 0 else horizontal))
      × (length ms ≡ 2 * n)
unfolding turns count_bit
counts-turns x y pressed zero vertical horizontal up left h e = ground arith
counts-turns x y pressed (suc n) vertical horizontal up left h e = ground (
  arith,
  round_bits pressed (ltb 0 vertical) (ltb 0 horizontal) up left h,
  counts-turns x y pressed n (vertical - 1) (horizontal - 1) up left h,
)

abbrev is_negative : ℤ → Bool
is_negative (pos n) = false
is_negative (negsuc n) = true

scroll_mask-mask_of :
    (v h : ℤ)
    → scroll_mask v h
      ≡ mask_of (ltb 0 (magnitude v)) (ltb 0 (magnitude h)) (is_negative v) (is_negative h)
unfolding scroll_mask direction
scroll_mask-mask_of (pos zero) (pos zero) = refl
scroll_mask-mask_of (pos zero) (pos (suc b)) = ground arith
scroll_mask-mask_of (pos zero) (negsuc b) = ground arith
scroll_mask-mask_of (pos (suc a)) (pos zero) = ground arith
scroll_mask-mask_of (pos (suc a)) (pos (suc b)) = ground arith
scroll_mask-mask_of (pos (suc a)) (negsuc b) = ground arith
scroll_mask-mask_of (negsuc a) (pos zero) = ground arith
scroll_mask-mask_of (negsuc a) (pos (suc b)) = ground arith
scroll_mask-mask_of (negsuc a) (negsuc b) = ground arith

scrolled_turns :
    (x y : ℤ) (pressed : ℕ) (vertical horizontal : ℤ)
    → let n = max (magnitude vertical) (magnitude horizontal) in
      scroll_loop
        (n + 1)
        x
        y
        pressed
        (magnitude vertical)
        (magnitude horizontal)
        (scroll_mask vertical horizontal)
      ≡ turns x y pressed n
          (magnitude vertical)
          (magnitude horizontal)
          (is_negative vertical)
          (is_negative horizontal)
scrolled_turns x y pressed vertical horizontal =
    let n = max (magnitude vertical) (magnitude horizontal) in
    ap (λ (m : ℕ). scroll_loop (n + 1) x y pressed (magnitude vertical) (magnitude horizontal) m)
      (scroll_mask-mask_of vertical horizontal)
    ∙ scroll_loop-turns x y pressed (n + 1) n (magnitude vertical) (magnitude horizontal)
        (is_negative vertical) (is_negative horizontal) refl (omega arith)

-- For a mask of the three buttons: the server sees the bit of each wheel direction exactly as often
-- as there are steps in it (up and left for negative counts, down and right for positive ones), and
-- it gets two messages a round, or the one message that moves the pointer where nothing scrolls.
pub on_pointer_event-counts :
    (x y : ℤ) (pressed : ℕ) (vertical horizontal : ℤ)
    → pressed < 8
    → let ms = on_pointer_event x y pressed vertical horizontal in
      (count_bit 8 ms ≡ neg_part vertical)
      × (count_bit 16 ms ≡ pos_part vertical)
      × (count_bit 32 ms ≡ neg_part horizontal)
      × (count_bit 64 ms ≡ pos_part horizontal)
      × (length ms ≡ max 1 (2 * max (magnitude vertical) (magnitude horizontal)))
unfolding on_pointer_event count_bit
on_pointer_event-counts x y pressed vertical horizontal h =
    let n = max (magnitude vertical) (magnitude horizontal) in
    let up = is_negative vertical in
    let left = is_negative horizontal in
    elim (Bool-cases (magnitude vertical == 0 && magnitude horizontal == 0)) [
      | inl still ↦ rw still (ground (arith, round_bits pressed false false up left h))
      | inr moving ↦
          rw (moving, scrolled_turns x y pressed vertical horizontal)
            (ground (
              arith,
              counts-turns x y pressed n (magnitude vertical) (magnitude horizontal) up left h,
            ))
    ]
