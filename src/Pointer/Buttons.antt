-- ===== src/Pointer/Buttons.antt =====
-- The mask of pressed buttons, read as a set of buttons.
use Prim.Native.Nat.{bit_or}
use wlvncc.Base.{
  ℕ, ◌/◌, ◌^◌, ◌<◌, ◌≡◌, refl, sym, ap, ◌∙◌, subst, Bool-cases, inl, inr, Outcome, ◌>>=◌, Bool,
  true, not, ◌&&◌, ◌||◌, ◌==◌, if◌then◌else◌, arith, done, >>=-eq-done, done-injective, if_true,
}
use wlvncc.Base.Masks.{has_bit, clear_bits, all_below, all_below_sound, same, same→eq}
use wlvncc.Pointer.{Pointer, Run, button, press, dispatch_button, set_button_state}

-- A button that the program knows, by the place of its bit.
pub data Button : Type 0 where
  left middle right : Button

abbrev pub bit : Button → ℕ
bit left = 0
bit middle = 1
bit right = 2

-- Its code in linux/input-event-codes.h.
abbrev pub code : Button → ℕ
code left = 0x110
code right = 0x111
code middle = 0x112

-- Whether the pointer has the button down.
unfoldable pub is_down : Pointer → Button → Bool
is_down p b = has_bit p.pressed (2 ^ bit b)

bit-lt : (b : Button) → bit b < 3
bit-lt left = omega arith
bit-lt middle = omega arith
bit-lt right = omega arith

-- The bit operations of the source on three bits, at all values.
or_table : ℕ → ℕ → ℕ → Bool
or_table p i j = same (has_bit (bit_or p (2 ^ i)) (2 ^ j)) (i == j || has_bit p (2 ^ j))

clear_table : ℕ → ℕ → ℕ → Bool
clear_table p i j =
    same (has_bit (clear_bits p (2 ^ i)) (2 ^ j)) (not (i == j) && has_bit p (2 ^ j))

range_table : ℕ → ℕ → Bool
range_table p i = bit_or p (2 ^ i) / 8 == 0 && clear_bits p (2 ^ i) / 8 == 0

tables_hold :
    all_below 8 (λ p.
      all_below 3 (λ i. range_table p i && all_below 3 (λ j. or_table p i j && clear_table p i j)))
    ≡ true
unfolding all_below or_table clear_table range_table has_bit clear_bits
tables_hold = refl

tables_at :
    (p i j : ℕ)
    → p < 8
    → i < 3
    → j < 3
    → (range_table p i ≡ true) × (or_table p i j ≡ true) × (clear_table p i j ≡ true)
tables_at p i j hp hi hj =
    let at_p =
      all_below_sound 8
        (λ p.
          all_below 3
            (λ i. range_table p i && all_below 3 (λ j. or_table p i j && clear_table p i j)))
        p tables_hold hp in
    let at_i =
      all_below_sound 3
        (λ i. range_table p i && all_below 3 (λ j. or_table p i j && clear_table p i j)) i at_p
        hi in
    let at_j = all_below_sound 3 (λ j. or_table p i j && clear_table p i j) j (ground arith) hj in
    (ground arith, ground arith, ground arith)

or_bits :
    (p i j : ℕ)
    → p < 8
    → i < 3
    → j < 3
    → has_bit (bit_or p (2 ^ i)) (2 ^ j) ≡ (i == j || has_bit p (2 ^ j))
or_bits p i j hp hi hj = same→eq _ _ (unfold or_table in (tables_at p i j hp hi hj).1)

clear_bits_at :
    (p i j : ℕ)
    → p < 8
    → i < 3
    → j < 3
    → has_bit (clear_bits p (2 ^ i)) (2 ^ j) ≡ (not (i == j) && has_bit p (2 ^ j))
clear_bits_at p i j hp hi hj = same→eq _ _ (unfold clear_table in (tables_at p i j hp hi hj).2)

in_range : (p i : ℕ) → p < 8 → i < 3 → (bit_or p (2 ^ i) < 8) × (clear_bits p (2 ^ i) < 8)
unfolding range_table
in_range p i hp hi =
    let (e, _, _) = tables_at p i 0 hp hi (omega arith) in (ground (arith, e), ground (arith, e))

set_button_state_lem :
    (p p' : Pointer) (i j state : ℕ)
    → p.pressed < 8
    → i < 3
    → j < 3
    → set_button_state (2 ^ i) p state ≡ done p'
    → (has_bit p'.pressed (2 ^ j) ≡ (if i == j then state == 1 else has_bit p.pressed (2 ^ j)))
      × (p'.pressed < 8)
      × (p'.serial ≡ p.serial)
unfolding set_button_state
set_button_state_lem p p' i j state hp hi hj e = ground (
  arith,
  or_bits p.pressed i j hp hi hj,
  clear_bits_at p.pressed i j hp hi hj,
  in_range p.pressed i hp hi,
)

dispatch-code :
    (b : Button) (p : Pointer) (state : ℕ)
    → dispatch_button (code b) p state ≡ set_button_state (2 ^ bit b) p state
unfolding dispatch_button
dispatch-code left p state = refl
dispatch-code middle p state = refl
dispatch-code right p state = refl

button_step :
    (b j : Button) (serial state : ℕ) (r r' : Run)
    → r.handle_event ≡ true
    → r.pressed < 8
    → button serial (code b) state r ≡ done r'
    → (is_down r'.pointer j ≡ (if bit b == bit j then state == 1 else is_down r.pointer j))
      × (r'.pressed < 8)
      × (r'.serial ≡ serial)
unfolding button press is_down
button_step b j serial state r r' h hp e =
    let e1 = sym (if_true (press serial (code b) state r) (done r) h) ∙ e in
    let p = record (r.pointer) { serial = serial } in
    let (p', e2, e3) = >>=-eq-done (dispatch_button (code b) p state) _ e1 in
    subst
      (λ (q : Run).
        (has_bit q.pressed (2 ^ bit j)
          ≡ (if bit b == bit j then state == 1 else has_bit r.pressed (2 ^ bit j)))
        × (q.pressed < 8)
        × (q.serial ≡ serial))
      (done-injective e3)
      (set_button_state_lem p p' (bit b) (bit j) state hp (bit-lt b) (bit-lt j)
        (sym (dispatch-code b p state) ∙ e2))

set_button_state_returns :
    (k : ℕ) (p : Pointer) (state : ℕ)
    → state < 2
    → (p' : Pointer) × (set_button_state k p state ≡ done p')
unfolding set_button_state
set_button_state_returns k p state small = elim (Bool-cases (state == 1)) [
  | inl one ↦ (record p { pressed = bit_or p.pressed k }, rw one refl)
  | inr other ↦
      let zero : (state == 0) ≡ true = ground (arith, other, small) in
      (record p { pressed = clear_bits p.pressed k }, rw (other, zero) refl)
]

button_run :
    (b : Button) (serial state : ℕ) (r : Run) (p' : Pointer)
    → r.handle_event ≡ true
    → dispatch_button (code b) (record (r.pointer) { serial = serial }) state ≡ done p'
    → button serial (code b) state r ≡ done (record r { pointer = p' })
unfolding button press
button_run b serial state r p' h e =
    if_true (press serial (code b) state r) (done r) h
    ∙ ap (λ (m : Outcome Pointer). m >>= λ p. done (record r { pointer = p })) e

-- A press or a release of a known button, while the pointer is on the window, is handled: that
-- button is then down exactly if it was pressed, every other is as before, and the serial is the
-- event's.
pub button_lem :
    (b j : Button) (serial state : ℕ) (r : Run)
    → r.handle_event ≡ true
    → r.pressed < 8
    → state < 2
    → (r' : Run) × (button serial (code b) state r ≡ done r')
      × (is_down r'.pointer j ≡ (if bit b == bit j then state == 1 else is_down r.pointer j))
      × (r'.pressed < 8)
      × (r'.serial ≡ serial)
button_lem b j serial state r h hp small =
    let p = record (r.pointer) { serial = serial } in
    let (p', e) = set_button_state_returns (2 ^ bit b) p state small in
    let run = button_run b serial state r p' h (dispatch-code b p state ∙ e) in
    let (down, below, same) = button_step b j serial state r (record r { pointer = p' }) h hp run in
    (record r { pointer = p' }, run, down, below, same)
