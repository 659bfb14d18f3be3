-- ===== src/Rfb/Supported.antt =====
-- The bits of the sets of supported messages (src/rfbproto.c).
use Prim.Native.Nat.{bit_or}
use wlvncc.Base.{
  ℕ, zero, suc, ◌/◌, ◌%◌, ◌^◌, ◌<◌, ◌≡◌, refl, ap, sym, both_true, Bool, true, false, not, ◌&&◌,
  ◌||◌, List, [], ◌∷◌, set, length, All, ◌==◌, ==_iff, ne→==, Bool-cases, inl, inr, ◌≢◌, arith,
}
use wlvncc.Base.Masks.{has_bit, clear_bits, all_below, all_below_sound, same, same→eq}
use wlvncc.Rfb.{byte_at, is_supported, set_supported, clear_supported}

byte_at-set_self : (bits : List ℕ) (i v : ℕ) → i < length bits → byte_at (set bits i v) i ≡ v
unfolding byte_at
byte_at-set_self [] i v h = absurd (omega (arith, h))
byte_at-set_self (b ∷ bs) zero v h = refl
byte_at-set_self (b ∷ bs) (suc i) v h = byte_at-set_self bs i v (omega (arith, h))

byte_at-set_other : (bits : List ℕ) (i j v : ℕ) → i ≢ j → byte_at (set bits i v) j ≡ byte_at bits j
unfolding byte_at
byte_at-set_other [] i j v h = refl
byte_at-set_other (b ∷ bs) zero zero v h = absurd (h refl)
byte_at-set_other (b ∷ bs) zero (suc j) v h = refl
byte_at-set_other (b ∷ bs) (suc i) zero v h = refl
byte_at-set_other (b ∷ bs) (suc i) (suc j) v h = byte_at-set_other bs i j v (λ e. h (ap suc e))

byte_at-lt : (bits : List ℕ) (i : ℕ) → All (λ b. b < 256) bits → byte_at bits i < 256
unfolding byte_at
byte_at-lt [] i h = omega arith
byte_at-lt (b ∷ bs) zero h = h.0
byte_at-lt (b ∷ bs) (suc i) h = byte_at-lt bs i h.1

-- One bit of a byte is set and another one, or the same, is read: checked for all bytes and bits.
bits_agree : ℕ → Bool
unfolding has_bit clear_bits
bits_agree a = all_below 8 (λ k. all_below 8 (λ j.
    same (has_bit (bit_or a (2 ^ k)) (2 ^ j)) (j == k || has_bit a (2 ^ j))
    && same (has_bit (clear_bits a (2 ^ k)) (2 ^ j)) (not (j == k) && has_bit a (2 ^ j))))

all_agree : all_below 256 bits_agree ≡ true
unfolding all_below bits_agree
all_agree = refl

bits_agree_lem :
    (a k j : ℕ)
    → a < 256
    → k < 8
    → j < 8
    → (has_bit (bit_or a (2 ^ k)) (2 ^ j) ≡ (j == k || has_bit a (2 ^ j)))
      × (has_bit (clear_bits a (2 ^ k)) (2 ^ j) ≡ (not (j == k) && has_bit a (2 ^ j)))
unfolding bits_agree
bits_agree_lem a k j ha hk hj =
    let q = λ (a k j : ℕ).
      same (has_bit (bit_or a (2 ^ k)) (2 ^ j)) (j == k || has_bit a (2 ^ j))
      && same (has_bit (clear_bits a (2 ^ k)) (2 ^ j)) (not (j == k) && has_bit a (2 ^ j)) in
    let row = all_below_sound 256 bits_agree a all_agree ha in
    let cell = all_below_sound 8 (λ k. all_below 8 (λ j. q a k j)) k row hk in
    let here = both_true (all_below_sound 8 (q a k) j cell hj) in
    (same→eq _ _ here.0, same→eq _ _ here.1)

-- Equal types are those with the same byte and the same bit.
type_same : (t u : ℕ) → u % 256 / 8 ≡ t % 256 / 8 → (u % 8 == t % 8) ≡ (u % 256 == t % 256)
type_same t u e = ground (arith, e)

type_other : (t u : ℕ) → u % 256 / 8 ≢ t % 256 / 8 → (u % 256 == t % 256) ≡ false
type_other t u h = ne→== _ _ (λ e. h (ap (λ n. n / 8) e))

module _ (bits : List ℕ) (full : length bits ≡ 32) (bytes : All (λ b. b < 256) bits) where
  -- A write of the byte of `t`, read at `u`.
  read_same :
      (t u v : ℕ) → u % 256 / 8 ≡ t % 256 / 8 → byte_at (set bits (t % 256 / 8) v) (u % 256 / 8) ≡ v
  read_same t u v e = rw e (byte_at-set_self bits (t % 256 / 8) v (omega (arith, full)))

  is_supported-set :
      (t u : ℕ)
      → is_supported (set_supported bits t) u ≡ (u % 256 == t % 256 || is_supported bits u)
  unfolding is_supported set_supported
  is_supported-set t u = elim (Bool-cases (u % 256 / 8 == t % 256 / 8)) [
    | inl here ↦
        let e = (==_iff (u % 256 / 8) (t % 256 / 8)).0 here in
        rw (read_same t u (bit_or (byte_at bits (t % 256 / 8)) (2 ^ (t % 8))) e) (
          rw
            ((bits_agree_lem (byte_at bits (t % 256 / 8)) (t % 8) (u % 8)
              (byte_at-lt bits (t % 256 / 8) bytes) (omega arith) (omega arith)).0)
            (rw (type_same t u e, e) refl))
    | inr away ↦
        let ne : u % 256 / 8 ≢ t % 256 / 8 = ground (arith, away) in
        rw
          (
            byte_at-set_other bits (t % 256 / 8) (u % 256 / 8)
                (bit_or (byte_at bits (t % 256 / 8)) (2 ^ (t % 8))) (λ e. ne (sym e)),
            type_other t u ne,
          )
          refl
  ]

  is_supported-clear :
      (t u : ℕ)
      → is_supported (clear_supported bits t) u ≡ (not (u % 256 == t % 256) && is_supported bits u)
  unfolding is_supported clear_supported
  is_supported-clear t u = elim (Bool-cases (u % 256 / 8 == t % 256 / 8)) [
    | inl here ↦
        let e = (==_iff (u % 256 / 8) (t % 256 / 8)).0 here in
        rw (read_same t u (clear_bits (byte_at bits (t % 256 / 8)) (2 ^ (t % 8))) e) (
          rw
            ((bits_agree_lem (byte_at bits (t % 256 / 8)) (t % 8) (u % 8)
              (byte_at-lt bits (t % 256 / 8) bytes) (omega arith) (omega arith)).1)
            (rw (type_same t u e, e) refl))
    | inr away ↦
        let ne : u % 256 / 8 ≢ t % 256 / 8 = ground (arith, away) in
        rw
          (
            byte_at-set_other bits (t % 256 / 8) (u % 256 / 8)
                (clear_bits (byte_at bits (t % 256 / 8)) (2 ^ (t % 8))) (λ e. ne (sym e)),
            type_other t u ne,
          )
          refl
  ]

  -- The set behaves as a set of numbers below 256: after an insertion it has the new type and those
  -- it had, and after a removal those that it had but the removed one.
  pub supported_set_laws :
      (t u : ℕ)
      → (is_supported (set_supported bits t) u ≡ (u % 256 == t % 256 || is_supported bits u))
        × (is_supported (clear_supported bits t) u
            ≡ (not (u % 256 == t % 256) && is_supported bits u))
  supported_set_laws t u = (is_supported-set t u, is_supported-clear t u)
