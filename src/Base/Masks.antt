-- ===== src/Base/Masks.antt =====
-- Sets of at most eight flags in one word, as the bit operations of the source see them.
use Prim.Native.Nat.{ℕ, zero, suc, ◌-◌, ◌<◌, bit_and}
use mathlib.Core.Path.{◌≡◌}
use mathlib.Core.Bool.{Bool, true, false, not, ◌&&◌}
use native.Mathlib.Omega.{arith}
use wlvncc.Base.Tests.{◌==◌, ==_iff}

-- `a &= ~b` on a byte.
unfoldable pub clear_bits : ℕ → ℕ → ℕ
clear_bits a b = bit_and a (255 - b)

-- `a & b` as a test.
unfoldable pub has_bit : ℕ → ℕ → Bool
has_bit a b = not (bit_and a b == 0)

unfoldable pub all_below : ℕ → (ℕ → Bool) → Bool
all_below zero p = true
all_below (suc n) p = p n && all_below n p

-- Over a small range a test is checked at every value.
pub all_below_sound : (n : ℕ) (p : ℕ → Bool) (x : ℕ) → all_below n p ≡ true → x < n → p x ≡ true
unfolding all_below
all_below_sound zero p x h lt = elim lt [ ]
all_below_sound (suc n) p x h lt = ground (arith, all_below_sound n p x)

pub all_below_eq :
    (n : ℕ) (f g : ℕ → ℕ) (x : ℕ) → all_below n (λ y. f y == g y) ≡ true → x < n → f x ≡ g x
all_below_eq n f g x h lt = (==_iff (f x) (g x)).0 (all_below_sound n (λ y. f y == g y) x h lt)

-- A claim about six flags is checked at all 64 values.
unfoldable pub every : (Bool → Bool) → Bool
every p = p true && p false

pub every_sound : (p : Bool → Bool) (b : Bool) → every p ≡ true → p b ≡ true
unfolding every
every_sound p true h = ground arith
every_sound p false h = ground arith

unfoldable pub every_six : (Bool → Bool → Bool → Bool → Bool → Bool → Bool) → Bool
unfolding every
every_six p =
    every (λ a. every (λ b. every (λ c. every (λ d. every (λ e. every (λ f. p a b c d e f))))))

pub every_six_sound :
    (p : Bool → Bool → Bool → Bool → Bool → Bool → Bool) (a b c d e f : Bool)
    → every_six p ≡ true
    → p a b c d e f ≡ true
unfolding every_six
every_six_sound p a b c d e f h =
    let pa = λ (x : Bool).
      every (λ b. every (λ c. every (λ d. every (λ e. every (λ f. p x b c d e f))))) in
    let pb = λ (x : Bool). every (λ c. every (λ d. every (λ e. every (λ f. p a x c d e f)))) in
    let pc = λ (x : Bool). every (λ d. every (λ e. every (λ f. p a b x d e f))) in
    let pd = λ (x : Bool). every (λ e. every (λ f. p a b c x e f)) in
    let pe = λ (x : Bool). every (λ f. p a b c d x f) in
    every_sound (p a b c d e) f (
      every_sound pe e
        (every_sound pd d (every_sound pc c (every_sound pb b (every_sound pa a h)))))

pub every_four_sound :
    (p : Bool → Bool → Bool → Bool → Bool) (a b c d : Bool)
    → every (λ a. every (λ b. every (λ c. every (λ d. p a b c d)))) ≡ true
    → p a b c d ≡ true
every_four_sound p a b c d h =
    let pa = λ (x : Bool). every (λ b. every (λ c. every (λ d. p x b c d))) in
    let pb = λ (x : Bool). every (λ c. every (λ d. p a x c d)) in
    let pc = λ (x : Bool). every (λ d. p a b x d) in
    every_sound (p a b c) d (every_sound pc c (every_sound pb b (every_sound pa a h)))

abbrev pub same : Bool → Bool → Bool
same true b = b
same false b = not b

pub same→eq : (a b : Bool) → same a b ≡ true → a ≡ b
same→eq true b h = cc
same→eq false true h = cc
same→eq false false h = cc
