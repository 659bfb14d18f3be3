-- ===== src/Base/Outcomes.antt =====
-- How a C function ends: it returns, an assertion or a call of abort() stops the program, or it
-- does what C leaves undefined (a null pointer read, a use after free), or it does not end.
use mathlib.Core.Path.{◌≡◌, refl}
use mathlib.Core.Bool.{Bool, true, false}
use mathlib.Core.Option.{Option, none, some}

pub data Outcome {ℓ} (A : Type ℓ) : Type ℓ where
  done : A → Outcome A
  aborted : Outcome A
  fault : Outcome A
  endless : Outcome A

infixl 5 ◌>>=◌ ◌>>◌
abbrev pub ◌>>=◌ {ℓ κ} : {A : Type ℓ} {B : Type κ} → Outcome A → (A → Outcome B) → Outcome B
done a >>= f = f a
aborted >>= f = aborted
fault >>= f = fault
endless >>= f = endless

abbrev pub ◌>>◌ {ℓ} : {B : Type ℓ} → Outcome (Unit {0}) → Outcome B → Outcome B
m >> k = m >>= λ _. k

-- assert(b)
abbrev pub assert : Bool → Outcome (Unit {0})
assert true = done tt
assert false = aborted

-- assert(p) on a pointer, and a read through an unchecked one.
abbrev pub assert_found {ℓ} : {A : Type ℓ} → Option A → Outcome A
assert_found none = aborted
assert_found (some a) = done a

abbrev pub deref {ℓ} : {A : Type ℓ} → Option A → Outcome A
deref none = fault
deref (some a) = done a

pub >>=-eq-done {ℓ κ} :
    {A : Type ℓ} {B : Type κ} (m : Outcome A) (f : A → Outcome B) {b : B}
    → (m >>= f) ≡ done b
    → (a : A) × (m ≡ done a) × (f a ≡ done b)
>>=-eq-done (done a) f h = (a, refl, h)
>>=-eq-done aborted f h = cc
>>=-eq-done fault f h = cc
>>=-eq-done endless f h = cc

pub done-injective {ℓ} : {A : Type ℓ} {a b : A} → done a ≡ done b → a ≡ b
done-injective e = cc

pub deref-eq-done {ℓ} : {A : Type ℓ} (o : Option A) {a : A} → deref o ≡ done a → o ≡ some a
deref-eq-done none e = cc
deref-eq-done (some b) e = cc

pub assert_found-eq-done {ℓ} :
    {A : Type ℓ} (o : Option A) {a : A} → assert_found o ≡ done a → o ≡ some a
assert_found-eq-done none e = cc
assert_found-eq-done (some b) e = cc
