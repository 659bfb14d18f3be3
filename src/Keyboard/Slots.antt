-- ===== src/Keyboard/Slots.antt =====
-- The array of pressed keys, read as a set of keys. Slot value 0 is a free slot.
use wlvncc.Base.{
  ℕ, zero, suc, ◌≡◌, ◌≢◌, refl, Bool, true, false, not, ◌&&◌, ◌||◌, List, [], ◌∷◌, Option, none,
  some, ◌==◌, length, length-set, set, arith, Option-cases, inl, inr,
}
use wlvncc.Keyboard.{get_pressed_key, add_pressed_key, remove_pressed_key}

abbrev pub is_found : Option ℕ → Bool
is_found none = false
is_found (some i) = true

-- Whether some slot holds the key.
unfoldable pub held : List ℕ → ℕ → Bool
unfolding get_pressed_key
held slots key = is_found (get_pressed_key slots key)

-- No key stands in two slots.
abbrev pub Distinct : List ℕ → Type 0
Distinct [] = Unit {0}
Distinct (p ∷ ps) = (p ≢ 0 → held ps p ≡ false) × Distinct ps

pub held-nil : (key : ℕ) → held [] key ≡ false
unfolding held
held-nil key = refl

pub held-cons : (p : ℕ) (ps : List ℕ) (key : ℕ) → held (p ∷ ps) key ≡ (key == p || held ps key)
unfolding held
held-cons p ps key = ground arith

get_pressed_key-held-false :
    (slots : List ℕ) (key : ℕ) → get_pressed_key slots key ≡ none → held slots key ≡ false
unfolding held
get_pressed_key-held-false slots key e = ground arith

get_pressed_key-held-true :
    (slots : List ℕ) (key i : ℕ) → get_pressed_key slots key ≡ some i → held slots key ≡ true
unfolding held
get_pressed_key-held-true slots key i e = ground arith

held-set_free :
    (slots : List ℕ) (i key j : ℕ)
    → get_pressed_key slots 0 ≡ some i
    → j ≢ 0
    → held (set slots i key) j ≡ (j == key || held slots j)
unfolding get_pressed_key
held-set_free [] i key j e h = cc
held-set_free (zero ∷ ps) zero key j e h = ground (arith, held-cons key ps j, held-cons 0 ps j)
held-set_free (zero ∷ ps) (suc i) key j e h = ground arith
held-set_free (suc p ∷ ps) zero key j e h = ground arith
held-set_free (suc p ∷ ps) (suc i) key j e h =
    ground
      (arith, held-cons (suc p) ps j, held-cons (suc p) (set ps i key) j, held-set_free ps i key j)

held-set_clear :
    (slots : List ℕ) (i key j : ℕ)
    → Distinct slots
    → get_pressed_key slots key ≡ some i
    → key ≢ 0
    → j ≢ 0
    → held (set slots i 0) j ≡ (not (j == key) && held slots j)
unfolding get_pressed_key
held-set_clear [] i key j d e hk hj = cc
held-set_clear (p ∷ ps) zero key j d e hk hj =
    ground (arith, held-cons 0 ps j, held-cons p ps j, d.0)
held-set_clear (p ∷ ps) (suc i) key j d e hk hj =
    ground (arith, held-cons p ps j, held-cons p (set ps i 0) j, held-set_clear ps i key j d.1)

Distinct-set_free :
    (slots : List ℕ) (i key : ℕ)
    → Distinct slots
    → get_pressed_key slots 0 ≡ some i
    → held slots key ≡ false
    → Distinct (set slots i key)
unfolding get_pressed_key
Distinct-set_free [] i key d e h = tt
Distinct-set_free (zero ∷ ps) zero key d e h = (λ k. ground (arith, held-cons 0 ps key), d.1)
Distinct-set_free (zero ∷ ps) (suc i) key d e h = absurd (ground arith)
Distinct-set_free (suc p ∷ ps) zero key d e h = absurd (ground arith)
Distinct-set_free (suc p ∷ ps) (suc i) key d e h = (
  λ k. ground (arith, held-set_free ps i key (suc p), held-cons (suc p) ps key, d.0 k),
  Distinct-set_free ps i key d.1 (ground arith) (ground (arith, held-cons (suc p) ps key)),
)

Distinct-set_clear :
    (slots : List ℕ) (i key : ℕ)
    → Distinct slots
    → get_pressed_key slots key ≡ some i
    → key ≢ 0
    → Distinct (set slots i 0)
unfolding get_pressed_key
Distinct-set_clear [] i key d e h = tt
Distinct-set_clear (p ∷ ps) zero key d e h = (λ k. absurd (k refl), d.1)
Distinct-set_clear (p ∷ ps) (suc i) key d e h = (
  λ k. ground (arith, held-set_clear ps i key p d.1, d.0 k),
  Distinct-set_clear ps i key d.1 (ground arith) h,
)

-- There is a slot for the key: its own, or a free one.
abbrev pub HasRoom : List ℕ → ℕ → Type 0
HasRoom slots key = (held slots key || held slots 0) ≡ true

pub held-add_pressed_key :
    (slots : List ℕ) (key j : ℕ)
    → j ≢ 0
    → held (add_pressed_key slots key) j
      ≡ ((j == key && (held slots key || held slots 0)) || held slots j)
unfolding add_pressed_key
held-add_pressed_key slots key j h = elim (Option-cases (get_pressed_key slots key)) [
  | inl new ↦ elim (Option-cases (get_pressed_key slots 0)) [
    | inl full ↦
        rw (new, full, add_pressed_key)
          (ground (
            arith,
            get_pressed_key-held-false slots key new,
            get_pressed_key-held-false slots 0 full,
          ))
    | inr (i, free) ↦
        rw (new, free, add_pressed_key)
          (ground
            (arith, get_pressed_key-held-true slots 0 i free, held-set_free slots i key j free h))
  ]
  | inr (i, old) ↦
      rw (old, add_pressed_key) (ground (arith, get_pressed_key-held-true slots key i old))
]

pub held-remove_pressed_key :
    (slots : List ℕ) (key j : ℕ)
    → Distinct slots
    → key ≢ 0
    → j ≢ 0
    → held (remove_pressed_key slots key) j ≡ (not (j == key) && held slots j)
unfolding remove_pressed_key
held-remove_pressed_key slots key j d hk hj = elim (Option-cases (get_pressed_key slots key)) [
  | inl e ↦ rw (e, remove_pressed_key) (ground (arith, get_pressed_key-held-false slots key e))
  | inr (i, e) ↦ rw (e, remove_pressed_key) (held-set_clear slots i key j d e hk hj)
]

pub add_pressed_key-Distinct :
    (slots : List ℕ) (key : ℕ) → Distinct slots → Distinct (add_pressed_key slots key)
unfolding add_pressed_key
add_pressed_key-Distinct slots key d = elim (Option-cases (get_pressed_key slots key)) [
  | inl new ↦ elim (Option-cases (get_pressed_key slots 0)) [
    | inl full ↦ rw (new, full, add_pressed_key) d
    | inr (i, free) ↦
        rw (new, free, add_pressed_key)
          (Distinct-set_free slots i key d free (get_pressed_key-held-false slots key new))
  ]
  | inr (i, old) ↦ rw (old, add_pressed_key) d
]

pub remove_pressed_key-Distinct :
    (slots : List ℕ) (key : ℕ) → Distinct slots → key ≢ 0 → Distinct (remove_pressed_key slots key)
unfolding remove_pressed_key
remove_pressed_key-Distinct slots key d h = elim (Option-cases (get_pressed_key slots key)) [
  | inl e ↦ rw (e, remove_pressed_key) d
  | inr (i, e) ↦ rw (e, remove_pressed_key) (Distinct-set_clear slots i key d e h)
]

pub length-add_pressed_key :
    (slots : List ℕ) (key : ℕ) → length (add_pressed_key slots key) ≡ length slots
unfolding add_pressed_key
length-add_pressed_key slots key = grind (arith, length-set)

pub length-remove_pressed_key :
    (slots : List ℕ) (key : ℕ) → length (remove_pressed_key slots key) ≡ length slots
unfolding remove_pressed_key
length-remove_pressed_key slots key = grind (arith, length-set)
