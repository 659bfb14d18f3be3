-- ===== src/WlList.antt =====
-- Intrusive lists (struct wl_list of libwayland) as the program walks them: the front is the newest
-- entry, and a search stops at the first entry that fits.
use wlvncc.Base.{
  ℕ, zero, suc, get_elem?, ◌+◌, ◌≡◌, refl, Bool, true, List, [], ◌∷◌, map, Option, none, some,
  if◌then◌else◌, Bool-cases, inl, inr, arith,
}

-- A sum along a list.
unfoldable pub total {ℓ} : {A : Type ℓ} → (A → ℕ) → List A → ℕ
total m [] = 0
total m (x ∷ xs) = m x + total m xs

module _ {ℓ} {A : Type ℓ} (p : A → Bool) where
  unfoldable pub find_first : List A → Option A
  find_first [] = none
  find_first (x ∷ xs) = if p x then some x else find_first xs

  -- The entry that the search finds, written through its pointer.
  unfoldable pub update_first : (A → A) → List A → List A
  update_first f [] = []
  update_first f (x ∷ xs) = if p x then f x ∷ xs else x ∷ update_first f xs

  -- wl_list_remove of the entry that the search finds.
  unfoldable pub remove_first : List A → List A
  remove_first [] = []
  remove_first (x ∷ xs) = if p x then xs else x ∷ remove_first xs

  pub find_first-fits : (xs : List A) {x : A} → find_first xs ≡ some x → p x ≡ true
  unfolding find_first
  find_first-fits [] e = cc
  find_first-fits (y ∷ xs) {x} e = elim (Bool-cases (p y)) [
    | inl hit ↦ let same : y ≡ x = cc (rw hit at e) in rw (← same) hit
    | inr miss ↦ find_first-fits xs (rw miss at e)
  ]

  -- A field that the update keeps is kept all along the list.
  pub map-update_first {κ} :
      {B : Type κ} (g : A → B) (f : A → A) (xs : List A)
      → ((x : A) → g (f x) ≡ g x)
      → map g (update_first f xs) ≡ map g xs
  unfolding update_first
  map-update_first g f [] h = refl
  map-update_first g f (x ∷ xs) h = elim (Bool-cases (p x)) [
    | inl hit ↦ rw (hit, h x)
    | inr miss ↦ rw (miss, map-update_first g f xs h)
  ]

  -- The entry is written, if the update keeps the test.
  pub find_first-update_first :
      (f : A → A) (xs : List A) {x : A}
      → ((y : A) → p (f y) ≡ p y)
      → find_first xs ≡ some x
      → find_first (update_first f xs) ≡ some (f x)
  unfolding find_first update_first
  find_first-update_first f [] h e = cc
  find_first-update_first f (y ∷ xs) {x} h e = elim (Bool-cases (p y)) [
    | inl hit ↦ let same : y ≡ x = cc (rw hit at e) in rw (hit, h y, hit, same)
    | inr miss ↦ rw (miss, miss) (find_first-update_first f xs h (rw miss at e))
  ]

  pub total-update_first :
      (m : A → ℕ) (f : A → A) (xs : List A) {x : A}
      → find_first xs ≡ some x
      → total m (update_first f xs) + m x ≡ total m xs + m (f x)
  unfolding find_first update_first total
  total-update_first m f [] e = cc
  total-update_first m f (y ∷ xs) {x} e = elim (Bool-cases (p y)) [
    | inl hit ↦ let same : y ≡ x = cc (rw hit at e) in rw (hit, ← same) (omega arith)
    | inr miss ↦ rw miss (omega (arith, total-update_first m f xs (rw miss at e)))
  ]

  pub total-remove_first :
      (m : A → ℕ) (xs : List A) {x : A}
      → find_first xs ≡ some x
      → total m (remove_first xs) + m x ≡ total m xs
  unfolding find_first remove_first total
  total-remove_first m [] e = cc
  total-remove_first m (y ∷ xs) {x} e = elim (Bool-cases (p y)) [
    | inl hit ↦ let same : y ≡ x = cc (rw hit at e) in rw (hit, ← same) (omega arith)
    | inr miss ↦ rw miss (omega (arith, total-remove_first m xs (rw miss at e)))
  ]

  -- Where the written entry stands afterwards.
  pub get_elem?-update_first :
      (f : A → A) (xs : List A) {x : A}
      → find_first xs ≡ some x
      → (i : ℕ) × (get_elem? (update_first f xs) i ≡ some (f x))
  unfolding find_first update_first
  get_elem?-update_first f [] e = cc
  get_elem?-update_first f (y ∷ xs) {x} e = elim (Bool-cases (p y)) [
    | inl hit ↦ let same : y ≡ x = cc (rw hit at e) in (0, rw (hit, same) refl)
    | inr miss ↦
        let (i, there) = get_elem?-update_first f xs (rw miss at e) in (suc i, rw miss there)
  ]

  -- An entry that fits makes the search succeed.
  pub find_first-succeeds :
      (xs : List A) (i : ℕ) {x : A}
      → get_elem? xs i ≡ some x
      → p x ≡ true
      → (y : A) × (find_first xs ≡ some y) × (p y ≡ true)
  unfolding find_first
  find_first-succeeds [] i e fits = cc
  find_first-succeeds (y ∷ xs) zero {x} e fits =
      let same : y ≡ x = cc in let hit : p y ≡ true = rw same fits in (y, rw hit refl, hit)
  find_first-succeeds (y ∷ xs) (suc i) e fits = elim (Bool-cases (p y)) [
    | inl hit ↦ (y, rw hit refl, hit)
    | inr miss ↦
        let (z, found, fits') = find_first-succeeds xs i e fits in (z, rw miss found, fits')
  ]
