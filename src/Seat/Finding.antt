-- ===== src/Seat/Finding.antt =====
-- Looking seats up by name and by number.
use wlvncc.Base.{
  ℕ, ◌≡◌, ◌≢◌, refl, sym, ◌∙◌, subst, true, List, [], ◌∷◌, none, some, ◌==◌, All, Bool-cases,
  Option-cases, both_true, inl, inr, ==_iff, ==_refl, ne→==,
}
use wlvncc.WlList.{
  find_first, update_first, remove_first, get_elem?-update_first, find_first-succeeds,
}
use wlvncc.Seat.{
  Seat, name_size, strlcpy, seat_name, equal, seat_find_by_name, seat_find_by_id, registry_remove,
}

equal_refl : (cs : List ℕ) → equal cs cs ≡ true
equal_refl [] = refl
equal_refl (c ∷ cs) = rw (==_refl c) (equal_refl cs)

equal_sound : (cs ds : List ℕ) → equal cs ds ≡ true → cs ≡ ds
equal_sound [] [] e = refl
equal_sound [] (d ∷ ds) e = cc
equal_sound (c ∷ cs) [] e = cc
equal_sound (c ∷ cs) (d ∷ ds) e =
    let both = both_true {a = c == d} {b = equal cs ds} e in
    let head = (==_iff c d).0 both.0 in let tail = equal_sound cs ds both.1 in cc

-- After a seat has been told its name, a search for that name, cut to 255 characters as the seat
-- keeps it, finds a seat of that name.
pub seat_find_by_name-seat_name :
    (wl_seat : ℕ) (name : List ℕ) (ss : List Seat) (s : Seat)
    → find_first (λ t. t.wl_seat == wl_seat) ss ≡ some s
    → (t : Seat) × (seat_find_by_name (seat_name wl_seat name ss) (strlcpy name name_size) ≡ some t)
      × (t.name ≡ strlcpy name name_size)
unfolding seat_find_by_name seat_name
seat_find_by_name-seat_name wl_seat name ss s e =
    let kept = strlcpy name name_size in
    let (i, there) =
      get_elem?-update_first (λ t. t.wl_seat == wl_seat) (λ t. record t { name = kept }) ss e in
    let (t, found, same) =
      find_first-succeeds (λ t. equal t.name kept)
        (update_first (λ t. t.wl_seat == wl_seat) (λ t. record t { name = kept }) ss) i there
        (equal_refl kept) in
    (t, found, equal_sound t.name kept same)

-- No two seats have one number.
unfoldable pub Distinct : List Seat → Type 0
Distinct [] = Unit {0}
Distinct (s ∷ ss) = All (λ (t : Seat). t.id ≢ s.id) ss × Distinct ss

find_first-absent :
    (id : ℕ) (ss : List Seat)
    → All (λ (t : Seat). t.id ≢ id) ss
    → find_first (λ s. s.id == id) ss ≡ none
unfolding find_first
find_first-absent id [] h = refl
find_first-absent id (s ∷ ss) h = rw (ne→== s.id id h.0) (find_first-absent id ss h.1)

remove_first-forgets :
    (id : ℕ) (ss : List Seat)
    → Distinct ss
    → find_first (λ s. s.id == id) (remove_first (λ s. s.id == id) ss) ≡ none
unfolding find_first remove_first Distinct
remove_first-forgets id [] d = refl
remove_first-forgets id (s ∷ ss) d = elim (Bool-cases (s.id == id)) [
  | inl hit ↦
      let same = (==_iff s.id id).0 hit in
      rw hit (find_first-absent id ss (subst (λ n. All (λ (t : Seat). t.id ≢ n) ss) same d.0))
  | inr miss ↦ rw (miss, miss) (remove_first-forgets id ss d.1)
]

remove_first-keeps :
    (id other : ℕ) (ss : List Seat)
    → other ≢ id
    → find_first (λ s. s.id == other) (remove_first (λ s. s.id == id) ss)
      ≡ find_first (λ s. s.id == other) ss
unfolding find_first remove_first
remove_first-keeps id other [] n = refl
remove_first-keeps id other (s ∷ ss) n = elim (Bool-cases (s.id == id)) [
  | inl hit ↦ rw (hit, ne→== s.id other (λ e. n (sym e ∙ (==_iff s.id id).0 hit))) refl
  | inr miss ↦ rw (miss, remove_first-keeps id other ss n) refl
]

-- Where no two seats have one number: once the registry has removed a number, no seat is found
-- under it, and under every other number the seat that was found before.
pub registry_remove-forgets :
    (id : ℕ) (ss : List Seat)
    → Distinct ss
    → (seat_find_by_id (registry_remove id ss) id ≡ none)
      × ((other : ℕ)
          → other ≢ id
          → seat_find_by_id (registry_remove id ss) other ≡ seat_find_by_id ss other)
unfolding registry_remove seat_find_by_id
registry_remove-forgets id ss d = elim (Option-cases (find_first (λ s. s.id == id) ss)) [
  | inl absent ↦ rw (registry_remove, absent) (absent, λ other n. refl)
  | inr (s, found) ↦
      rw (registry_remove, found)
        (remove_first-forgets id ss d, λ other n. remove_first-keeps id other ss n)
]
