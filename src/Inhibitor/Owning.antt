-- ===== src/Inhibitor/Owning.antt =====
-- Every inhibitor that was created is destroyed in the end, once.
use wlvncc.Base.{
  ℕ, ◌+◌, ◌≡◌, refl, ap, subst, ltb, ◌==◌, false, List, [], ◌∷◌, ◌++◌, Option, none, some,
  if◌then◌else◌, done, >>=-eq-done, done-injective, Bool-cases, Option-cases, inl, inr, arith,
}
use wlvncc.WlList.{find_first, update_first, total, total-update_first}
use wlvncc.Inhibitor.{
  SeatInhibitor, Inhibitor, Request, inhibit_shortcuts, destroy, destroy_manager, is_of, is_some,
  hold, find_by_seat, is_inhibited, create_for, destroy_for, inhibitor_inhibit, release_active,
  inhibitor_release, inhibitor_toggle,
}

-- One where the inhibitor has the number `j`.
unfoldable pub names : ℕ → Option ℕ → ℕ
names j none = 0
names j (some i) = if i == j then 1 else 0

-- The requests that create an inhibitor, and those that destroy the inhibitor `j`.
unfoldable pub creations : List Request → ℕ
creations [] = 0
creations (inhibit_shortcuts surface seat ∷ qs) = 1 + creations qs
creations (q ∷ qs) = creations qs

unfoldable pub destructions : ℕ → List Request → ℕ
unfolding names
destructions j [] = 0
destructions j (destroy i ∷ qs) = names j (some i) + destructions j qs
destructions j (q ∷ qs) = destructions j qs

pub creations-append : (qs rs : List Request) → creations (qs ++ rs) ≡ creations qs + creations rs
unfolding creations
creations-append [] rs = omega arith
creations-append (inhibit_shortcuts f t ∷ qs) rs = omega (arith, creations-append qs rs)
creations-append (destroy i ∷ qs) rs = creations-append qs rs
creations-append (destroy_manager ∷ qs) rs = creations-append qs rs

pub destructions-append :
    (j : ℕ) (qs rs : List Request)
    → destructions j (qs ++ rs) ≡ destructions j qs + destructions j rs
unfolding destructions
destructions-append j [] rs = omega arith
destructions-append j (destroy i ∷ qs) rs = omega (arith, destructions-append j qs rs)
destructions-append j (inhibit_shortcuts f t ∷ qs) rs = destructions-append j qs rs
destructions-append j (destroy_manager ∷ qs) rs = destructions-append j qs rs

-- One for an entry that holds the inhibitor `j`.
unfoldable pub holds : ℕ → SeatInhibitor → ℕ
unfolding names
holds j i = names j i.inhibitor

-- One for a number that is below `n`.
unfoldable pub below : ℕ → ℕ → ℕ
below j n = if ltb j n then 1 else 0

below-next : (j n : ℕ) → below j (n + 1) ≡ below j n + names j (some n)
unfolding below names
below-next j n = ground arith

-- The inhibitors are numbered as they are created, and each is either destroyed, once, or held by
-- one entry.
pub record Owns (s : Inhibitor) : Type 0 where
  pub made : creations s.requests ≡ s.created
  pub once :
      (j : ℕ) → below j s.created ≡ destructions j s.requests + total (holds j) s.seat_inhibitors

total-hold :
    (j : ℕ) (is : List SeatInhibitor) (seat : ℕ) (i : SeatInhibitor) (o : Option ℕ)
    → find_first (is_of seat) is ≡ some i
    → total (holds j) (update_first (is_of seat) (hold o) is) + holds j i
      ≡ total (holds j) is + names j o
unfolding holds
total-hold j is seat i o e = total-update_first (is_of seat) (holds j) (hold o) is e

free_names : (j : ℕ) (o : Option ℕ) → is_some o ≡ false → names j o ≡ 0
unfolding names
free_names j none h = refl
free_names j (some i) h = cc

create_for-Owns :
    (s : Inhibitor) (seat : ℕ) (i : SeatInhibitor)
    → find_first (is_of seat) s.seat_inhibitors ≡ some i
    → is_some i.inhibitor ≡ false
    → Owns s
    → Owns (create_for s seat)
unfolding create_for creations destructions holds
create_for-Owns s seat i e h o = record {
  made = omega (arith, o.made, creations-append s.requests (inhibit_shortcuts s.surface seat ∷ []));
  once = λ j. omega (
    arith,
    o.once j,
    below-next j s.created,
    free_names j i.inhibitor h,
    total-hold j s.seat_inhibitors seat i (some s.created) e,
    destructions-append j s.requests (inhibit_shortcuts s.surface seat ∷ []),
  );
}

destroy_for-Owns :
    (s : Inhibitor) (seat p : ℕ) (i : SeatInhibitor)
    → find_first (is_of seat) s.seat_inhibitors ≡ some i
    → i.inhibitor ≡ some p
    → Owns s
    → Owns (destroy_for s seat p)
unfolding destroy_for creations destructions holds names
destroy_for-Owns s seat p i e h o = record {
  made = omega (arith, o.made, creations-append s.requests (destroy p ∷ []));
  once = λ j. omega (
    arith,
    o.once j,
    ap (names j) h,
    total-hold j s.seat_inhibitors seat i none e,
    destructions-append j s.requests (destroy p ∷ []),
  );
}

pub inhibitor_inhibit-Owns :
    (seat : ℕ) (s s' : Inhibitor) → inhibitor_inhibit seat s ≡ done s' → Owns s → Owns s'
unfolding inhibitor_inhibit is_inhibited find_by_seat
inhibitor_inhibit-Owns seat s s' e o =
    elim (Option-cases (find_first (is_of seat) s.seat_inhibitors)) [
      | inl absent ↦ cc (rw absent at e)
      | inr (i, found) ↦ elim (Bool-cases (is_some i.inhibitor)) [
        | inl held ↦ subst Owns (done-injective (rw (found, held) at e)) o
        | inr free ↦
            subst Owns (done-injective (rw (found, free) at e))
              (create_for-Owns s seat i found free o)
      ]
    ]

release_active-Owns :
    (seat : ℕ) (s s' : Inhibitor) (i : SeatInhibitor)
    → find_first (is_of seat) s.seat_inhibitors ≡ some i
    → release_active s seat i ≡ done s'
    → Owns s
    → Owns s'
unfolding release_active
release_active-Owns seat s s' i found e o = elim (Bool-cases i.active) [
  | inl active ↦ elim (Option-cases i.inhibitor) [
    | inl absent ↦ cc (rw (active, absent) at e)
    | inr (p, held) ↦
        subst Owns (done-injective (rw (active, held) at e))
          (destroy_for-Owns s seat p i found held o)
  ]
  | inr waiting ↦ subst Owns (done-injective (rw waiting at e)) o
]

inhibitor_release-Owns :
    (seat : ℕ) (s s' : Inhibitor) → inhibitor_release seat s ≡ done s' → Owns s → Owns s'
unfolding inhibitor_release is_inhibited find_by_seat
inhibitor_release-Owns seat s s' e o =
    elim (Option-cases (find_first (is_of seat) s.seat_inhibitors)) [
      | inl absent ↦ cc (rw absent at e)
      | inr (i, found) ↦ elim (Bool-cases (is_some i.inhibitor)) [
        | inl held ↦ release_active-Owns seat s s' i found (rw (found, held) at e) o
        | inr free ↦ subst Owns (done-injective (rw (found, free) at e)) o
      ]
    ]

pub inhibitor_toggle-Owns :
    (seat : ℕ) (s s' : Inhibitor) → inhibitor_toggle seat s ≡ done s' → Owns s → Owns s'
unfolding inhibitor_toggle
inhibitor_toggle-Owns seat s s' e o =
    let (b, e1, e2) = >>=-eq-done (is_inhibited s seat) _ e in
    elim (Bool-cases b) [
      | inl held ↦ inhibitor_release-Owns seat s s' (rw held at e2) o
      | inr free ↦ inhibitor_inhibit-Owns seat s s' (rw free at e2) o
    ]
