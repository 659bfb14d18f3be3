-- ===== src/Inhibitor/Balance.antt =====
-- Every step of the program keeps the inhibitors owned; in the end each is destroyed, once.
use wlvncc.Base.{
  ℕ, ◌+◌, ◌≡◌, refl, ap, subst, Bool, true, false, List, [], ◌∷◌, ◌++◌, Option, none, some, ◌==◌,
  if◌then◌else◌, ltb, done, >>=-eq-done, done-injective, Bool-cases, Option-cases, inl, inr, arith,
}
use wlvncc.WlList.{find_first, update_first, total, total-remove_first}
use wlvncc.Inhibitor.{
  SeatInhibitor, Inhibitor, is_of, find_by_seat, destroys, insert_seat, seat_inhibitor_new,
  inhibitor_new, inhibitor_inhibit, inhibitor_toggle, inhibitor_add_seat, inhibitor_remove_seat,
  inhibit_all, inhibitor_init, inhibitor_destroy, inhibitor_event,
}
use wlvncc.Inhibitor.Owning.{
  creations, destructions, creations-append, destructions-append, holds, Owns, names, below,
  inhibitor_inhibit-Owns, inhibitor_toggle-Owns,
}

-- The steps that the program takes on an inhibitor.
pub data Step : Inhibitor → Inhibitor → Type 0 where
  init :
      {s s' : Inhibitor} {b : Bool} (surface : ℕ)
      → inhibitor_init surface s ≡ done (s', b)
      → Step s s'
  toggle : {s s' : Inhibitor} (seat : ℕ) → inhibitor_toggle seat s ≡ done s' → Step s s'
  add :
      {s s' : Inhibitor} (allocated : Bool) (seat : ℕ)
      → inhibitor_add_seat allocated seat s ≡ done s'
      → Step s s'
  remove : {s s' : Inhibitor} (seat : ℕ) → inhibitor_remove_seat seat s ≡ done s' → Step s s'
  event : {s : Inhibitor} (active : Bool) (seat : ℕ) → Step s (inhibitor_event active seat s)

pub data Reach : Inhibitor → Inhibitor → Type 0 where
  here : {s : Inhibitor} → Reach s s
  next : {s t u : Inhibitor} → Reach s t → Step t u → Reach s u

insert_seat-Owns : (seat : ℕ) (s : Inhibitor) → Owns s → Owns (insert_seat seat s)
unfolding insert_seat seat_inhibitor_new holds total names
insert_seat-Owns seat s o = record { made = o.made; once = λ j. omega (arith, o.once j) }

inhibitor_add_seat-Owns :
    (allocated : Bool) (seat : ℕ) (s s' : Inhibitor)
    → inhibitor_add_seat allocated seat s ≡ done s'
    → Owns s
    → Owns s'
unfolding inhibitor_add_seat find_by_seat
inhibitor_add_seat-Owns false seat s s' e o =
    elim (Option-cases (find_first (is_of seat) s.seat_inhibitors)) [
      | inl absent ↦ cc (rw (inhibitor_add_seat, absent) at e)
      | inr (i, found) ↦ subst Owns (done-injective (rw (inhibitor_add_seat, found) at e)) o
    ]
inhibitor_add_seat-Owns true seat s s' e o =
    elim (Option-cases (find_first (is_of seat) s.seat_inhibitors)) [
      | inl absent ↦ elim (Option-cases s.surface) [
        | inl early ↦
            subst Owns (done-injective (rw (inhibitor_add_seat, absent, early) at e))
              (insert_seat-Owns seat s o)
        | inr (surface, late) ↦
            inhibitor_inhibit-Owns seat (insert_seat seat s) s'
              (rw (inhibitor_add_seat, absent, late) at e) (insert_seat-Owns seat s o)
      ]
      | inr (i, found) ↦ subst Owns (done-injective (rw (inhibitor_add_seat, found) at e)) o
    ]

destroys_count :
    (j : ℕ) (o : Option ℕ)
    → (creations (destroys o) ≡ 0) × (destructions j (destroys o) ≡ names j o)
unfolding creations destructions names
destroys_count j none = (refl, refl)
destroys_count j (some i) = (refl, omega arith)

inhibitor_remove_seat-Owns :
    (seat : ℕ) (s s' : Inhibitor) → inhibitor_remove_seat seat s ≡ done s' → Owns s → Owns s'
unfolding inhibitor_remove_seat find_by_seat
inhibitor_remove_seat-Owns seat s s' e o =
    elim (Option-cases (find_first (is_of seat) s.seat_inhibitors)) [
      | inl absent ↦ subst Owns (done-injective (rw (inhibitor_remove_seat, absent) at e)) o
      | inr (i, found) ↦
          subst Owns (done-injective (rw (inhibitor_remove_seat, found) at e)) (record {
            made = omega (
              arith,
              o.made,
              (destroys_count 0 i.inhibitor).0,
              creations-append s.requests (destroys i.inhibitor),
            );
            once = λ j.
                unfold holds in
                omega (
                  arith,
                  o.once j,
                  total-remove_first (is_of seat) (holds j) s.seat_inhibitors found,
                  (destroys_count j i.inhibitor).1,
                  destructions-append j s.requests (destroys i.inhibitor),
                );
          })
    ]

inhibit_all-Owns :
    (is : List SeatInhibitor) (s s' : Inhibitor) → inhibit_all is s ≡ done s' → Owns s → Owns s'
unfolding inhibit_all
inhibit_all-Owns [] s s' e o = subst Owns (done-injective e) o
inhibit_all-Owns (i ∷ is) s s' e o =
    let (t, e1, e2) = >>=-eq-done (inhibitor_inhibit i.seat s) (inhibit_all is) e in
    inhibit_all-Owns is t s' e2 (inhibitor_inhibit-Owns i.seat s t e1 o)

surface-Owns : (f : ℕ) (s : Inhibitor) → Owns s → Owns (record s { surface = some f })
surface-Owns f s o = record { made = o.made; once = o.once }

inhibitor_init-Owns :
    (surface : ℕ) (s s' : Inhibitor) (b : Bool)
    → inhibitor_init surface s ≡ done (s', b)
    → Owns s
    → Owns s'
unfolding inhibitor_init
inhibitor_init-Owns surface s s' b e o = elim (Option-cases s.surface) [
  | inl early ↦
      let (t, e1, e2) =
        >>=-eq-done (inhibit_all s.seat_inhibitors (record s { surface = some surface })) _
          (rw early at e) in
      subst Owns (ap (λ q. q.0) (done-injective e2)) (
        inhibit_all-Owns s.seat_inhibitors (record s { surface = some surface }) t e1
          (surface-Owns surface s o))
  | inr (f, late) ↦ subst Owns (ap (λ q. q.0) (done-injective (rw late at e))) (surface-Owns f s o)
]

total-event :
    (j : ℕ) (is : List SeatInhibitor) (active : Bool) (seat : ℕ)
    → total (holds j) (update_first (is_of seat) (λ i. record i { active = active }) is)
      ≡ total (holds j) is
unfolding update_first total holds
total-event j [] active seat = refl
total-event j (i ∷ is) active seat = elim (Bool-cases (seat == i.seat)) [
  | inl hit ↦ rw hit refl
  | inr miss ↦ rw miss (ap (λ n. holds j i + n) (total-event j is active seat))
]

inhibitor_event-Owns :
    (active : Bool) (seat : ℕ) (s : Inhibitor) → Owns s → Owns (inhibitor_event active seat s)
unfolding inhibitor_event
inhibitor_event-Owns active seat s o = record {
  made = o.made;
  once = λ j. omega (arith, o.once j, total-event j s.seat_inhibitors active seat);
}

Step-Owns : {s s' : Inhibitor} → Step s s' → Owns s → Owns s'
Step-Owns (init surface e) o = inhibitor_init-Owns surface _ _ _ e o
Step-Owns (toggle seat e) o = inhibitor_toggle-Owns seat _ _ e o
Step-Owns (add allocated seat e) o = inhibitor_add_seat-Owns allocated seat _ _ e o
Step-Owns (remove seat e) o = inhibitor_remove_seat-Owns seat _ _ e o
Step-Owns (event active seat) o = inhibitor_event-Owns active seat _ o

Reach-Owns : {s s' : Inhibitor} → Reach s s' → Owns s → Owns s'
Reach-Owns here o = o
Reach-Owns (next r step) o = Step-Owns step (Reach-Owns r o)

inhibitor_destroy-counts :
    (j : ℕ) (is : List SeatInhibitor)
    → (creations (inhibitor_destroy is) ≡ 0)
      × (destructions j (inhibitor_destroy is) ≡ total (holds j) is)
unfolding inhibitor_destroy creations destructions total holds
inhibitor_destroy-counts j [] = (refl, refl)
inhibitor_destroy-counts j (i ∷ is) =
    let (c, d) = inhibitor_destroy-counts j is in
    let (c1, d1) = destroys_count j i.inhibitor in
    (
      omega (arith, c, c1, creations-append (destroys i.inhibitor) (inhibitor_destroy is)),
      omega (arith, d, d1, destructions-append j (destroys i.inhibitor) (inhibitor_destroy is)),
    )

new-Owns : Owns inhibitor_new
unfolding inhibitor_new creations destructions total below
new-Owns = record { made = refl; once = λ j. ground arith }

-- Inhibitors are numbered in the order of their creation. Whatever the user and the compositor did,
-- when the struct has been destroyed each inhibitor that was created has been destroyed once, and
-- no other one has been: none is leaked and none destroyed twice over.
pub inhibitor_destroy-balance :
    (s : Inhibitor) (j : ℕ)
    → Reach inhibitor_new s
    → let all = s.requests ++ inhibitor_destroy s.seat_inhibitors in
      destructions j all ≡ (if ltb j (creations all) then 1 else 0)
unfolding below
inhibitor_destroy-balance s j r =
    let (c, d) = inhibitor_destroy-counts j s.seat_inhibitors in
    let o = Reach-Owns r new-Owns in
    let all : creations (s.requests ++ inhibitor_destroy s.seat_inhibitors) ≡ s.created =
      omega (arith, o.made, c, creations-append s.requests (inhibitor_destroy s.seat_inhibitors)) in
    let each : destructions j (s.requests ++ inhibitor_destroy s.seat_inhibitors)
        ≡ below j s.created =
      omega (
        arith,
        o.once j,
        d,
        destructions-append j s.requests (inhibitor_destroy s.seat_inhibitors),
      ) in
    rw all each
