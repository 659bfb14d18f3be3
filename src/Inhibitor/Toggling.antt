-- ===== src/Inhibitor/Toggling.antt =====
-- What F12 does to a seat.
use wlvncc.Base.{
  ℕ, ◌≡◌, ◌≢◌, refl, ◌∙◌, Bool, true, false, not, ◌||◌, List, [], ◌∷◌, Option, none, some, ◌==◌,
  done, Bool-cases, Option-cases, inl, inr, arith,
}
use wlvncc.WlList.{find_first, update_first, find_first-update_first}
use wlvncc.Inhibitor.{
  SeatInhibitor, Inhibitor, is_of, is_some, hold, find_by_seat, is_inhibited, create_for,
  destroy_for, inhibitor_inhibit, release_active, inhibitor_release, inhibitor_toggle,
}

-- Writing one seat's entry leaves the others to be found as they were.
find_other :
    (seat t : ℕ) (f : SeatInhibitor → SeatInhibitor) (is : List SeatInhibitor)
    → ((i : SeatInhibitor) → (f i).seat ≡ i.seat)
    → t ≢ seat
    → find_first (is_of t) (update_first (is_of seat) f is) ≡ find_first (is_of t) is
unfolding find_first update_first
find_other seat t f [] h n = refl
find_other seat t f (i ∷ is) h n = elim (Bool-cases (seat == i.seat)) [
  | inl hit ↦ rw (hit, h i) (ground (arith, n))
  | inr miss ↦ rw (miss, find_other seat t f is h n) refl
]

-- Whether a toggle leaves the seat inhibited: yes where it was not, and where the compositor has
-- not yet said that the inhibitor is active.
pub toggled : SeatInhibitor → Bool
toggled i = not (is_some i.inhibitor) || not i.active

-- The three ways a toggle goes.
toggle-absent :
    (s : Inhibitor) (seat : ℕ) (i : SeatInhibitor)
    → find_first (is_of seat) s.seat_inhibitors ≡ some i
    → i.inhibitor ≡ none
    → inhibitor_toggle seat s ≡ done (create_for s seat)
unfolding inhibitor_toggle is_inhibited find_by_seat inhibitor_inhibit
toggle-absent s seat i e h = rw (e, h) refl

toggle-waiting :
    (s : Inhibitor) (seat : ℕ) (i : SeatInhibitor) (p : ℕ)
    → find_first (is_of seat) s.seat_inhibitors ≡ some i
    → i.inhibitor ≡ some p
    → i.active ≡ false
    → inhibitor_toggle seat s ≡ done s
unfolding inhibitor_toggle is_inhibited find_by_seat inhibitor_release release_active
toggle-waiting s seat i p e h a = rw (e, h, a) refl

toggle-active :
    (s : Inhibitor) (seat : ℕ) (i : SeatInhibitor) (p : ℕ)
    → find_first (is_of seat) s.seat_inhibitors ≡ some i
    → i.inhibitor ≡ some p
    → i.active ≡ true
    → inhibitor_toggle seat s ≡ done (destroy_for s seat p)
unfolding inhibitor_toggle is_inhibited find_by_seat inhibitor_release release_active
toggle-active s seat i p e h a = rw (e, h, a) refl

is_inhibited-found :
    (s : Inhibitor) (seat : ℕ) (i : SeatInhibitor)
    → find_first (is_of seat) s.seat_inhibitors ≡ some i
    → is_inhibited s seat ≡ done (is_some i.inhibitor)
unfolding is_inhibited find_by_seat
is_inhibited-found s seat i e = rw e refl

find_first-hold :
    (is : List SeatInhibitor) (seat : ℕ) (i : SeatInhibitor) (o : Option ℕ)
    → find_first (is_of seat) is ≡ some i
    → find_first (is_of seat) (update_first (is_of seat) (hold o) is) ≡ some (hold o i)
find_first-hold is seat i o e = find_first-update_first (is_of seat) (hold o) is (λ j. refl) e

-- A toggle of a seat that has an entry returns; the seat is then inhibited unless it was and its
-- inhibitor is active, and every other seat's entry is as before.
pub inhibitor_toggle_lem :
    (s : Inhibitor) (seat : ℕ) (i : SeatInhibitor)
    → find_by_seat s.seat_inhibitors seat ≡ some i
    → (s' : Inhibitor) × (inhibitor_toggle seat s ≡ done s')
      × (is_inhibited s' seat ≡ done (toggled i))
      × ((t : ℕ) → t ≢ seat → find_by_seat s'.seat_inhibitors t ≡ find_by_seat s.seat_inhibitors t)
unfolding find_by_seat create_for destroy_for toggled
inhibitor_toggle_lem s seat i e = elim (Option-cases i.inhibitor) [
  | inl absent ↦ (
    create_for s seat,
    toggle-absent s seat i e absent,
    is_inhibited-found (create_for s seat) seat (hold (some s.created) i)
          (find_first-hold s.seat_inhibitors seat i (some s.created) e)
        ∙ rw absent refl,
    λ t n. find_other seat t (hold (some s.created)) s.seat_inhibitors (λ j. refl) n,
  )
  | inr (p, held) ↦ elim (Bool-cases i.active) [
    | inl active ↦ (
      destroy_for s seat p,
      toggle-active s seat i p e held active,
      is_inhibited-found (destroy_for s seat p) seat (hold none i)
            (find_first-hold s.seat_inhibitors seat i none e)
          ∙ rw (held, active) refl,
      λ t n. find_other seat t (hold none) s.seat_inhibitors (λ j. refl) n,
    )
    | inr waiting ↦ (
      s,
      toggle-waiting s seat i p e held waiting,
      is_inhibited-found s seat i e ∙ rw (held, waiting) refl,
      λ t n. refl,
    )
  ]
]
