-- ===== src/Inhibitor.antt =====
-- src/inhibitor.c, include/inhibitor.h: whether the compositor passes its own shortcuts on, seat by
-- seat, and src/main.c on_keyboard_event, whose F12 key toggles it.
pub mod Toggling
pub mod Owning
pub mod Balance
pub mod Runs
use wlvncc.Base.{
  ℕ, zero, suc, ◌+◌, ◌-◌, Bool, true, false, not, List, [], ◌∷◌, ◌++◌, map, Option, none, some,
  ◌==◌, if◌then◌else◌, Outcome, done, aborted, fault, ◌>>=◌, assert_found, deref,
}
use wlvncc.WlList.{find_first, update_first, remove_first, total}

-- Every function but the listener's returns at once on a null inhibitor: with_inhibitor.
-- A seat is named by its pointer, an inhibitor of the compositor by the number of its creation.
pub record SeatInhibitor : Type 0 where
  pub seat : ℕ
  pub active : Bool
  pub inhibitor : Option ℕ

-- The requests: inhibit_shortcuts with the surface (null before inhibitor_init) and the seat, and
-- the destructors.
pub data Request : Type 0 where
  inhibit_shortcuts : Option ℕ → ℕ → Request
  destroy : ℕ → Request
  destroy_manager : Request

pub record Inhibitor : Type 0 where
  pub surface : Option ℕ
  pub seat_inhibitors : List SeatInhibitor
  -- How many inhibitors were created so far, and the requests.
  pub created : ℕ
  pub requests : List Request

unfoldable pub inhibitor_new : Inhibitor
inhibitor_new = record { surface = none; seat_inhibitors = []; created = 0; requests = [] }

abbrev pub is_of : ℕ → SeatInhibitor → Bool
is_of seat i = seat == i.seat

abbrev pub is_some {ℓ} : {A : Type ℓ} → Option A → Bool
is_some none = false
is_some (some a) = true

unfoldable pub find_by_seat : List SeatInhibitor → ℕ → Option SeatInhibitor
find_by_seat is seat = find_first (is_of seat) is

unfoldable pub is_inhibited : Inhibitor → ℕ → Outcome Bool
unfolding find_by_seat
is_inhibited s seat = do
  i ← assert_found (find_by_seat s.seat_inhibitors seat)
  done (is_some i.inhibitor)

abbrev pub hold : Option ℕ → SeatInhibitor → SeatInhibitor
hold inhibitor i = record i { inhibitor = inhibitor }

unfoldable pub create_for : Inhibitor → ℕ → Inhibitor
create_for s seat = record s {
  seat_inhibitors = update_first (is_of seat) (hold (some s.created)) s.seat_inhibitors;
  created = s.created + 1;
  requests = s.requests ++ (inhibit_shortcuts s.surface seat ∷ []);
}

unfoldable pub inhibitor_inhibit : ℕ → Inhibitor → Outcome Inhibitor
unfolding is_inhibited create_for
inhibitor_inhibit seat s = do
  b ← is_inhibited s seat
  if b then done s else done (create_for s seat)

unfoldable pub destroy_for : Inhibitor → ℕ → ℕ → Inhibitor
destroy_for s seat inhibitor = record s {
  seat_inhibitors = update_first (is_of seat) (hold none) s.seat_inhibitors;
  requests = s.requests ++ (destroy inhibitor ∷ []);
}

-- The inhibitor of an entry that has become active is destroyed.
unfoldable pub release_active : Inhibitor → ℕ → SeatInhibitor → Outcome Inhibitor
unfolding destroy_for
release_active s seat i =
    if i.active
    then (deref i.inhibitor >>= λ inhibitor. done (destroy_for s seat inhibitor))
    else done s

unfoldable pub inhibitor_release : ℕ → Inhibitor → Outcome Inhibitor
unfolding is_inhibited find_by_seat release_active
inhibitor_release seat s = do
  b ← is_inhibited s seat
  if b
      then (assert_found (find_by_seat s.seat_inhibitors seat) >>= release_active s seat)
      else done s

unfoldable pub inhibitor_toggle : ℕ → Inhibitor → Outcome Inhibitor
unfolding is_inhibited inhibitor_release inhibitor_inhibit
inhibitor_toggle seat s = do
  b ← is_inhibited s seat
  if b then inhibitor_release seat s else inhibitor_inhibit seat s

unfoldable pub seat_inhibitor_new : ℕ → SeatInhibitor
seat_inhibitor_new seat = record { seat = seat; active = false; inhibitor = none }

unfoldable pub insert_seat : ℕ → Inhibitor → Inhibitor
unfolding seat_inhibitor_new
insert_seat seat s = record s { seat_inhibitors = seat_inhibitor_new seat ∷ s.seat_inhibitors }

-- The Boolean says whether calloc succeeds: its result is linked without a check.
unfoldable pub inhibitor_add_seat : Bool → ℕ → Inhibitor → Outcome Inhibitor
unfolding find_by_seat insert_seat inhibitor_inhibit
inhibitor_add_seat allocated seat s = elim (find_by_seat s.seat_inhibitors seat) [
  | some i ↦ done s
  | none ↦
      if allocated
      then elim s.surface [
        | none ↦ done (insert_seat seat s)
        | some _ ↦ inhibitor_inhibit seat (insert_seat seat s)
      ]
      else fault
]

abbrev pub destroys : Option ℕ → List Request
destroys none = []
destroys (some i) = destroy i ∷ []

unfoldable pub inhibitor_remove_seat : ℕ → Inhibitor → Outcome Inhibitor
unfolding find_by_seat
inhibitor_remove_seat seat s = elim (find_by_seat s.seat_inhibitors seat) [
  | none ↦ done s
  | some i ↦ done (record s {
    seat_inhibitors = remove_first (is_of seat) s.seat_inhibitors;
    requests = s.requests ++ destroys i.inhibitor;
  })
]

unfoldable pub inhibit_all : List SeatInhibitor → Inhibitor → Outcome Inhibitor
unfolding inhibitor_inhibit
inhibit_all [] s = done s
inhibit_all (i ∷ is) s = inhibitor_inhibit i.seat s >>= inhibit_all is

-- The result says whether the surface was taken: the first call alone does that.
unfoldable pub inhibitor_init : ℕ → Inhibitor → Outcome (Inhibitor × Bool)
unfolding inhibit_all
inhibitor_init surface s = elim s.surface [
  | some _ ↦ done (s, false)
  | none ↦ do
    s' ← inhibit_all s.seat_inhibitors (record s { surface = some surface })
    done (s', true)
]

unfoldable pub inhibitor_destroy : List SeatInhibitor → List Request
inhibitor_destroy [] = destroy_manager ∷ []
inhibitor_destroy (i ∷ is) = destroys i.inhibitor ++ inhibitor_destroy is

-- The listener's events: the compositor says whether the inhibitor is in force.
unfoldable pub inhibitor_event : Bool → ℕ → Inhibitor → Inhibitor
inhibitor_event active seat s = record s {
  seat_inhibitors = update_first (is_of seat) (λ i. record i { active = active }) s.seat_inhibitors;
}

-- Without the manager the pointer is null and every call returns.
unfoldable pub with_inhibitor :
    Option Inhibitor → (Inhibitor → Outcome Inhibitor) → Outcome (Option Inhibitor)
with_inhibitor none f = done none
with_inhibitor (some s) f = f s >>= λ s'. done (some s')

-- XKB_KEY_F12.
abbrev pub key_f12 : ℕ
key_f12 = 65481

-- What a key event comes to: F12 is kept and toggles when it is released, every other key is sent
-- to the server with its symbol, its evdev code and its direction.
unfoldable pub on_keyboard_event :
    Option Inhibitor → ℕ → ℕ → ℕ → Bool → Outcome (Option Inhibitor × Option (ℕ × ℕ × Bool))
unfolding with_inhibitor inhibitor_toggle
on_keyboard_event inhibitor seat symbol key is_pressed =
    if symbol == key_f12
    then (if is_pressed
        then done (inhibitor, none)
        else (with_inhibitor inhibitor (inhibitor_toggle seat) >>= λ s. done (s, none)))
    else done (inhibitor, some (symbol, key - 8, is_pressed))
