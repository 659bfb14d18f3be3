-- ===== src/Inhibitor/Runs.antt =====
-- A run of two seats: the surface comes, and the first seat's shortcuts are toggled twice.
use wlvncc.Base.{
  ℕ, ◌≡◌, ◌≢◌, refl, true, false, [], ◌∷◌, ◌++◌, none, some, done, ltb, if◌then◌else◌,
}
use wlvncc.WlList.{find_first, update_first}
use wlvncc.Inhibitor.{
  Inhibitor, inhibit_shortcuts, destroy, find_by_seat, is_inhibited, inhibitor_new,
  inhibitor_toggle, inhibitor_add_seat, inhibitor_init, inhibitor_event, inhibitor_destroy,
}
use wlvncc.Inhibitor.Toggling.{toggled, inhibitor_toggle_lem}
use wlvncc.Inhibitor.Owning.{creations, destructions}
use wlvncc.Inhibitor.Balance.{add, init, event, toggle, here, next, inhibitor_destroy-balance}

-- Two seats, of which the first is inhibited and active.
abbrev two_seats : Inhibitor
two_seats = record {
  surface = some 7;
  seat_inhibitors =
      record { seat = 2; active = false; inhibitor = some 1 }
      ∷ record { seat = 1; active = true; inhibitor = some 0 }
      ∷ [];
  created = 2;
  requests = [];
}

inhibitor_toggle_lem_example :
    (s' : Inhibitor) × (inhibitor_toggle 1 two_seats ≡ done s')
    × (is_inhibited s' 1 ≡ done (toggled (record { seat = 1; active = true; inhibitor = some 0 })))
    × ((t : ℕ)
        → t ≢ 1
        → find_by_seat s'.seat_inhibitors t ≡ find_by_seat two_seats.seat_inhibitors t)
unfolding find_by_seat find_first
inhibitor_toggle_lem_example =
    inhibitor_toggle_lem two_seats 1 (record { seat = 1; active = true; inhibitor = some 0 }) refl

-- A seat comes, then the surface, the compositor answers, and F12 is released.
abbrev ended : Inhibitor
ended = record {
  surface = some 7;
  seat_inhibitors = record { seat = 1; active = true; inhibitor = none } ∷ [];
  created = 1;
  requests = inhibit_shortcuts (some 7) 1 ∷ destroy 0 ∷ [];
}

inhibitor_destroy-balance_example :
    destructions 0 (ended.requests ++ inhibitor_destroy ended.seat_inhibitors) ≡ (
      if ltb 0 (creations (ended.requests ++ inhibitor_destroy ended.seat_inhibitors))
      then 1
      else 0)
unfolding inhibitor_new inhibitor_add_seat find_by_seat find_first inhibitor_init inhibitor_event
    inhibitor_toggle update_first
inhibitor_destroy-balance_example = inhibitor_destroy-balance ended 0 (
    next (next (next (next here (add true 1 refl)) (init {b = true} 7 refl)) (event true 1))
      (toggle 1 refl))
