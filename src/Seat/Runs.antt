-- ===== src/Seat/Runs.antt =====
-- Two seats.
use wlvncc.Base.{ℕ, ◌≡◌, ◌≢◌, refl, List, [], ◌∷◌, none, some, arith}
use wlvncc.WlList.{find_first}
use wlvncc.Seat.{
  Seat, name_size, strlcpy, seat_name, seat_find_by_name, seat_find_by_id, registry_remove,
}
use wlvncc.Seat.Finding.{Distinct, seat_find_by_name-seat_name, registry_remove-forgets}

abbrev second : Seat
second = record { wl_seat = 8; id = 21; capabilities = 3; name = 98 ∷ [] }

abbrev first : Seat
first = record { wl_seat = 7; id = 20; capabilities = 3; name = [] }

abbrev seats : List Seat
seats = second ∷ first ∷ []

seat_find_by_name-seat_name_example :
    (t : Seat) × (seat_find_by_name (seat_name 7 (97 ∷ []) seats) (strlcpy (97 ∷ []) name_size)
      ≡ some t)
    × (t.name ≡ strlcpy (97 ∷ []) name_size)
unfolding find_first
seat_find_by_name-seat_name_example = seat_find_by_name-seat_name 7 (97 ∷ []) seats first refl

registry_remove-forgets_example :
    (seat_find_by_id (registry_remove 20 seats) 20 ≡ none)
    × ((other : ℕ)
        → other ≢ 20
        → seat_find_by_id (registry_remove 20 seats) other ≡ seat_find_by_id seats other)
registry_remove-forgets_example =
    registry_remove-forgets 20 seats (unfold Distinct in (((omega arith), tt), (tt, tt)))
