-- ===== src/Seat.antt =====
-- src/seat.c, include/seat.h: the seats of the compositor; src/main.c registry_add and
-- registry_remove as far as they go about seats.
pub mod Finding
pub mod Runs
use wlvncc.Base.{
  ℕ, zero, suc, ◌-◌, Bool, true, false, ◌&&◌, List, [], ◌∷◌, ◌++◌, Option, none, some, ◌==◌,
  if◌then◌else◌,
}
use wlvncc.WlList.{find_first, update_first, remove_first}

-- sizeof(self->name).
abbrev pub name_size : ℕ
name_size = 256

pub record Seat : Type 0 where
  pub wl_seat : ℕ
  pub id : ℕ
  pub capabilities : ℕ
  -- The characters before the terminating null.
  pub name : List ℕ

unfoldable pub seat_new : Bool → ℕ → ℕ → Option Seat
seat_new false wl_seat id = none
seat_new true wl_seat id = some (record { wl_seat = wl_seat; id = id; capabilities = 0; name = [] })

abbrev pub take : ℕ → List ℕ → List ℕ
take zero cs = []
take (suc n) [] = []
take (suc n) (c ∷ cs) = c ∷ take n cs

-- strlcpy(dst, src, size) for a size that is not 0: at most size - 1 characters and the null.
abbrev pub strlcpy : List ℕ → ℕ → List ℕ
strlcpy src size = take (size - 1) src

-- The events of one seat, which the listener is given by its pointer: here by its proxy.
unfoldable pub seat_name : ℕ → List ℕ → List Seat → List Seat
seat_name wl_seat name =
    update_first (λ s. s.wl_seat == wl_seat) (λ s. record s { name = strlcpy name name_size })

unfoldable pub seat_capabilities : ℕ → ℕ → List Seat → List Seat
seat_capabilities wl_seat capabilities =
    update_first (λ s. s.wl_seat == wl_seat) (λ s. record s { capabilities = capabilities })

-- strcmp(a, b) == 0.
abbrev pub equal : List ℕ → List ℕ → Bool
equal [] [] = true
equal [] (d ∷ ds) = false
equal (c ∷ cs) [] = false
equal (c ∷ cs) (d ∷ ds) = c == d && equal cs ds

unfoldable pub seat_find_by_name : List Seat → List ℕ → Option Seat
seat_find_by_name ss name = find_first (λ s. equal s.name name) ss

unfoldable pub seat_find_by_id : List Seat → ℕ → Option Seat
seat_find_by_id ss id = find_first (λ s. s.id == id) ss

unfoldable pub seat_first : List Seat → Option Seat
seat_first [] = none
seat_first (s ∷ ss) = some s

-- registry_add for a wl_seat, and registry_remove.
unfoldable pub add_seat : Bool → ℕ → ℕ → List Seat → List Seat
unfolding seat_new
add_seat allocated wl_seat id ss = elim (seat_new allocated wl_seat id) [
  | none ↦ ss
  | some s ↦ s ∷ ss
]

unfoldable pub registry_remove : ℕ → List Seat → List Seat
unfolding seat_find_by_id
registry_remove id ss = elim (seat_find_by_id ss id) [
  | none ↦ ss
  | some _ ↦ remove_first (λ s. s.id == id) ss
]

-- The proxies that seat_list_destroy destroys, in order.
unfoldable pub seat_list_destroy : List Seat → List ℕ
seat_list_destroy [] = []
seat_list_destroy (s ∷ ss) = s.wl_seat ∷ seat_list_destroy ss
