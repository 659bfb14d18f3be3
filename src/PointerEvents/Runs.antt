-- ===== src/PointerEvents/Runs.antt =====
-- Concrete runs of on_pointer_event.
use wlvncc.Base.{◌≡◌, refl, [], ◌∷◌, map, length, arith}
use wlvncc.Base.Int.{pos, negsuc}
use wlvncc.PointerEvents.{on_pointer_event}
use wlvncc.PointerEvents.Steps.{count_bit, on_pointer_event-counts}
use wlvncc.Base.Masks.{clear_bits}

-- Two steps up and one to the right, with the left button held.
diagonal :
    map (λ m. m.button_mask) (on_pointer_event (pos 5) (pos 7) 1 (negsuc 1) (pos 1))
    ≡ 73 ∷ 1 ∷ 9 ∷ 1 ∷ []
unfolding on_pointer_event clear_bits
diagonal = refl

on_pointer_event-counts_example :
    (count_bit 8 (on_pointer_event (pos 5) (pos 7) 1 (negsuc 1) (pos 1)) ≡ 2)
    × (count_bit 16 (on_pointer_event (pos 5) (pos 7) 1 (negsuc 1) (pos 1)) ≡ 0)
    × (count_bit 32 (on_pointer_event (pos 5) (pos 7) 1 (negsuc 1) (pos 1)) ≡ 0)
    × (count_bit 64 (on_pointer_event (pos 5) (pos 7) 1 (negsuc 1) (pos 1)) ≡ 1)
    × (length (on_pointer_event (pos 5) (pos 7) 1 (negsuc 1) (pos 1)) ≡ 4)
on_pointer_event-counts_example =
    on_pointer_event-counts (pos 5) (pos 7) 1 (negsuc 1) (pos 1) (omega arith)
