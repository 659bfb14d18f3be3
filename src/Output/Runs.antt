-- ===== src/Output/Runs.antt =====
-- Two outputs, of which the first shows the window.
use wlvncc.Base.{ℕ, ◌≡◌, ◌≢◌, refl, true, false, List, [], ◌∷◌, some, get_elem?, done, ◌⊎◌}
use wlvncc.Base.Int.{pos, ◌≤ℤ◌}
use wlvncc.WlList.{find_first}
use wlvncc.Output.{
  Output, output_list_get_max_scale, mark_surface, output_find_by_wl_output, window_get_scale,
}
use wlvncc.Output.Scale.{ScaleOf, output_list_get_max_scale_lem, mark_surface-scale}

abbrev laptop : Output
laptop = record { wl_output = 4; id = 14; scale = pos 2; has_surface = true }

abbrev screen : Output
screen = record { wl_output = 5; id = 15; scale = pos 3; has_surface = false }

abbrev outputs : List Output
outputs = laptop ∷ screen ∷ []

output_list_get_max_scale-outputs : output_list_get_max_scale outputs ≡ pos 2
unfolding output_list_get_max_scale
output_list_get_max_scale-outputs = refl

output_list_get_max_scale_lem_example :
    (pos 1 ≤ℤ output_list_get_max_scale outputs)
    × ((i : ℕ) (o : Output)
        → get_elem? outputs i ≡ some o
        → o.has_surface ≡ true
        → o.scale ≤ℤ output_list_get_max_scale outputs)
    × ((output_list_get_max_scale outputs ≡ pos 1)
        ⊎ ScaleOf outputs (output_list_get_max_scale outputs))
output_list_get_max_scale_lem_example = output_list_get_max_scale_lem outputs

-- The preferred scale 1 is kept, without one the scale 3 of the output that was entered counts.
window_get_scale-entered :
    (window_get_scale (pos 0) (screen ∷ record screen { has_surface = true } ∷ []) ≡ pos 3)
    × (window_get_scale (pos 1) outputs ≡ pos 1)
unfolding window_get_scale
window_get_scale-entered = (refl, refl)

mark_surface-scale_example :
    (os' : List Output) × (mark_surface true 5 outputs ≡ done os')
    × (pos 0 ≡ pos 0 → pos 3 ≤ℤ window_get_scale (pos 0) os')
    × (pos 0 ≢ pos 0 → window_get_scale (pos 0) os' ≡ pos 0)
unfolding output_find_by_wl_output find_first
mark_surface-scale_example = mark_surface-scale (pos 0) 5 outputs screen refl
