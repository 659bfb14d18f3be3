-- ===== src/Output.antt =====
-- src/output.c, include/output.h: the outputs of the compositor and the largest scale among those
-- that show the window; src/main.c wl_surface_enter and wl_surface_leave, which say which do.
pub mod Scale
pub mod Runs
use wlvncc.Base.{
  ℕ, zero, suc, Bool, true, false, ◌&&◌, List, [], ◌∷◌, ◌++◌, Option, none, some, ◌==◌,
  if◌then◌else◌, Outcome, done, ◌>>=◌, assert_found,
}
use wlvncc.Base.Int.{ℤ, pos, negsuc, ltb_ℤ}
use wlvncc.WlList.{find_first, update_first}

pub record Output : Type 0 where
  pub wl_output : ℕ
  pub id : ℕ
  pub scale : ℤ
  pub has_surface : Bool

-- calloc leaves the scale 0 until the compositor sends it. The Boolean says whether it succeeds.
unfoldable pub output_new : Bool → ℕ → ℕ → Option Output
output_new false wl_output id = none
output_new true wl_output id =
    some (record { wl_output = wl_output; id = id; scale = pos 0; has_surface = false })

-- registry_add for a wl_output: the newest output stands first.
unfoldable pub add_output : Bool → ℕ → ℕ → List Output → List Output
unfolding output_new
add_output allocated wl_output id os = elim (output_new allocated wl_output id) [
  | none ↦ os
  | some o ↦ o ∷ os
]

unfoldable pub output_handle_scale : ℕ → ℤ → List Output → List Output
output_handle_scale wl_output factor =
    update_first (λ o. o.wl_output == wl_output) (λ o. record o { scale = factor })

unfoldable pub output_find_by_id : List Output → ℕ → Option Output
output_find_by_id os id = find_first (λ o. o.id == id) os

unfoldable pub output_find_by_wl_output : List Output → ℕ → Option Output
output_find_by_wl_output os wl_output = find_first (λ o. o.wl_output == wl_output) os

abbrev pub counts : Output → ℤ → Bool
counts o scale = o.has_surface && ltb_ℤ scale o.scale

-- The loop, from the largest scale so far.
unfoldable pub max_scale_loop : List Output → ℤ → ℤ
max_scale_loop [] scale = scale
max_scale_loop (o ∷ os) scale = max_scale_loop os (if counts o scale then o.scale else scale)

unfoldable pub output_list_get_max_scale : List Output → ℤ
unfolding max_scale_loop
output_list_get_max_scale os = max_scale_loop os (pos 1)

-- The preferred scale is 0 until the compositor sends one, which then counts alone.
unfoldable pub window_get_scale : ℤ → List Output → ℤ
unfolding output_list_get_max_scale
window_get_scale (pos zero) os = output_list_get_max_scale os
window_get_scale (pos (suc n)) os = pos (suc n)
window_get_scale (negsuc n) os = negsuc n

-- wl_surface_enter and wl_surface_leave up to their call of window_resize.
unfoldable pub mark_surface : Bool → ℕ → List Output → Outcome (List Output)
unfolding output_find_by_wl_output
mark_surface has wl_output os = do
  o ← assert_found (output_find_by_wl_output os wl_output)
  done (update_first (λ o. o.wl_output == wl_output) (λ o. record o { has_surface = has }) os)

-- The proxies that output_list_destroy destroys, in order.
unfoldable pub output_list_destroy : List Output → List ℕ
output_list_destroy [] = []
output_list_destroy (o ∷ os) = o.wl_output ∷ output_list_destroy os
