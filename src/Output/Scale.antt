-- ===== src/Output/Scale.antt =====
-- The scale that the window takes from the outputs.
use wlvncc.Base.{
  ℕ, zero, suc, ◌≡◌, ◌≢◌, refl, sym, subst, true, List, [], ◌∷◌, some, ◌==◌, if◌then◌else◌, done,
  ◌⊎◌, inl, inr, get_elem?, Bool-cases, both_true, arith,
}
use wlvncc.Base.Int.{ℤ, pos, negsuc, ltb_ℤ, ◌≤ℤ◌}
use wlvncc.WlList.{update_first, get_elem?-update_first}
use wlvncc.Output.{
  Output, counts, max_scale_loop, output_list_get_max_scale, mark_surface, output_find_by_wl_output,
  window_get_scale,
}

-- The scale of an output that shows the window.
pub ScaleOf : List Output → ℤ → Type 0
ScaleOf os s =
    (i : ℕ) × (o : Output) × (get_elem? os i ≡ some o) × (o.has_surface ≡ true) × (o.scale ≡ s)

later : (o : Output) (os : List Output) (s : ℤ) → ScaleOf os s → ScaleOf (o ∷ os) s
unfolding ScaleOf
later o os s (i, p, e, shows, same) = (suc i, p, e, shows, same)

max_scale_loop-start : (os : List Output) (start : ℤ) → start ≤ℤ max_scale_loop os start
unfolding max_scale_loop
max_scale_loop-start [] start = omega arith
max_scale_loop-start (o ∷ os) start = elim (Bool-cases (counts o start)) [
  | inl more ↦ rw more (
      let above = max_scale_loop-start os o.scale in
      let both = both_true {a = o.has_surface} {b = ltb_ℤ start o.scale} more in
      ground (arith, above, both.1))
  | inr less ↦ rw less (max_scale_loop-start os start)
]

max_scale_loop-covers :
    (os : List Output) (start : ℤ) (i : ℕ) (o : Output)
    → get_elem? os i ≡ some o
    → o.has_surface ≡ true
    → o.scale ≤ℤ max_scale_loop os start
unfolding max_scale_loop
max_scale_loop-covers [] start i o e shows = cc
max_scale_loop-covers (p ∷ os) start (suc i) o e shows =
    max_scale_loop-covers os (if counts p start then p.scale else start) i o e shows
max_scale_loop-covers (p ∷ os) start zero o e shows =
    let same : p ≡ o = cc in
    subst (λ (q : Output). q.scale ≤ℤ max_scale_loop (p ∷ os) start) same
      (first (subst (λ (q : Output). q.has_surface ≡ true) (sym same) shows))
  where
    first : p.has_surface ≡ true → p.scale ≤ℤ max_scale_loop (p ∷ os) start
    first shown = elim (Bool-cases (counts p start)) [
      | inl more ↦ rw more (max_scale_loop-start os p.scale)
      | inr less ↦
          rw less (let above = max_scale_loop-start os start in ground (arith, above, less, shown))
    ]

max_scale_loop-attained :
    (os : List Output) (start : ℤ)
    → (max_scale_loop os start ≡ start) ⊎ ScaleOf os (max_scale_loop os start)
unfolding max_scale_loop
max_scale_loop-attained [] start = inl refl
max_scale_loop-attained (o ∷ os) start = elim (Bool-cases (counts o start)) [
  | inl more ↦ rw more (elim (max_scale_loop-attained os o.scale) [
    | inl same ↦ inr (
        unfold ScaleOf in
        (0, o, refl, (both_true {a = o.has_surface} {b = ltb_ℤ start o.scale} more).0, sym same))
    | inr found ↦ inr (later o os _ found)
  ])
  | inr less ↦ rw less (elim (max_scale_loop-attained os start) [
    | inl same ↦ inl same
    | inr found ↦ inr (later o os _ found)
  ])
]

-- The scale is at least 1 and at least that of every output that shows the window, and it is 1 or
-- the scale of such an output: it is the largest of them.
pub output_list_get_max_scale_lem :
    (os : List Output)
    → (pos 1 ≤ℤ output_list_get_max_scale os)
      × ((i : ℕ) (o : Output)
          → get_elem? os i ≡ some o
          → o.has_surface ≡ true
          → o.scale ≤ℤ output_list_get_max_scale os)
      × ((output_list_get_max_scale os ≡ pos 1) ⊎ ScaleOf os (output_list_get_max_scale os))
unfolding output_list_get_max_scale
output_list_get_max_scale_lem os = (
  max_scale_loop-start os (pos 1),
  max_scale_loop-covers os (pos 1),
  max_scale_loop-attained os (pos 1),
)

window_get_scale-above :
    (preferred s : ℤ) (os : List Output)
    → s ≤ℤ output_list_get_max_scale os
    → (preferred ≡ pos 0 → s ≤ℤ window_get_scale preferred os)
      × (preferred ≢ pos 0 → window_get_scale preferred os ≡ preferred)
unfolding window_get_scale output_list_get_max_scale
window_get_scale-above (pos zero) s os h = (λ e. h, λ e. absurd (e refl))
window_get_scale-above (pos (suc n)) s os h = (λ e. cc, λ e. refl)
window_get_scale-above (negsuc n) s os h = (λ e. cc, λ e. refl)

-- When the window enters an output that is known, the call goes through. After it the scale that
-- the window takes is at least that output's while the compositor prefers no scale, and the
-- preferred one if it prefers one.
pub mark_surface-scale :
    (preferred : ℤ) (wl_output : ℕ) (os : List Output) (o : Output)
    → output_find_by_wl_output os wl_output ≡ some o
    → (os' : List Output) × (mark_surface true wl_output os ≡ done os')
      × (preferred ≡ pos 0 → o.scale ≤ℤ window_get_scale preferred os')
      × (preferred ≢ pos 0 → window_get_scale preferred os' ≡ preferred)
unfolding mark_surface output_find_by_wl_output output_list_get_max_scale
mark_surface-scale preferred wl_output os o e =
    let (i, there) =
      get_elem?-update_first (λ q. q.wl_output == wl_output) (λ q. record q { has_surface = true })
        os e in
    let os' =
      update_first (λ q. q.wl_output == wl_output) (λ q. record q { has_surface = true }) os in
    let above = max_scale_loop-covers os' (pos 1) i (record o { has_surface = true }) there refl in
    let now = window_get_scale-above preferred o.scale os' above in (os', rw e refl, now.0, now.1)
