-- ===== src/FrameBuffer/Runs.antt =====
-- Drawing in a framebuffer of four by three (src/vncviewer.c).
use wlvncc.Base.{
  ℕ, ◌+◌, ◌-◌, ◌≡◌, refl, ◌&&◌, List, [], ◌∷◌, Option, none, some, if◌then◌else◌, Outcome, done,
  ◌>>=◌, arith,
}
use wlvncc.FrameBuffer.{
  FrameBuffer, check_rect, fill_rectangle, copy_rectangle, copy_rectangle_from_rectangle,
}
use wlvncc.FrameBuffer.Filling.{in_rect, pixel}
use wlvncc.FrameBuffer.Moving.{copy_rectangle_from_rectangle_lem}

-- Each cell holds its number.
abbrev numbers : FrameBuffer
numbers = record { width = 4; height = 3; cells = λ i. i }

abbrev cells_of : Option FrameBuffer → List ℕ
cells_of none = []
cells_of (some fb) =
    fb.cells 0
    ∷ fb.cells 1
    ∷ fb.cells 2
    ∷ fb.cells 3
    ∷ fb.cells 4
    ∷ fb.cells 5
    ∷ fb.cells 6
    ∷ fb.cells 7
    ∷ fb.cells 8
    ∷ fb.cells 9
    ∷ fb.cells 10
    ∷ fb.cells 11
    ∷ []

abbrev show_cells : Outcome (Option FrameBuffer) → Outcome (List ℕ)
show_cells o = o >>= λ f. done (cells_of f)

fill_runs :
    show_cells (fill_rectangle 1 1 2 2 70 (some numbers))
    ≡ done (0 ∷ 1 ∷ 2 ∷ 3 ∷ 4 ∷ 70 ∷ 70 ∷ 7 ∷ 8 ∷ 70 ∷ 70 ∷ 11 ∷ [])
unfolding fill_rectangle
fill_runs = refl

too_large_runs :
    show_cells (fill_rectangle 3 1 2 2 70 (some numbers))
    ≡ done (0 ∷ 1 ∷ 2 ∷ 3 ∷ 4 ∷ 5 ∷ 6 ∷ 7 ∷ 8 ∷ 9 ∷ 10 ∷ 11 ∷ [])
unfolding fill_rectangle
too_large_runs = refl

copy_runs :
    show_cells (copy_rectangle (λ i. 20 + i) 2 0 2 3 (some numbers))
    ≡ done (0 ∷ 1 ∷ 20 ∷ 21 ∷ 4 ∷ 5 ∷ 22 ∷ 23 ∷ 8 ∷ 9 ∷ 24 ∷ 25 ∷ [])
unfolding copy_rectangle
copy_runs = refl

-- The two rectangles overlap, in each of the directions.
move_runs :
    show_cells (copy_rectangle_from_rectangle 0 0 3 2 1 1 (some numbers))
    ≡ done (0 ∷ 1 ∷ 2 ∷ 3 ∷ 4 ∷ 0 ∷ 1 ∷ 2 ∷ 8 ∷ 4 ∷ 5 ∷ 6 ∷ [])
unfolding copy_rectangle_from_rectangle
move_runs = refl

move_left_runs :
    show_cells (copy_rectangle_from_rectangle 1 1 3 1 0 1 (some numbers))
    ≡ done (0 ∷ 1 ∷ 2 ∷ 3 ∷ 5 ∷ 6 ∷ 7 ∷ 7 ∷ 8 ∷ 9 ∷ 10 ∷ 11 ∷ [])
unfolding copy_rectangle_from_rectangle
move_left_runs = refl

copy_rectangle_from_rectangle_lem_example :
    (fb' : FrameBuffer) × (copy_rectangle_from_rectangle 0 0 3 2 1 1 (some numbers)
      ≡ done (some fb'))
    × (pixel fb' 2 1 ≡ (
        if (check_rect 0 0 3 2 numbers && check_rect 1 1 3 2 numbers) && in_rect 1 1 3 2 2 1
        then pixel numbers (0 + (2 - 1)) (0 + (1 - 1))
        else pixel numbers 2 1))
copy_rectangle_from_rectangle_lem_example =
    copy_rectangle_from_rectangle_lem 0 0 3 2 1 1 2 1 numbers (omega arith)
