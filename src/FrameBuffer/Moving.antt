-- ===== src/FrameBuffer/Moving.antt =====
-- Copying a rectangle of the framebuffer over another one that it may overlap (src/vncviewer.c).
pub mod Cells
pub mod Rows
use wlvncc.Base.{
  ℕ, zero, suc, ◌+◌, ◌-◌, ◌*◌, ◌≤◌, ◌<◌, ◌≡◌, refl, sym, ap, subst, ◌≢◌, ◌∙◌, ◌⊎◌, Bool, true,
  false, not, ◌&&◌, Option, some, ltb, ltb→lt, leb, if◌then◌else◌, both_true, Bool-cases, inl, inr,
  Outcome, done, endless, ◌==◌, ◌>>=◌, arith,
}
use wlvncc.FrameBuffer.{
  FrameBuffer, put, check_rect, move_up, move_down, move_row, move_rows_up, move_rows_down,
  copy_rectangle_from_rectangle,
}
use wlvncc.FrameBuffer.Filling.{
  Run, Run-suc, Holds, Holds-suc, Holds-pixel, written, put-written, cells-written_self,
  cells-written_other, Room, Room-next, check_rect-Room, in_rect, pixel, row_of, check_rect-across,
  suc-mul, zero-mul,
}
use wlvncc.FrameBuffer.Moving.Cells.{
  Run-suc_last, Run-of, up_next, down_next, move_up-Run, move_down-Run, Directed-shift,
  move_row-Run, Upward, Downward, Directed,
}
use wlvncc.FrameBuffer.Moving.Rows.{
  Holds-of, Holds-suc_last, up_rows, move_rows_up-Holds, Room-before, down_rows,
  move_rows_down-Holds, spread, rows_apart,
}

-- How the two rectangles lie, in numbers of cells.
module _ (n sx sy w dx dy : ℕ) (src_fits : sx + w ≤ n) (dest_fits : dx + w ≤ n) where
  below : dy < sy → dy * n + dx + w ≤ sy * n + sx
  below lt = omega (arith, dest_fits, rows_apart dy sy n lt)

  above : sy < dy → sy * n + sx + w ≤ dy * n + dx
  above lt = omega (arith, src_fits, rows_apart sy dy n lt)

  Directed-up : (dy < sy) → Directed (ltb dx sx) w (dy * n + dx) (sy * n + sx)
  Directed-up lt = elim (Bool-cases (ltb dx sx)) [
    | inl left ↦ rw left (inl (omega (arith, below lt)))
    | inr right ↦ rw right (inr (below lt))
  ]

  Directed-down : sy ≤ dy → Directed (ltb dx sx) w (dy * n + dx) (sy * n + sx)
  Directed-down le = elim (Bool-cases (ltb sy dy)) [
    | inl lower ↦
        let lt : sy < dy = ground (arith, lower) in
        elim (Bool-cases (ltb dx sx)) [
          | inl left ↦ rw left (inr (above lt))
          | inr right ↦ rw right (inl (omega (arith, above lt)))
        ]
    | inr level ↦
        let e : sy ≡ dy = ground (arith, level, le) in
        elim (Bool-cases (ltb dx sx)) [
          | inl left ↦ rw left (inl (omega (arith, ap (λ t. t * n) e, ltb→lt dx sx left)))
          | inr right ↦
              let across : sx ≤ dx = ground (arith, right) in
              rw right (inl (omega (arith, ap (λ t. t * n) e, across)))
        ]
  ]

  level_or_above : sy ≤ dy → sy * n + sx + w ≤ dy * n + dx + n
  level_or_above le = elim (Bool-cases (ltb sy dy)) [
    | inl lower ↦ omega (arith, above (ltb→lt sy dy lower))
    | inr level ↦
        let e : sy ≡ dy = ground (arith, level, le) in omega (arith, ap (λ t. t * n) e, src_fits)
  ]

-- Both rectangles are within the framebuffer: the moves, in either order of the rows.
pub moved :
    (sx sy w h dx dy : ℕ) (fb : FrameBuffer)
    → check_rect sx sy w h fb ≡ true
    → check_rect dx dy w h fb ≡ true
    → 0 < fb.width
    → (fb' : FrameBuffer) × ((if ltb dy sy
          then move_rows_up h (ltb dx sx) w (dy * fb.width + dx) (sy * fb.width + sx) fb
          else if fb.width == 0
          then endless
          else move_rows_down h (ltb dx sx) w (dy * fb.width + dx) (sy * fb.width + sx) fb)
        ≡ done fb')
      × Holds h w
          (dy * fb.width + dx)
          (λ j i. fb.cells (sy * fb.width + sx + j * fb.width + i))
          fb
          fb'
moved sx sy w h dx dy fb es ed wide =
    let src_fits = check_rect-across sx sy w h fb es in
    let dest_fits = check_rect-across dx dy w h fb ed in
    let room = check_rect-Room dx dy w h fb ed in
    elim (Bool-cases (ltb dy sy)) [
      | inl lower ↦
          let lt = ltb→lt dy sy lower in
          rw lower (
            move_rows_up-Holds h (ltb dx sx) w (dy * fb.width + dx) (sy * fb.width + sx) fb
              (Directed-up fb.width sx sy w dx dy src_fits dest_fits lt)
              (omega (arith, below fb.width sx sy w dx dy src_fits dest_fits lt)) room)
      | inr higher ↦
          let le : sy ≤ dy = ground (arith, higher) in
          let columns : (fb.width == 0) ≡ false = ground (arith, wide) in
          rw (higher, columns)
            (move_rows_down-Holds h (ltb dx sx) w (dy * fb.width + dx) (sy * fb.width + sx) fb
              (Directed-down fb.width sx sy w dx dy src_fits dest_fits le)
              (level_or_above fb.width sx sy w dx dy src_fits dest_fits le) room)
    ]

-- Copying within the framebuffer never writes outside the memory, and gives what a copy through a
-- second framebuffer would: where both rectangles are within it, each pixel of the destination
-- becomes what the pixel of the source was before, however the two overlap, and every other pixel is
-- kept; where one of them is not, nothing changes.
pub copy_rectangle_from_rectangle_lem :
    (sx sy w h dx dy px py : ℕ) (fb : FrameBuffer)
    → px < fb.width
    → (fb' : FrameBuffer) × (copy_rectangle_from_rectangle sx sy w h dx dy (some fb)
        ≡ done (some fb'))
      × (pixel fb' px py ≡ (
          if (check_rect sx sy w h fb && check_rect dx dy w h fb) && in_rect dx dy w h px py
          then pixel fb (sx + (px - dx)) (sy + (py - dy))
          else pixel fb px py))
unfolding copy_rectangle_from_rectangle
copy_rectangle_from_rectangle_lem sx sy w h dx dy px py fb column =
    elim (Bool-cases (check_rect sx sy w h fb && check_rect dx dy w h fb)) [
      | inr too_large ↦ (fb, rw too_large refl, rw too_large refl)
      | inl fits ↦
          let (es, ed) =
            both_true {a = check_rect sx sy w h fb} {b = check_rect dx dy w h fb} fits in
          let (fb', e, s) = moved sx sy w h dx dy fb es ed (omega (arith, column)) in
          (
            fb',
            rw fits (rw e refl),
            rw fits (
                Holds-pixel dx dy w h _ fb fb' px py (check_rect-across dx dy w h fb ed) column s
                ∙ ap (λ v. if in_rect dx dy w h px py then v else pixel fb px py)
                    (unfold pixel in ap fb.cells (row_of sy (py - dy) sx (px - dx) fb.width))),
          )
    ]
