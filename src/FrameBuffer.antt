-- ===== src/FrameBuffer.antt =====
-- src/vncviewer.c: the framebuffer of the client and the procedures that draw in it. A cell is a
-- pixel, at 8, 16 or 32 bits; a write outside the memory is a fault. The cells are numbered by an int:
-- a framebuffer has fewer than 2^31 of them.
pub mod Filling
pub mod Moving
pub mod Runs
use wlvncc.Base.{
  ℕ, zero, suc, ◌+◌, ◌-◌, ◌*◌, Bool, true, false, not, ◌&&◌, List, Option, none, some, ltb, leb,
  ◌==◌, if◌then◌else◌, Outcome, done, fault, endless, ◌>>=◌,
}

-- The pixels row by row: that of column x in row y is number y * width + x.
pub record FrameBuffer : Type 0 where
  pub width : ℕ
  pub height : ℕ
  pub cells : ℕ → ℕ

unfoldable pub put : ℕ → ℕ → FrameBuffer → Outcome FrameBuffer
put k v fb =
    if ltb k (fb.width * fb.height)
    then done (record fb { cells = λ i. if i == k then v else fb.cells i })
    else fault

unfoldable pub check_rect : ℕ → ℕ → ℕ → ℕ → FrameBuffer → Bool
check_rect x y w h fb = leb (x + w) fb.width && leb (y + h) fb.height

-- `n` cells from number `k` on, where the value of each is told by its place in the run.
unfoldable pub put_run : ℕ → ℕ → (ℕ → ℕ) → FrameBuffer → Outcome FrameBuffer
unfolding put
put_run zero k value fb = done fb
put_run (suc n) k value fb =
    put k (value 0) fb >>= λ fb'. put_run n (suc k) (λ i. value (suc i)) fb'

-- `h` rows of `w` cells, the first from number `k` on. Where the width is 0 the loops of the source
-- make no round and those here make rounds of no cells.
unfoldable pub put_rows : ℕ → ℕ → ℕ → (ℕ → ℕ → ℕ) → FrameBuffer → Outcome FrameBuffer
unfolding put_run
put_rows zero w k value fb = done fb
put_rows (suc h) w k value fb =
    put_run w k (value 0) fb >>= λ fb'. put_rows h w (k + fb.width) (λ j. value (suc j)) fb'

-- GotFillRect. `none` where there is no framebuffer.
unfoldable pub fill_rectangle :
    ℕ → ℕ → ℕ → ℕ → ℕ → Option FrameBuffer → Outcome (Option FrameBuffer)
unfolding check_rect put_rows
fill_rectangle x y w h colour none = done none
fill_rectangle x y w h colour (some fb) =
    if check_rect x y w h fb
    then (put_rows h w (y * fb.width + x) (λ j i. colour) fb >>= λ fb'. done (some fb'))
    else done (some fb)

-- GotBitmap: the pixels of `buffer` row by row.
unfoldable pub copy_rectangle :
    (ℕ → ℕ) → ℕ → ℕ → ℕ → ℕ → Option FrameBuffer → Outcome (Option FrameBuffer)
unfolding check_rect put_rows
copy_rectangle buffer x y w h none = done none
copy_rectangle buffer x y w h (some fb) =
    if check_rect x y w h fb
    then (put_rows h w (y * fb.width + x) (λ j i. buffer (j * w + i)) fb >>= λ fb'. done (some fb'))
    else done (some fb)

-- From the first column to the last, and from the last to the first: each cell is read when it is
-- moved.
unfoldable pub move_up : ℕ → ℕ → ℕ → FrameBuffer → Outcome FrameBuffer
unfolding put
move_up zero dest src fb = done fb
move_up (suc n) dest src fb =
    put dest (fb.cells src) fb >>= λ fb'. move_up n (suc dest) (suc src) fb'

unfoldable pub move_down : ℕ → ℕ → ℕ → FrameBuffer → Outcome FrameBuffer
unfolding put
move_down zero dest src fb = done fb
move_down (suc n) dest src fb =
    put (dest + n) (fb.cells (src + n)) fb >>= λ fb'. move_down n dest src fb'

unfoldable pub move_row : Bool → ℕ → ℕ → ℕ → FrameBuffer → Outcome FrameBuffer
unfolding move_up move_down
move_row true n dest src fb = move_up n dest src fb
move_row false n dest src fb = move_down n dest src fb

-- The rows likewise.
unfoldable pub move_rows_up : ℕ → Bool → ℕ → ℕ → ℕ → FrameBuffer → Outcome FrameBuffer
unfolding move_row
move_rows_up zero up w dest src fb = done fb
move_rows_up (suc h) up w dest src fb =
    move_row up w dest src fb >>= λ fb'. move_rows_up h up w (dest + fb.width) (src + fb.width) fb'

unfoldable pub move_rows_down : ℕ → Bool → ℕ → ℕ → ℕ → FrameBuffer → Outcome FrameBuffer
unfolding move_row
move_rows_down zero up w dest src fb = done fb
move_rows_down (suc h) up w dest src fb =
    move_row up w (dest + h * fb.width) (src + h * fb.width) fb >>= λ fb'.
    move_rows_down h up w dest src fb'

-- GotCopyRect. The loop that goes up row by row subtracts the width from the number of a row's first
-- cell, and does not end where the width is 0.
unfoldable pub copy_rectangle_from_rectangle :
    ℕ → ℕ → ℕ → ℕ → ℕ → ℕ → Option FrameBuffer → Outcome (Option FrameBuffer)
unfolding check_rect move_rows_up move_rows_down
copy_rectangle_from_rectangle src_x src_y w h dest_x dest_y none = done none
copy_rectangle_from_rectangle src_x src_y w h dest_x dest_y (some fb) =
    if not (check_rect src_x src_y w h fb && check_rect dest_x dest_y w h fb)
    then done (some fb)
    else (let dest = dest_y * fb.width + dest_x in
        let src = src_y * fb.width + src_x in
        let up = ltb dest_x src_x in
        let moved =
          if ltb dest_y src_y
          then move_rows_up h up w dest src fb
          else if fb.width == 0
          then endless
          else move_rows_down h up w dest src fb in
        moved >>= λ fb'. done (some fb'))
