-- ===== src/Pointer/Runs.antt =====
-- Concrete runs of pointer.c: one pointer, one surface of the window (1), a theme with one cursor.
use wlvncc.Base.{
  ℕ, if◌then◌else◌, ◌≡◌, ◌<◌, refl, Bool, true, List, [], ◌∷◌, Option, some, ◌==◌, arith, done,
  ◌>>=◌,
}
use wlvncc.Base.Int.{pos, magnitude, ◌+ℤ◌, ◌-ℤ◌, trunc_div, scale}
use wlvncc.Pointer.{
  Pointer, Run, CursorImage, step_size, cursor_left_ptr, pointer_new, button, frame, take_steps,
  clear_steps, enter, leave, axis, add_axis,
}
use wlvncc.Pointer.Buttons.{left, right, bit, code, is_down, button_lem}
use wlvncc.Pointer.Scrolling.{
  pushed, scrolled, framed, feed_all, IsSettled, vertical_total, horizontal_total, vertical_gains,
  horizontal_gains, feed_all-total, frame_residual,
}
use wlvncc.Pointer.Focus.{away, away_unchanged}

abbrev on_window : ℕ → Bool
on_window surface = surface == 1

abbrev theme_cursors : ℕ → Option (List CursorImage)
theme_cursors theme =
    some (record { buffer = 9; hotspot_x = 1; hotspot_y = 2; width = 24; height = 24 } ∷ [])

abbrev start : Run
unfolding pointer_new
start = record { pointer = pointer_new 3 cursor_left_ptr 1 (some 8) 4; frames = []; requests = [] }

-- On the window, with the left button down and 20 units scrolled down.
abbrev held_left : Run
unfolding pointer_new
held_left = record start {
  pointer = record (start.pointer) {
    handle_event = true;
    pressed = 1;
    vertical_axis_value = pos 5120;
  };
}

button_lem_example :
    (r' : Run) × (button 12 (code right) 1 held_left ≡ done r')
    × (is_down r'.pointer left
        ≡ (if bit right == bit left then 1 == 1 else is_down held_left.pointer left))
    × (r'.pressed < 8)
    × (r'.serial ≡ 12)
unfolding pointer_new
button_lem_example = button_lem right left 12 1 held_left refl (omega arith) (omega arith)

-- One step of 3840 is taken from 5120.
abbrev stepped : Pointer
unfolding pointer_new
stepped = record (held_left.pointer) {
  vertical_scroll_steps = pos 1;
  vertical_axis_value = pos 1280;
}

abbrev after_frame : Run
unfolding pointer_new
after_frame = record held_left {
  pointer = record (held_left.pointer) { vertical_axis_value = pos 1280 };
  frames = stepped ∷ [];
}

frame_residual_example :
    (r' : Run) × (frame held_left ≡ done r')
    × (magnitude r'.vertical_axis_value < step_size)
    × (magnitude r'.horizontal_axis_value < step_size)
unfolding pointer_new
frame_residual_example = frame_residual held_left refl

feed_all-total_example :
    (vertical_total after_frame
      ≡ vertical_total held_left
        +ℤ vertical_gains on_window theme_cursors (scrolled 1 (pos 0) ∷ framed ∷ []) held_left)
    × (horizontal_total after_frame
        ≡ horizontal_total held_left
          +ℤ horizontal_gains on_window theme_cursors (scrolled 1 (pos 0) ∷ framed ∷ []) held_left)
    × IsSettled after_frame
unfolding pointer_new feed_all frame axis add_axis take_steps clear_steps ◌-ℤ◌ ◌+ℤ◌ trunc_div scale
feed_all-total_example =
    feed_all-total on_window theme_cursors (scrolled 1 (pos 0) ∷ framed ∷ []) held_left after_frame
      (record { vertical = refl; horizontal = refl }) refl

away_unchanged_example :
    ((enter on_window theme_cursors 5 2 held_left
        >>= feed_all on_window theme_cursors (pushed 6 0x110 0 ∷ framed ∷ []))
      ≡ done (away held_left))
    × ((leave on_window theme_cursors 5 2 held_left
          >>= feed_all on_window theme_cursors (pushed 6 0x110 0 ∷ framed ∷ []))
        ≡ done (away held_left))
away_unchanged_example =
    away_unchanged on_window theme_cursors (pushed 6 0x110 0 ∷ framed ∷ []) 5 2 held_left refl
      (tt, (tt, tt))
