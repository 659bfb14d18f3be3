-- ===== src/Pointer/Mask.antt =====
-- enum pointer_button_mask of include/pointer.h.
use wlvncc.Base.{ℕ}

abbrev pub button_left : ℕ
button_left = 1

abbrev pub button_middle : ℕ
button_middle = 2

abbrev pub button_right : ℕ
button_right = 4

abbrev pub scroll_up : ℕ
scroll_up = 8

abbrev pub scroll_down : ℕ
scroll_down = 16

abbrev pub scroll_left : ℕ
scroll_left = 32

abbrev pub scroll_right : ℕ
scroll_right = 64
