-- ===== src/Pointer.antt =====
-- src/pointer.c, include/pointer.h: the pointers of the seats. Axis values, doubles in the source,
-- are multiples of 1/256 (they are sums of wl_fixed_t values less multiples of 15) and are counted
-- in that unit, in which STEP_SIZE is 15 * 256.
pub mod Mask
pub mod Buttons
pub mod Scrolling
pub mod Focus
pub mod Runs
use Mask
use Prim.Native.Nat.{bit_or}
use wlvncc.Base.{
  ℕ, zero, suc, ◌*◌, Bool, true, false, List, [], ◌∷◌, ◌++◌, Option, none, some, ◌==◌,
  if◌then◌else◌, Outcome, done, aborted, fault, ◌>>=◌, assert_found, deref,
}
use wlvncc.Base.Int.{ℤ, pos, ◌+ℤ◌, ◌-ℤ◌, trunc_div, scale}
use wlvncc.Base.Masks.{clear_bits}

pub data CursorType : Type 0 where
  cursor_none cursor_left_ptr : CursorType

abbrev pub step_size : ℕ
step_size = 15 * 256

pub record Pointer : Type 0 where
  pub wl_pointer : ℕ
  pub seat : ℕ
  pub serial : ℕ
  pub handle_event : Bool
  pub pressed : ℕ
  pub x : ℤ
  pub y : ℤ
  pub vertical_scroll_steps : ℤ
  pub horizontal_scroll_steps : ℤ
  pub vertical_axis_value : ℤ
  pub horizontal_axis_value : ℤ
  pub cursor_theme : Option ℕ
  pub cursor_surface : ℕ
  pub cursor_type : CursorType

-- What wl_cursor_theme_get_cursor and wl_cursor_image_get_buffer find for an image of a cursor.
pub record CursorImage : Type 0 where
  pub buffer : ℕ
  pub hotspot_x : ℕ
  pub hotspot_y : ℕ
  pub width : ℕ
  pub height : ℕ

-- The requests that a cursor update sends.
pub data Request : Type 0 where
  attach : ℕ → Option ℕ → Request
  set_cursor : ℕ → ℕ → ℕ → ℕ → ℕ → Request
  damage_buffer : ℕ → ℕ → ℕ → Request
  commit : ℕ → Request

-- One pointer, the frames that were passed on (the pointer as on_frame sees it), the requests.
pub record Run : Type 0 where
  pub pointer : Pointer
  pub open pointer use *
  pub frames : List Pointer
  pub requests : List Request

-- Both loads of the theme happen at the creation. `theme` is what wl_cursor_theme_load returns and
-- `surface` what wl_compositor_create_surface returns.
pub pointer_new : ℕ → CursorType → ℕ → Option ℕ → ℕ → Pointer
pointer_new wl_pointer cursor_type seat theme surface = record {
  wl_pointer = wl_pointer;
  seat = seat;
  serial = 0;
  handle_event = false;
  pressed = 0;
  x = pos 0;
  y = pos 0;
  vertical_scroll_steps = pos 0;
  horizontal_scroll_steps = pos 0;
  vertical_axis_value = pos 0;
  horizontal_axis_value = pos 0;
  cursor_theme = elim cursor_type [ cursor_left_ptr ↦ theme | cursor_none ↦ none ];
  cursor_surface = surface;
  cursor_type = cursor_type;
}

-- WL_POINTER_BUTTON_STATE_RELEASED is 0 and WL_POINTER_BUTTON_STATE_PRESSED is 1.
set_button_state : ℕ → Pointer → ℕ → Outcome Pointer
set_button_state button p state =
    if state == 1
    then done (record p { pressed = bit_or p.pressed button })
    else if state == 0
    then done (record p { pressed = clear_bits p.pressed button })
    else aborted

-- BTN_LEFT, BTN_RIGHT and BTN_MIDDLE; other buttons are ignored.
dispatch_button : ℕ → Pointer → ℕ → Outcome Pointer
unfolding set_button_state
dispatch_button button p state =
    if button == 0x110
    then set_button_state Mask.button_left p state
    else if button == 0x111
    then set_button_state Mask.button_right p state
    else if button == 0x112
    then set_button_state Mask.button_middle p state
    else done p

pub motion : ℤ → ℤ → Run → Outcome Run
motion x y r =
    if r.handle_event
    then done (record r { pointer = record (r.pointer) { x = x; y = y } })
    else done r

press : ℕ → ℕ → ℕ → Run → Outcome Run
unfolding dispatch_button
press serial code state r = do
  p ← dispatch_button code (record (r.pointer) { serial = serial }) state
  done (record r { pointer = p })

pub button : ℕ → ℕ → ℕ → Run → Outcome Run
unfolding press
button serial code state r = if r.handle_event then press serial code state r else done r

-- WL_POINTER_AXIS_VERTICAL_SCROLL is 0 and WL_POINTER_AXIS_HORIZONTAL_SCROLL is 1.
add_axis : ℕ → ℤ → Pointer → Pointer
add_axis axis value p =
    if axis == 0
    then record p { vertical_axis_value = p.vertical_axis_value +ℤ value }
    else if axis == 1
    then record p { horizontal_axis_value = p.horizontal_axis_value +ℤ value }
    else p

pub axis : ℕ → ℤ → Run → Outcome Run
unfolding add_axis
axis which value r =
    if r.handle_event then done (record r { pointer = add_axis which value r.pointer }) else done r

-- The whole steps go from the axis values to the step counts.
take_steps : Pointer → Pointer
take_steps p =
    let vertical_steps = trunc_div p.vertical_axis_value step_size in
    let horizontal_steps = trunc_div p.horizontal_axis_value step_size in
    record p {
      vertical_axis_value = p.vertical_axis_value -ℤ scale step_size vertical_steps;
      horizontal_axis_value = p.horizontal_axis_value -ℤ scale step_size horizontal_steps;
      vertical_scroll_steps = p.vertical_scroll_steps +ℤ vertical_steps;
      horizontal_scroll_steps = p.horizontal_scroll_steps +ℤ horizontal_steps;
    }

clear_steps : Pointer → Pointer
clear_steps p = record p { vertical_scroll_steps = pos 0; horizontal_scroll_steps = pos 0 }

pub frame : Run → Outcome Run
unfolding take_steps clear_steps
frame r =
    let p = take_steps r.pointer in
    let passed : Run = record r { pointer = clear_steps p; frames = r.frames ++ (p ∷ []) } in
    if r.handle_event then done passed else done r

-- `handles` is the collection's handle_event, `cursors` what the theme holds under "left_ptr".
module _ (handles : ℕ → Bool) (cursors : ℕ → Option (List CursorImage)) where
  update_cursor_none : Run → Run
  update_cursor_none r = record r {
    requests =
        r.requests
        ++ (attach r.cursor_surface none
            ∷ set_cursor r.wl_pointer r.serial r.cursor_surface 0 0
            ∷ commit r.cursor_surface
            ∷ []);
  }

  show_image : Run → CursorImage → Run
  show_image r image = record r {
    requests =
        r.requests
        ++ (attach r.cursor_surface (some image.buffer)
            ∷ set_cursor r.wl_pointer r.serial r.cursor_surface image.hotspot_x image.hotspot_y
            ∷ damage_buffer r.cursor_surface image.width image.height
            ∷ commit r.cursor_surface
            ∷ []);
  }

  -- assert(cursor && cursor->image_count > 0), and the first image.
  first_image : Option (List CursorImage) → Outcome CursorImage
  first_image none = aborted
  first_image (some []) = aborted
  first_image (some (image ∷ images)) = done image

  update_cursor_left_ptr : Run → Outcome Run
  unfolding first_image show_image
  update_cursor_left_ptr r = do
    theme ← deref r.cursor_theme
    image ← first_image (cursors theme)
    done (show_image r image)

  update_cursor : CursorType → Run → Outcome Run
  unfolding update_cursor_none update_cursor_left_ptr
  update_cursor cursor_none r = done (update_cursor_none r)
  update_cursor cursor_left_ptr r = update_cursor_left_ptr r

  set_handling : ℕ → Run → Run
  set_handling surface r = record r {
    pointer = record (r.pointer) { handle_event = handles surface };
  }

  set_serial : ℕ → Run → Run
  set_serial serial r = record r { pointer = record (r.pointer) { serial = serial } }

  pub enter : ℕ → ℕ → Run → Outcome Run
  unfolding set_handling set_serial update_cursor
  enter serial surface r =
      let r1 = set_handling surface r in
      let r2 = set_serial serial r1 in
      if handles surface then update_cursor r.cursor_type r2 else done r1

  pub leave : ℕ → ℕ → Run → Outcome Run
  unfolding set_handling set_serial
  leave serial surface r =
      let r1 = set_handling surface r in
      if handles surface then done (set_serial serial r1) else done r1
