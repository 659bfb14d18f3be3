-- ===== src/PointerEvents.antt =====
-- src/main.c, on_pointer_event: what a pointer frame becomes for the server. The coordinates, which
-- the source computes from the window's scale, are arguments here.
pub mod Steps
pub mod Runs
use Prim.Native.Nat.{bit_or}
use wlvncc.Base.{
  ℕ, zero, suc, ◌+◌, ◌-◌, max, Bool, true, false, not, ◌&&◌, ◌||◌, List, [], ◌∷◌, ◌++◌, ◌==◌, ltb,
  leb, if◌then◌else◌,
}
use wlvncc.Base.Int.{ℤ, pos, negsuc, magnitude}
use wlvncc.Base.Masks.{clear_bits}
use wlvncc.Pointer.Mask

-- A call of vnc_client_send_pointer_event.
pub record PointerMessage : Type 0 where
  pub x : ℤ
  pub y : ℤ
  pub button_mask : ℕ

-- The mask of one direction: `before` for a negative number of steps, `after` for a positive one.
direction : ℤ → ℕ → ℕ → ℕ
direction (negsuc n) before after = before
direction (pos zero) before after = 0
direction (pos (suc n)) before after = after

-- `scroll_mask |= ...` for both directions.
scroll_mask : ℤ → ℤ → ℕ
unfolding direction
scroll_mask vertical horizontal =
    bit_or (direction vertical Mask.scroll_up Mask.scroll_down)
      (direction horizontal Mask.scroll_left Mask.scroll_right)

vertical_bits : ℕ
vertical_bits = bit_or Mask.scroll_up Mask.scroll_down

horizontal_bits : ℕ
horizontal_bits = bit_or Mask.scroll_left Mask.scroll_right

-- `if (--steps <= 0) mask &= ~bits`. The counts only matter while they are positive, so that the
-- negative numbers that the source reaches are 0 here.
after_step : ℕ → ℕ → ℕ → ℕ
after_step steps bits mask = if leb steps 1 then clear_bits mask bits else mask

-- The loop over the steps, on fuel: each round sends the scroll bits and then takes them back.
scroll_loop : ℕ → ℤ → ℤ → ℕ → ℕ → ℕ → ℕ → List PointerMessage
unfolding after_step vertical_bits horizontal_bits
scroll_loop zero x y pressed vertical horizontal mask = []
scroll_loop (suc fuel) x y pressed vertical horizontal mask =
    let mask1 = after_step vertical vertical_bits mask in
    let mask2 = after_step horizontal horizontal_bits mask1 in
    let rest = scroll_loop fuel x y pressed (vertical - 1) (horizontal - 1) mask2 in
    if ltb 0 horizontal || ltb 0 vertical
    then record { x = x; y = y; button_mask = bit_or pressed mask }
      ∷ record { x = x; y = y; button_mask = pressed }
      ∷ rest
    else []

-- One round more than the larger count is enough for the loop to end by its test.
pub on_pointer_event : ℤ → ℤ → ℕ → ℤ → ℤ → List PointerMessage
unfolding scroll_loop scroll_mask
on_pointer_event x y pressed vertical_steps horizontal_steps =
    if magnitude vertical_steps == 0 && magnitude horizontal_steps == 0
    then record { x = x; y = y; button_mask = pressed } ∷ []
    else scroll_loop (max (magnitude vertical_steps) (magnitude horizontal_steps) + 1) x y pressed
        (magnitude vertical_steps) (magnitude horizontal_steps)
        (scroll_mask vertical_steps horizontal_steps)
