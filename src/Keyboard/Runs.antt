-- ===== src/Keyboard/Runs.antt =====
-- Concrete runs of keyboard.c, over an xkb whose state is the set of its locked lights.
use wlvncc.Base.{
  ℕ, ◌+◌, ◌≡◌, ◌≢◌, refl, Bool, true, false, [], ◌∷◌, ◌++◌, map, some, replicate, done,
}
use wlvncc.Base.Masks.{has_bit}
use wlvncc.Xkb.{Xkb, Led, scroll_lock, num_lock, caps_lock}
use wlvncc.Keyboard.{
  Run, leave_run, led_mask, sync_led_state, key_run, keymap_run, handle_key, handled, set_keymap,
  key_direction,
}
use wlvncc.Keyboard.Slots.{held}
use wlvncc.Keyboard.Leaving.{Releases, leave_run-Releases, brief}
use wlvncc.Keyboard.Server.{InSync, down, none_down}
use wlvncc.Keyboard.Focus.{
  Reach, here, next, loaded, pressed, new_run, Reach-new_run-InSync, leave_run-none_down,
}
use wlvncc.Keyboard.Leds.{expected, sync_led_state-expected}
use wlvncc.Keyboard.Handlers.{nothing_live, collection_new, collection_destroy}
use wlvncc.Keyboard.Handlers.Balance
use wlvncc.Keyboard.Handlers.Balance.{plugged, collection_destroy-nothing_live}

light : ℕ → Led → Bool
light locked scroll_lock = has_bit locked 1
light locked num_lock = has_bit locked 2
light locked caps_lock = has_bit locked 4

abbrev lights : Xkb
lights = record {
  Keymap = ℕ;
  State = ℕ;
  keymap_new_from_string = λ text. some 0;
  state_new = λ keymap. some 0;
  update_key = λ s key dir. s;
  update_mask = λ s depressed latched locked group. locked;
  led_name_is_active = light;
  key_get_one_sym = λ s key. key;
}

-- Keys 30 and 42 are held, with a free slot between them, and the num lock light is recorded.
abbrev typing : Run lights
typing = record {
  keyboard = record {
    wl_keyboard = 1;
    seat = 1;
    keymap = some 0;
    state = some 0;
    led_state = 2;
    pressed_keys = 30 ∷ 0 ∷ 42 ∷ replicate 253 0;
    waiting_for_modifiers = true;
  };
  events = [];
}

leave_run-Releases_example :
    Releases lights typing (30 ∷ 0 ∷ 42 ∷ replicate 253 0) 256 (leave_run lights typing)
leave_run-Releases_example = leave_run-Releases lights typing 0 refl refl

sync_led_state-expected_example :
    (map (brief lights) (sync_led_state lights typing 4).events
      ≡ [] ++ expected lights true false true false 4)
    × ((sync_led_state lights typing 4).led_state
        ≡ led_mask (light 4 scroll_lock) (light 4 num_lock) (light 4 caps_lock))
    × ((sync_led_state lights typing 4).pressed_keys ≡ 30 ∷ 0 ∷ 42 ∷ replicate 253 0)
sync_led_state-expected_example =
    sync_led_state-expected lights typing 4 false true false (unfold led_mask in refl)

-- A new keyboard gets its keymap, and then a key is pressed.
abbrev keyed : Run lights
keyed = set_keymap lights (new_run lights 1 1) 0 0

abbrev one_down : Run lights
one_down = handled lights keyed 0 (30 + 8) true

one_down-Reach : Reach lights (new_run lights 1 1) one_down
unfolding held keymap_run key_run key_direction handle_key set_keymap new_run
one_down-Reach =
    next (next here (loaded {r = new_run lights 1 1} {r' = keyed} 1 [] refl))
      (pressed {r = keyed} {r' = one_down} 30 refl refl)

Reach-new_run-InSync_example : InSync lights one_down
Reach-new_run-InSync_example = Reach-new_run-InSync lights 1 1 one_down one_down-Reach

leave_run-none_down_example :
    (r' : Run lights) × (leave_run lights one_down ≡ done r')
    × ((k : ℕ) → k ≢ 0 → down none_down (map (brief lights) r'.events) k ≡ false)
leave_run-none_down_example =
    leave_run-none_down lights 1 1 one_down 0 one_down-Reach (unfold handled in refl)

collection_destroy-nothing_live_example :
    collection_destroy lights
      (plugged lights (collection_new lights) 1 1).keyboards
      (plugged lights (collection_new lights) 1 1).live
    ≡ done nothing_live
collection_destroy-nothing_live_example =
    collection_destroy-nothing_live lights (plugged lights (collection_new lights) 1 1)
      (Balance.next Balance.here (Balance.added 1 1 refl))
