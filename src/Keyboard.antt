-- ===== src/Keyboard.antt =====
-- src/keyboard.c, include/keyboard.h: the keyboards of the seats, the keys that each holds down,
-- and the key events that are passed on.
pub mod Slots
pub mod Leaving
pub mod Server
pub mod Leds
pub mod Focus
pub mod Handlers
pub mod Runs
use Prim.Native.Nat.{bit_xor}
use wlvncc.Base.{
  ℕ, zero, suc, ◌+◌, ◌-◌, Bool, true, false, not, ◌||◌, List, [], ◌∷◌, ◌++◌, Option, none, some,
  ◌==◌, if◌then◌else◌, get_elem?, set, replicate, Outcome, done, aborted, fault, ◌>>=◌,
  assert_found, deref,
}
use wlvncc.Base.Masks.{has_bit}
use wlvncc.Xkb.{Xkb, Led, scroll_lock, num_lock, caps_lock}

abbrev pub pressed_keys_max : ℕ
pressed_keys_max = 256

abbrev led_scroll_lock : ℕ
led_scroll_lock = 1

abbrev led_num_lock : ℕ
led_num_lock = 2

abbrev led_caps_lock : ℕ
led_caps_lock = 4

-- KEY_SCROLLLOCK + 8, KEY_NUMLOCK + 8 and KEY_CAPSLOCK + 8.
abbrev key_scroll_lock : ℕ
key_scroll_lock = 70 + 8

abbrev key_num_lock : ℕ
key_num_lock = 69 + 8

abbrev key_caps_lock : ℕ
key_caps_lock = 58 + 8

abbrev pub next_slot : Option ℕ → Option ℕ
next_slot none = none
next_slot (some i) = some (suc i)

-- The address of the first slot that holds `key` is its index.
pub get_pressed_key : List ℕ → ℕ → Option ℕ
get_pressed_key [] key = none
get_pressed_key (p ∷ ps) key = if key == p then some 0 else next_slot (get_pressed_key ps key)

pub add_pressed_key : List ℕ → ℕ → List ℕ
add_pressed_key slots key = elim (get_pressed_key slots key) [
  | some _ ↦ slots
  | none ↦ elim (get_pressed_key slots 0) [ none ↦ slots | some i ↦ set slots i key ]
]

pub remove_pressed_key : List ℕ → ℕ → List ℕ
remove_pressed_key slots key = elim (get_pressed_key slots key) [
  | none ↦ slots
  | some i ↦ set slots i 0
]

-- The three lights as `leds |= ...` sets them.
pub led_mask : Bool → Bool → Bool → ℕ
led_mask s n c =
    (if s then led_scroll_lock else 0)
    + (if n then led_num_lock else 0)
    + (if c then led_caps_lock else 0)

module _ (X : Xkb) where
  pub record Keyboard : Type 0 where
    pub wl_keyboard : ℕ
    pub seat : ℕ
    pub keymap : Option X.Keymap
    pub state : Option X.State
    pub led_state : ℕ
    pub pressed_keys : List ℕ
    pub waiting_for_modifiers : Bool

  pub keyboard_new : ℕ → ℕ → Keyboard
  keyboard_new wl_keyboard seat = record {
    wl_keyboard = wl_keyboard;
    seat = seat;
    keymap = none;
    state = none;
    led_state = 0;
    pressed_keys = replicate pressed_keys_max 0;
    waiting_for_modifiers = false;
  }

  -- A call of on_event: the keyboard's seat and xkb state at that moment, the key, the direction.
  pub record KeyEvent : Type 0 where
    pub seat : ℕ
    pub state : X.State
    pub key : ℕ
    pub is_pressed : Bool

  -- One keyboard and the calls of on_event so far.
  pub record Run : Type 0 where
    pub keyboard : Keyboard
    pub open keyboard use *
    pub events : List KeyEvent

  emit : Run → X.State → ℕ → Bool → Run
  emit r s key is_pressed = record r { events = r.events ++ (event ∷ []) }
    where
      event : KeyEvent
      event = record { seat = r.seat; state = s; key = key; is_pressed = is_pressed }

  -- `true` is XKB_KEY_DOWN.
  pub handled : Run → X.State → ℕ → Bool → Run
  unfolding emit
  handled r s key dir =
      let s' = X.update_key s key dir in
      let slots =
        if dir then add_pressed_key r.pressed_keys key else remove_pressed_key r.pressed_keys key in
      let k = record (r.keyboard) { state = some s'; pressed_keys = slots } in
      emit (record r { keyboard = k }) s' key dir

  -- xkb_state_update_key reads the state, which is null before the first keymap.
  pub handle_key : Run → ℕ → Bool → Outcome Run
  unfolding handled
  handle_key r key dir = do s ← deref r.state; done (handled r s key dir)

  -- The keys that are down when the surface gets the focus.
  pub enter_loop : List ℕ → Run → Outcome Run
  enter_loop [] r = done r
  enter_loop (key ∷ keys) r = handle_key r (key + 8) true >>= enter_loop keys

  pub enter_run : List ℕ → Run → Outcome Run
  enter_run keys r =
      enter_loop keys (record r { keyboard = record (r.keyboard) { waiting_for_modifiers = true } })

  -- `n` slots are left, from slot `i` on.
  pub leave_loop : ℕ → ℕ → Run → Outcome Run
  leave_loop zero i r = done r
  leave_loop (suc n) i r = elim (get_elem? r.pressed_keys i) [
    | none ↦ fault
    | some zero ↦ leave_loop n (suc i) r
    | some (suc k) ↦ handle_key r (suc k) false >>= leave_loop n (suc i)
  ]

  pub leave_run : Run → Outcome Run
  leave_run = leave_loop pressed_keys_max 0

  -- WL_KEYBOARD_KEY_STATE_RELEASED is 0 and WL_KEYBOARD_KEY_STATE_PRESSED is 1.
  key_direction : ℕ → Outcome Bool
  key_direction state = if state == 1 then done true else if state == 0 then done false else aborted

  pub key_run : ℕ → ℕ → Run → Outcome Run
  unfolding key_direction
  key_run key state r = do dir ← key_direction state; handle_key r (key + 8) dir

  toggle_key : Run → X.State → ℕ → Run
  toggle_key r s code = emit (emit r s code true) s code false

  toggle_if : Bool → Run → X.State → ℕ → Run
  toggle_if b r s code = if b then toggle_key r s code else r

  toggle_changed : Run → X.State → ℕ → Run
  toggle_changed r s diff =
      let r1 = toggle_if (has_bit diff led_scroll_lock) r s key_scroll_lock in
      let r2 = toggle_if (has_bit diff led_num_lock) r1 s key_num_lock in
      toggle_if (has_bit diff led_caps_lock) r2 s key_caps_lock

  -- The lights of the xkb state as bits.
  pub active_leds : X.State → ℕ
  active_leds s =
      led_mask (X.led_name_is_active s scroll_lock) (X.led_name_is_active s num_lock)
        (X.led_name_is_active s caps_lock)

  pub set_leds : Run → ℕ → Run
  set_leds r leds = record r { keyboard = record (r.keyboard) { led_state = leds } }

  pub sync_led_state : Run → X.State → Run
  sync_led_state r s =
      let leds = active_leds s in
      let diff = bit_xor r.led_state leds in
      let r0 = set_leds r leds in
      if not r.waiting_for_modifiers || diff == 0 then r0 else toggle_changed r0 s diff

  set_state : Run → X.State → Run
  set_state r s = record r { keyboard = record (r.keyboard) { state = some s } }

  pub modifiers_run : ℕ → ℕ → ℕ → ℕ → Run → Outcome Run
  modifiers_run depressed latched locked group r = do
    s ← deref r.state
    let s' = X.update_mask s depressed latched locked group
    let r1 = sync_led_state (set_state r s') s'
    done (record r1 { keyboard = record (r1.keyboard) { waiting_for_modifiers = false } })

  pub set_keymap : Run → X.Keymap → X.State → Run
  set_keymap r m s = record r { keyboard = record (r.keyboard) { keymap = some m; state = some s } }

  -- `text` is what the mapping of the file reads.
  pub load_keymap : List ℕ → Run → Outcome Run
  load_keymap text r = do
    m ← assert_found (X.keymap_new_from_string text)
    s ← assert_found (X.state_new m)
    done (set_keymap r m s)

  -- WL_KEYBOARD_KEYMAP_FORMAT_XKB_V1 is 1.
  pub keymap_run : ℕ → List ℕ → Run → Outcome Run
  unfolding load_keymap
  keymap_run format text r = if format == 1 then load_keymap text r else done r
