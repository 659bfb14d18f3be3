-- ===== src/Xkb.antt =====
-- What keyboard.c uses of libxkbcommon: keymaps and states are opaque, and a call is a function of
-- the values it is given.
use wlvncc.Base.{ℕ, Bool, List, Option}

pub data Led : Type 0 where
  scroll_lock num_lock caps_lock : Led

pub record Xkb : Type 1 where
  pub Keymap : Type 0
  pub State : Type 0
  -- xkb_keymap_new_from_string (null on a text that is no keymap) and xkb_state_new.
  pub keymap_new_from_string : List ℕ → Option Keymap
  pub state_new : Keymap → Option State
  -- xkb_state_update_key (true is XKB_KEY_DOWN) and xkb_state_update_mask (depressed, latched,
  -- locked, and the group).
  pub update_key : State → ℕ → Bool → State
  pub update_mask : State → ℕ → ℕ → ℕ → ℕ → State
  pub led_name_is_active : State → Led → Bool
  pub key_get_one_sym : State → ℕ → ℕ
