-- ===== src/Keyboard/Handlers.antt =====
-- src/keyboard.c: the collection of keyboards, its listeners, and what it allocates.
pub mod Owns
pub mod Balance
use wlvncc.Base.{
  ℕ, zero, suc, ◌+◌, ◌-◌, Bool, true, false, List, [], ◌∷◌, ◌++◌, Option, none, some, ◌==◌,
  if◌then◌else◌, replicate, Outcome, done, fault, ◌>>=◌, assert_found, deref,
}
use wlvncc.Xkb.{Xkb}
use wlvncc.Keyboard.{
  Keyboard, KeyEvent, keyboard_new, Run, pressed_keys_max, enter_run, leave_run, key_run,
  modifiers_run, keymap_run,
}

-- The objects that are allocated and not yet given back.
pub record Live : Type 0 where
  pub keyboards : ℕ
  pub contexts : ℕ
  pub keymaps : ℕ
  pub states : ℕ
  pub wl_keyboards : ℕ

-- One for an object that is there.
abbrev pub counts {ℓ} : {A : Type ℓ} → Option A → ℕ
counts none = 0
counts (some a) = 1

abbrev pub nothing_live : Live
nothing_live = record { keyboards = 0; contexts = 0; keymaps = 0; states = 0; wl_keyboards = 0 }

-- Giving back more than is allocated frees an object twice.
unfoldable pub give_back : ℕ → ℕ → Outcome ℕ
give_back n zero = if n == 0 then done 0 else fault
give_back zero (suc have) = done (suc have)
give_back (suc n) (suc have) = give_back n have

module _ (X : Xkb) where
  pub record Collection : Type 0 where
    pub keyboards : List (Keyboard X)
    pub events : List (KeyEvent X)
    pub live : Live

  pub collection_new : Collection
  collection_new = record { keyboards = []; events = []; live = nothing_live }

  pub find_wl_keyboard : List (Keyboard X) → ℕ → Option (Keyboard X)
  find_wl_keyboard [] wl_keyboard = none
  find_wl_keyboard (k ∷ ks) wl_keyboard =
      if k.wl_keyboard == wl_keyboard then some k else find_wl_keyboard ks wl_keyboard

  -- The keyboard that `find_wl_keyboard` returns, written anew.
  pub write_back : List (Keyboard X) → ℕ → Keyboard X → List (Keyboard X)
  write_back [] wl_keyboard new = []
  write_back (k ∷ ks) wl_keyboard new =
      if k.wl_keyboard == wl_keyboard then new ∷ ks else k ∷ write_back ks wl_keyboard new

  -- wl_list_remove of the keyboard that `find_wl_keyboard` returns.
  unlink : List (Keyboard X) → ℕ → List (Keyboard X)
  unlink [] wl_keyboard = []
  unlink (k ∷ ks) wl_keyboard =
      if k.wl_keyboard == wl_keyboard then ks else k ∷ unlink ks wl_keyboard

  -- The proxy comes from wl_seat_get_keyboard. The Boolean says whether calloc succeeds, the
  -- result whether 0 is returned.
  pub add_wl_keyboard : Collection → ℕ → ℕ → Bool → Collection × Bool
  add_wl_keyboard c wl_keyboard seat false = (c, false)
  add_wl_keyboard c wl_keyboard seat true = (
    record c {
      keyboards = keyboard_new X wl_keyboard seat ∷ c.keyboards;
      live = record live { keyboards = live.keyboards + 1; contexts = live.contexts + 1 };
    },
    true,
  )
    where
      open c use {live}

  -- A listener looks its keyboard up, runs, and leaves what it wrote in the list.
  pub on_keyboard :
      (Option (Keyboard X) → Outcome (Keyboard X))
      → Collection
      → ℕ
      → (Run X → Outcome (Run X))
      → Outcome Collection
  on_keyboard lookup c wl_keyboard f = do
    k ← lookup (find_wl_keyboard c.keyboards wl_keyboard)
    r ← f (record { keyboard = k; events = c.events })
    done (record c { keyboards = write_back c.keyboards wl_keyboard r.keyboard; events = r.events })

  -- keyboard_enter and keyboard_leave do not check the lookup; the others assert it.
  pub keyboard_enter : Collection → ℕ → List ℕ → Outcome Collection
  unfolding on_keyboard
  keyboard_enter c wl_keyboard keys = on_keyboard deref c wl_keyboard (enter_run X keys)

  pub keyboard_leave : Collection → ℕ → Outcome Collection
  unfolding on_keyboard
  keyboard_leave c wl_keyboard = on_keyboard deref c wl_keyboard (leave_run X)

  pub keyboard_key : Collection → ℕ → ℕ → ℕ → Outcome Collection
  unfolding on_keyboard
  keyboard_key c wl_keyboard key state =
      on_keyboard assert_found c wl_keyboard (key_run X key state)

  pub keyboard_modifiers : Collection → ℕ → ℕ → ℕ → ℕ → ℕ → Outcome Collection
  unfolding on_keyboard
  keyboard_modifiers c wl_keyboard depressed latched locked group =
      on_keyboard assert_found c wl_keyboard (modifiers_run X depressed latched locked group)

  -- The old keymap and state are given back when new ones come.
  pub reloaded : Live → Keyboard X → Outcome Live
  reloaded l k = do
    keymaps ← give_back (counts k.keymap) l.keymaps
    states ← give_back (counts k.state) l.states
    done (record l { keymaps = keymaps + 1; states = states + 1 })

  pub keyboard_keymap : Collection → ℕ → ℕ → List ℕ → Outcome Collection
  unfolding reloaded
  keyboard_keymap c wl_keyboard format text = do
    k ← assert_found (find_wl_keyboard c.keyboards wl_keyboard)
    r ← keymap_run X format text (record { keyboard = k; events = c.events })
    live ← (if format == 1 then reloaded c.live k else done c.live)
    done (record {
      keyboards = write_back c.keyboards wl_keyboard r.keyboard;
      events = r.events;
      live = live;
    })

  pub keyboard_destroy : Live → Keyboard X → Outcome Live
  keyboard_destroy l k = do
    states ← give_back (counts k.state) l.states
    keymaps ← give_back (counts k.keymap) l.keymaps
    contexts ← give_back 1 l.contexts
    wl_keyboards ← give_back 1 l.wl_keyboards
    keyboards ← give_back 1 l.keyboards
    done (record {
      keyboards = keyboards;
      contexts = contexts;
      keymaps = keymaps;
      states = states;
      wl_keyboards = wl_keyboards;
    })

  -- What is left allocated when the collection and its keyboards are gone.
  pub collection_destroy : List (Keyboard X) → Live → Outcome Live
  unfolding keyboard_destroy
  collection_destroy [] l = done l
  collection_destroy (k ∷ ks) l = keyboard_destroy l k >>= collection_destroy ks

  -- Unlinks the keyboard and frees the struct, no more.
  pub remove_wl_keyboard : Collection → ℕ → Outcome Collection
  unfolding unlink
  remove_wl_keyboard c wl_keyboard = do
    _ ← deref (find_wl_keyboard c.keyboards wl_keyboard)
    keyboards ← give_back 1 c.live.keyboards
    done (record c {
      keyboards = unlink c.keyboards wl_keyboard;
      live = record (c.live) { keyboards = keyboards };
    })
