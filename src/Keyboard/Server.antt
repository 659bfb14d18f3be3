-- ===== src/Keyboard/Server.antt =====
-- The keys that the listener has been told are down, against the keys that the slots hold.
use wlvncc.Base.{
  ℕ, ◌+◌, ◌≡◌, ◌≢◌, refl, sym, ap, ◌∙◌, subst, Bool, true, false, not, ◌||◌, List, [], ◌∷◌, ◌++◌,
  map, some, ◌==◌, if◌then◌else◌, length, arith, done, deref, assert_found, Bool-cases, ==_iff,
  Option-cases, inl, inr, >>=-eq-done, deref-eq-done, done-injective,
}
use Prim.Native.Nat.{bit_xor}
use mathlib.Core.List.{map-append}
use wlvncc.Base.Masks.{has_bit}
use wlvncc.Xkb.{Xkb}
use wlvncc.Keyboard.{
  Run, add_pressed_key, emit, handled, handle_key, enter_loop, modifiers_run, sync_led_state,
  toggle_key, toggle_if, load_keymap, set_keymap, toggle_changed, active_leds, set_leds, set_state,
  key_scroll_lock, key_num_lock, key_caps_lock, pressed_keys_max,
}
use wlvncc.Keyboard.Slots.{
  held, Distinct, HasRoom, held-add_pressed_key, held-remove_pressed_key, add_pressed_key-Distinct,
  remove_pressed_key-Distinct, length-add_pressed_key, length-remove_pressed_key,
}
use wlvncc.Keyboard.Leaving.{handle_key_lem, handled-brief, brief}

-- Which keys are down after the events, given those that were before.
pub down : (ℕ → Bool) → List (ℕ × Bool) → ℕ → Bool
down d [] k = d k
down d ((key, pressed) ∷ es) k = down (λ j. if j == key then pressed else d j) es k

down-append :
    (es : List (ℕ × Bool)) (d : ℕ → Bool) (key k : ℕ) (pressed : Bool)
    → down d (es ++ (key, pressed) ∷ []) k ≡ (if k == key then pressed else down d es k)
unfolding down
down-append [] d key k pressed = refl
down-append ((j, p) ∷ es) d key k pressed =
    down-append es (λ i. if i == j then p else d i) key k pressed

abbrev pub none_down : ℕ → Bool
none_down k = false

pub down-nil : (k : ℕ) → down none_down [] k ≡ false
unfolding down
down-nil k = refl

module _ (X : Xkb) where
  -- What the server believes is what the slots hold, no key is held twice, the array is whole.
  pub record InSync (r : Run X) : Type 0 where
    pub agrees : (k : ℕ) → k ≢ 0 → down none_down (map (brief X) r.events) k ≡ held r.pressed_keys k
    pub distinct : Distinct r.pressed_keys
    pub whole : length r.pressed_keys ≡ pressed_keys_max

  told :
      (r : Run X) (s : X.State) (key k : ℕ) (dir : Bool)
      → down none_down (map (brief X) (handled X r s key dir).events) k
        ≡ (if k == key then dir else down none_down (map (brief X) r.events) k)
  told r s key k dir =
      ap (λ es. down none_down es k) (handled-brief X r s key dir)
      ∙ down-append (map (brief X) r.events) none_down key k dir

  handled-agrees :
      (r : Run X) (s : X.State) (key k : ℕ) (dir : Bool)
      → InSync r
      → key ≢ 0
      → (dir ≡ true → HasRoom r.pressed_keys key)
      → k ≢ 0
      → down none_down (map (brief X) (handled X r s key dir).events) k
        ≡ held (handled X r s key dir).pressed_keys k
  handled-agrees r s key k true v hkey room hk =
      told r s key k true
      ∙ unfold handled in
        (rw (held-add_pressed_key r.pressed_keys key k hk, room refl, v.agrees k hk) (ground arith))
  handled-agrees r s key k false v hkey room hk =
      told r s key k false
      ∙ unfold handled in
        (rw (held-remove_pressed_key r.pressed_keys key k v.distinct hkey hk, v.agrees k hk)
          (ground arith))

  -- One key event keeps the listener's view and the slots in agreement, if a press finds a slot.
  pub handled-InSync :
      (r : Run X) (s : X.State) (key : ℕ) (dir : Bool)
      → InSync r
      → key ≢ 0
      → (dir ≡ true → HasRoom r.pressed_keys key)
      → InSync (handled X r s key dir)
  unfolding handled
  handled-InSync r s key true v hkey room = record {
    agrees = λ k. handled-agrees r s key k true v hkey room;
    distinct = add_pressed_key-Distinct r.pressed_keys key v.distinct;
    whole = length-add_pressed_key r.pressed_keys key ∙ v.whole;
  }
  handled-InSync r s key false v hkey room = record {
    agrees = λ k. handled-agrees r s key k false v hkey room;
    distinct = remove_pressed_key-Distinct r.pressed_keys key v.distinct hkey;
    whole = length-remove_pressed_key r.pressed_keys key ∙ v.whole;
  }

  pub handle_key_inv :
      (r r' : Run X) (key : ℕ) (dir : Bool)
      → handle_key X r key dir ≡ done r'
      → (s : X.State) × (r.state ≡ some s) × (handled X r s key dir ≡ r')
  handle_key_inv r r' key dir e = elim (Option-cases r.state) [
    | inl st ↦ absurd (unfold handle_key in (cc (ap (λ o. deref o) st)))
    | inr (s, st) ↦ (s, st, cc (handle_key_lem X r s key dir st))
  ]

  pub load_keymap_inv :
      (text : List ℕ) (r r' : Run X)
      → load_keymap X text r ≡ done r'
      → (m : X.Keymap) × (s : X.State) × (set_keymap X r m s ≡ r')
  unfolding load_keymap
  load_keymap_inv text r r' e =
      let (m, _, e1) = >>=-eq-done (assert_found (X.keymap_new_from_string text)) _ e in
      let (s, _, e2) = >>=-eq-done (assert_found (X.state_new m)) _ e1 in (m, s, done-injective e2)

  pub handle_key-InSync :
      (r r' : Run X) (key : ℕ) (dir : Bool)
      → InSync r
      → key ≢ 0
      → (dir ≡ true → HasRoom r.pressed_keys key)
      → handle_key X r key dir ≡ done r'
      → InSync r'
  handle_key-InSync r r' key dir v hkey room e =
      let (s, _, same) = handle_key_inv r r' key dir e in
      subst InSync same (handled-InSync r s key dir v hkey room)

  -- Each key that is down at the moment of the focus finds a slot.
  abbrev pub RoomFor : List ℕ → List ℕ → Type 0
  RoomFor [] slots = Unit {0}
  RoomFor (key ∷ keys) slots =
      HasRoom slots (key + 8) × RoomFor keys (add_pressed_key slots (key + 8))

  pub enter_loop-InSync :
      (keys : List ℕ) (r r' : Run X)
      → InSync r
      → RoomFor keys r.pressed_keys
      → enter_loop X keys r ≡ done r'
      → InSync r'
  unfolding enter_loop
  enter_loop-InSync [] r r' v room e = subst InSync (cc) v
  enter_loop-InSync (key ∷ keys) r r' v room e =
      let (r1, e1, e2) = >>=-eq-done (handle_key X r (key + 8) true) (enter_loop X keys) e in
      let (s, _, same) = handle_key_inv r r1 (key + 8) true e1 in
      enter_loop-InSync keys r1 r'
        (handle_key-InSync r r1 (key + 8) true v (omega arith) (λ _. room.0) e1)
        (subst (λ q. RoomFor keys q.pressed_keys) same (unfold handled in room.1)) e2

  emitted :
      (r : Run X) (s : X.State) (key k : ℕ) (dir : Bool)
      → down none_down (map (brief X) (emit X r s key dir).events) k
        ≡ (if k == key then dir else down none_down (map (brief X) r.events) k)
  unfolding emit
  emitted r s key k dir =
      ap (λ es. down none_down es k) (map-append (brief X) r.events _)
      ∙ down-append (map (brief X) r.events) none_down key k dir

  -- A lock key that no slot holds is pressed and released at once.
  toggle_if-InSync :
      (b : Bool) (r : Run X) (s : X.State) (code : ℕ)
      → InSync r
      → (b ≡ true → held r.pressed_keys code ≡ false)
      → InSync (toggle_if X b r s code) × ((toggle_if X b r s code).pressed_keys ≡ r.pressed_keys)
  unfolding toggle_if toggle_key
  toggle_if-InSync false r s code v free = (v, refl)
  toggle_if-InSync true r s code v free = (
    record {
      agrees = λ k hk.
          emitted (emit X r s code true) s code k false
          ∙ (rw (emitted r s code k true, v.agrees k hk)
              (unfold emit in
                (elim (Bool-cases (k == code)) [
                  | inl same ↦ rw same (sym (rw ((==_iff k code).0 same) (free refl)))
                  | inr other ↦ rw other
                ])));
      distinct = unfold emit in v.distinct;
      whole = unfold emit in v.whole;
    },
    unfold emit in refl,
  )

  when_false :
      (p : Run X → Type 0) (b : Bool) {f g : Run X}
      → p f
      → (b ≡ false → p g)
      → p (if b then f else g)
  when_false p true pf pg = pf
  when_false p false pf pg = pg refl

  false_off : (a b : Bool) → (not a || b) ≡ false → a ≡ true
  false_off true b e = refl
  false_off false b e = cc

  -- No slot holds a lock key whose light is among those that change.
  pub record LocksFree (slots : List ℕ) (changed : ℕ) : Type 0 where
    pub scroll : has_bit changed 1 ≡ true → held slots key_scroll_lock ≡ false
    pub num : has_bit changed 2 ≡ true → held slots key_num_lock ≡ false
    pub caps : has_bit changed 4 ≡ true → held slots key_caps_lock ≡ false

  -- The lights that differ between the keyboard and a state of xkb.
  pub changed_leds : Run X → X.State → ℕ
  changed_leds r s = bit_xor r.led_state (active_leds X s)

  toggle_changed-InSync :
      (r : Run X) (s : X.State) (diff : ℕ)
      → InSync r
      → LocksFree r.pressed_keys diff
      → InSync (toggle_changed X r s diff)
  unfolding toggle_changed
  toggle_changed-InSync r s diff v free =
      let (v1, e1) = toggle_if-InSync (has_bit diff 1) r s key_scroll_lock v free.scroll in
      let r1 = toggle_if X (has_bit diff 1) r s key_scroll_lock in
      let (v2, e2) =
        toggle_if-InSync (has_bit diff 2) r1 s key_num_lock v1 (λ h. rw e1 (free.num h)) in
      let r2 = toggle_if X (has_bit diff 2) r1 s key_num_lock in
      (toggle_if-InSync (has_bit diff 4) r2 s key_caps_lock v2 (λ h. rw (e2, e1) (free.caps h))).0

  sync_led_state-InSync :
      (r : Run X) (s : X.State)
      → InSync r
      → (r.waiting_for_modifiers ≡ true → LocksFree r.pressed_keys (changed_leds r s))
      → InSync (sync_led_state X r s)
  unfolding sync_led_state set_leds changed_leds
  sync_led_state-InSync r s v free =
      let v0 : InSync (set_leds X r (active_leds X s)) = record {
        agrees = v.agrees;
        distinct = v.distinct;
        whole = v.whole;
      } in
      when_false InSync (not r.waiting_for_modifiers || bit_xor r.led_state (active_leds X s) == 0)
        v0
        (λ told. toggle_changed-InSync _ s _ v0 (free (false_off r.waiting_for_modifiers _ told)))

  pub modifiers_run-InSync :
      (depressed latched locked group : ℕ) (r r' : Run X)
      → InSync r
      → ((s : X.State)
          → r.state ≡ some s
          → r.waiting_for_modifiers ≡ true
          → LocksFree r.pressed_keys
              (changed_leds r (X.update_mask s depressed latched locked group)))
      → modifiers_run X depressed latched locked group r ≡ done r'
      → InSync r'
  unfolding modifiers_run
  modifiers_run-InSync depressed latched locked group r r' v free e =
      let (s, there, e') = >>=-eq-done (deref r.state) _ e in
      let s' = X.update_mask s depressed latched locked group in
      let w : InSync (set_state X r s') =
        unfold set_state in
        (record { agrees = v.agrees; distinct = v.distinct; whole = v.whole }) in
      let u =
        sync_led_state-InSync (set_state X r s') s' w
          (unfold set_state changed_leds in (free s (deref-eq-done r.state there))) in
      subst InSync (done-injective e')
        (record { agrees = u.agrees; distinct = u.distinct; whole = u.whole })
