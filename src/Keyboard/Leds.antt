-- ===== src/Keyboard/Leds.antt =====
-- keyboard_sync_led_state: which lock keys are toggled when the modifiers come.
use Prim.Native.Nat.{bit_xor}
use mathlib.Core.List.{append-nil, append_assoc, map-append}
use wlvncc.Base.{
  ℕ, ◌≡◌, refl, sym, ap, ◌∙◌, Bool, true, false, not, ◌||◌, List, [], ◌∷◌, ◌++◌, map, ◌==◌,
  if◌then◌else◌, if_cases, Bool-cases, ==_iff, inl, inr,
}
use wlvncc.Base.Masks.{has_bit, every_six, every_six_sound, same, same→eq}
use wlvncc.Xkb.{Xkb, scroll_lock, num_lock, caps_lock}
use wlvncc.Keyboard.{
  Keyboard, Run, led_mask, emit, toggle_key, toggle_if, toggle_changed, active_leds, set_leds,
  sync_led_state, key_scroll_lock, key_num_lock, key_caps_lock,
}
use wlvncc.Keyboard.Leaving.{brief}

-- Whether a light differs.
abbrev pub changed : Bool → Bool → Bool
changed a b = not (same a b)

-- The bits of the difference of two masks, and when it is 0.
abbrev diff : Bool → Bool → Bool → Bool → Bool → Bool → ℕ
diff s n c s' n' c' = bit_xor (led_mask s n c) (led_mask s' n' c')

diff_bits :
    (s n c s' n' c' : Bool)
    → (has_bit (diff s n c s' n' c') 1 ≡ changed s s')
      × (has_bit (diff s n c s' n' c') 2 ≡ changed n n')
      × (has_bit (diff s n c s' n' c') 4 ≡ changed c c')
      × ((diff s n c s' n' c' == 0) ≡ not (changed s s' || (changed n n' || changed c c')))
unfolding led_mask has_bit every_six
diff_bits s n c s' n' c' = (
  same→eq _ _ (
      every_six_sound (λ s n c s' n' c'. same (has_bit (diff s n c s' n' c') 1) (changed s s')) s n
        c s' n' c' refl),
  same→eq _ _ (
      every_six_sound (λ s n c s' n' c'. same (has_bit (diff s n c s' n' c') 2) (changed n n')) s n
        c s' n' c' refl),
  same→eq _ _ (
      every_six_sound (λ s n c s' n' c'. same (has_bit (diff s n c s' n' c') 4) (changed c c')) s n
        c s' n' c' refl),
  same→eq _ _ (
      every_six_sound
        (λ s n c s' n' c'.
          same (diff s n c s' n' c' == 0) (not (changed s s' || (changed n n' || changed c c'))))
        s n c s' n' c' refl),
)

-- A press and a release of the key, if the light changed.
abbrev pub taps : Bool → ℕ → List (ℕ × Bool)
taps b code = if b then (code, true) ∷ (code, false) ∷ [] else []

module _ (X : Xkb) where
  toggle_if-taps :
      (b : Bool) (r : Run X) (s : X.State) (code : ℕ)
      → map (brief X) (toggle_if X b r s code).events ≡ map (brief X) r.events ++ taps b code
  unfolding toggle_if toggle_key emit
  toggle_if-taps false r s code = sym (append-nil _)
  toggle_if-taps true r s code =
      map-append (brief X) (r.events ++ _) _
      ∙ (rw (map-append (brief X) r.events) (append_assoc (map (brief X) r.events) _ _))

  toggle_changed-taps :
      (r : Run X) (s : X.State) (d : ℕ)
      → map (brief X) (toggle_changed X r s d).events
        ≡ map (brief X) r.events
          ++ (taps (has_bit d 1) key_scroll_lock
              ++ (taps (has_bit d 2) key_num_lock ++ taps (has_bit d 4) key_caps_lock))
  unfolding toggle_changed
  toggle_changed-taps r s d =
      let r1 = toggle_if X (has_bit d 1) r s key_scroll_lock in
      let r2 = toggle_if X (has_bit d 2) r1 s key_num_lock in
      rw
        (
          toggle_if-taps (has_bit d 4) r2 s key_caps_lock,
          toggle_if-taps (has_bit d 2) r1 s key_num_lock,
          toggle_if-taps (has_bit d 1) r s key_scroll_lock,
          append_assoc (map (brief X) r.events ++ taps (has_bit d 1) key_scroll_lock),
        )
        (append_assoc (map (brief X) r.events) _ _)

  toggle_if-keyboard :
      (b : Bool) (r : Run X) (s : X.State) (code : ℕ)
      → (toggle_if X b r s code).keyboard ≡ r.keyboard
  unfolding toggle_if toggle_key emit
  toggle_if-keyboard false r s code = refl
  toggle_if-keyboard true r s code = refl

  toggle_changed-keyboard :
      (r : Run X) (s : X.State) (d : ℕ) → (toggle_changed X r s d).keyboard ≡ r.keyboard
  unfolding toggle_changed
  toggle_changed-keyboard r s d =
      toggle_if-keyboard (has_bit d 4) _ s key_caps_lock
      ∙ toggle_if-keyboard (has_bit d 2) _ s key_num_lock
      ∙ toggle_if-keyboard (has_bit d 1) r s key_scroll_lock

  -- The two branches of the test on the difference `d`.
  abbrev branch : Bool → Run X → X.State → ℕ → Run X
  branch waiting r s d = if not waiting || d == 0 then r else toggle_changed X r s d

  branch-keyboard :
      (waiting : Bool) (r : Run X) (s : X.State) (d : ℕ)
      → (branch waiting r s d).keyboard ≡ r.keyboard
  branch-keyboard waiting r s d =
      if_cases {A = Run X} (λ q. q.keyboard ≡ r.keyboard) (not waiting || d == 0) refl
        (toggle_changed-keyboard r s d)

  branch-taps :
      (waiting : Bool) (r : Run X) (s : X.State) (d : ℕ)
      → map (brief X) (branch waiting r s d).events
        ≡ map (brief X) r.events
          ++ (if waiting
              then taps (has_bit d 1) key_scroll_lock
                ++ (taps (has_bit d 2) key_num_lock ++ taps (has_bit d 4) key_caps_lock)
              else [])
  unfolding has_bit
  branch-taps false r s d = sym (append-nil _)
  branch-taps true r s d = elim (Bool-cases (d == 0)) [
    | inl none_changed ↦ rw ((==_iff d 0).0 none_changed) (sym (append-nil _))
    | inr some_changed ↦ rw some_changed (toggle_changed-taps r s d)
  ]

  branch-taps_of :
      (waiting : Bool) (r : Run X) (s : X.State) (d : ℕ) (c1 c2 c4 : Bool)
      → has_bit d 1 ≡ c1
      → has_bit d 2 ≡ c2
      → has_bit d 4 ≡ c4
      → map (brief X) (branch waiting r s d).events
        ≡ map (brief X) r.events
          ++ (if waiting
              then taps c1 key_scroll_lock ++ (taps c2 key_num_lock ++ taps c4 key_caps_lock)
              else [])
  branch-taps_of waiting r s d c1 c2 c4 p1 p2 p4 = branch-taps waiting r s d ∙ (rw (p1, p2, p4))

  pub sync_led_state-keyboard :
      (r : Run X) (s : X.State)
      → (sync_led_state X r s).keyboard ≡ (set_leds X r (active_leds X s)).keyboard
  unfolding sync_led_state
  sync_led_state-keyboard r s = branch-keyboard r.waiting_for_modifiers _ s _

  -- What is sent for the lights before and after.
  abbrev pub expected : Bool → Bool → Bool → Bool → X.State → List (ℕ × Bool)
  expected waiting scroll num caps s =
      if waiting
      then taps (changed scroll (X.led_name_is_active s scroll_lock)) key_scroll_lock
        ++ (taps (changed num (X.led_name_is_active s num_lock)) key_num_lock
            ++ taps (changed caps (X.led_name_is_active s caps_lock)) key_caps_lock)
      else []

  -- After the first modifiers event of a focus, each lock key whose light differs from the recorded
  -- one is pressed and released once, in the order scroll, num, caps, and nothing else is sent; at
  -- any other modifiers event nothing is sent. The lights are recorded and the slots left alone.
  pub sync_led_state-expected :
      (r : Run X) (s : X.State) (scroll num caps : Bool)
      → r.led_state ≡ led_mask scroll num caps
      → (map (brief X) (sync_led_state X r s).events
          ≡ map (brief X) r.events ++ expected r.waiting_for_modifiers scroll num caps s)
        × ((sync_led_state X r s).led_state
            ≡ led_mask
                (X.led_name_is_active s scroll_lock)
                (X.led_name_is_active s num_lock)
                (X.led_name_is_active s caps_lock))
        × ((sync_led_state X r s).pressed_keys ≡ r.pressed_keys)
  unfolding sync_led_state active_leds set_leds
  sync_led_state-expected r s scroll num caps e =
      let on = X.led_name_is_active s in
      let leds = active_leds X s in
      let r0 = set_leds X r leds in
      let d = bit_xor r.led_state leds in
      let (b1, b2, b4, _) =
        diff_bits scroll num caps (on scroll_lock) (on num_lock) (on caps_lock) in
      let same_keyboard = branch-keyboard r.waiting_for_modifiers r0 s d in
      (
        branch-taps_of r.waiting_for_modifiers r0 s d _ _ _
            (ap (λ (m : ℕ). has_bit (bit_xor m leds) 1) e ∙ b1)
            (ap (λ (m : ℕ). has_bit (bit_xor m leds) 2) e ∙ b2)
            (ap (λ (m : ℕ). has_bit (bit_xor m leds) 4) e ∙ b4),
        ap (λ (k : Keyboard X). k.led_state) same_keyboard,
        ap (λ (k : Keyboard X). k.pressed_keys) same_keyboard,
      )
