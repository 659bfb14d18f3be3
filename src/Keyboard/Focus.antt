-- ===== src/Keyboard/Focus.antt =====
-- One keyboard between its creation and any later moment: what the compositor may send, and what
-- the listener believes.
use wlvncc.Base.{
  ℕ, zero, suc, ◌+◌, ◌≡◌, ◌≢◌, refl, sym, ◌∙◌, subst, true, false, List, [], map, some,
  length-replicate, get_elem?, replicate, arith, done, Option-cases, Bool-cases, ◌==◌, inl, inr,
  >>=-eq-done, done-injective,
}
use wlvncc.Xkb.{Xkb}
use wlvncc.Keyboard.{
  keyboard_new, Run, handle_key, leave_loop, leave_run, enter_run, key_run, key_direction,
  modifiers_run, keymap_run, set_keymap, pressed_keys_max,
}
use wlvncc.Keyboard.Slots.{held, held-cons, held-nil, Distinct, HasRoom}
use wlvncc.Keyboard.Leaving.{leave_run-Releases, brief}
use wlvncc.Keyboard.Server.{
  load_keymap_inv, down, down-nil, none_down, InSync, LocksFree, changed_leds, RoomFor,
  handle_key-InSync, enter_loop-InSync, modifiers_run-InSync,
}

held-zeros : (n k : ℕ) → k ≢ 0 → held (replicate n 0) k ≡ false
held-zeros zero k h = held-nil k
held-zeros (suc n) k h = ground (arith, held-cons 0 (replicate n 0) k, held-zeros n k)

Distinct-zeros : (n : ℕ) → Distinct (replicate n 0)
Distinct-zeros zero = tt
Distinct-zeros (suc n) = (λ h. absurd (h refl), Distinct-zeros n)

module _ (X : Xkb) where
  -- What keyboard_new returns, before any event.
  unfoldable pub new_run : ℕ → ℕ → Run X
  unfolding keyboard_new
  new_run wl_keyboard seat = record { keyboard = keyboard_new X wl_keyboard seat; events = [] }

  -- What the compositor may send while the keyboard has the focus.
  pub data Step : Run X → Run X → Type 0 where
    loaded :
        {r r' : Run X} (format : ℕ) (text : List ℕ)
        → keymap_run X format text r ≡ done r'
        → Step r r'
    entered :
        {r r' : Run X} (keys : List ℕ)
        → RoomFor X keys r.pressed_keys
        → enter_run X keys r ≡ done r'
        → Step r r'
    pressed :
        {r r' : Run X} (key : ℕ)
        → HasRoom r.pressed_keys (key + 8)
        → key_run X key 1 r ≡ done r'
        → Step r r'
    released : {r r' : Run X} (key : ℕ) → key_run X key 0 r ≡ done r' → Step r r'
    left : {r r' : Run X} → leave_run X r ≡ done r' → Step r r'
    modified :
        {r r' : Run X} (depressed latched locked group : ℕ)
        → ((s : X.State)
            → r.state ≡ some s
            → r.waiting_for_modifiers ≡ true
            → LocksFree X r.pressed_keys
                (changed_leds X r (X.update_mask s depressed latched locked group)))
        → modifiers_run X depressed latched locked group r ≡ done r'
        → Step r r'

  pub data Reach (r : Run X) : Run X → Type 0 where
    here : Reach r r
    next : {r1 r2 : Run X} → Reach r r1 → Step r1 r2 → Reach r r2

  leave_loop-InSync :
      (n i : ℕ) (r r' : Run X) → InSync X r → leave_loop X n i r ≡ done r' → InSync X r'
  unfolding leave_loop
  leave_loop-InSync zero i r r' v e = subst (InSync X) (done-injective e) v
  leave_loop-InSync (suc n) i r r' v e = elim (Option-cases (get_elem? r.pressed_keys i)) [
    | inl out ↦ absurd (cc (rw (out, leave_loop) at e))
    | inr (zero, slot) ↦ leave_loop-InSync n (suc i) r r' v (rw (slot, leave_loop) at e)
    | inr (suc k, slot) ↦
        let (r1, e1, e2) =
          >>=-eq-done (handle_key X r (suc k) false) (leave_loop X n (suc i))
            (rw (slot, leave_loop) at e) in
        leave_loop-InSync n (suc i) r1 r'
          (handle_key-InSync X r r1 (suc k) false v (omega arith) (λ h. absurd (cc h)) e1) e2
  ]

  keymap_run-InSync :
      (format : ℕ) (text : List ℕ) (r r' : Run X)
      → InSync X r
      → keymap_run X format text r ≡ done r'
      → InSync X r'
  unfolding keymap_run set_keymap
  keymap_run-InSync format text r r' v e = elim (Bool-cases (format == 1)) [
    | inl xkb ↦
        let (m, s, same) = load_keymap_inv X text r r' (rw xkb at e) in
        subst (InSync X) same (record { agrees = v.agrees; distinct = v.distinct; whole = v.whole })
    | inr other ↦ subst (InSync X) (done-injective (rw other at e)) v
  ]

  Step-InSync : {r r' : Run X} → Step r r' → InSync X r → InSync X r'
  unfolding enter_run leave_run key_run key_direction
  Step-InSync {r} {r'} (loaded format text e) v = keymap_run-InSync format text r r' v e
  Step-InSync {r} {r'} (entered keys room e) v =
      enter_loop-InSync X keys _ r'
        (record { agrees = v.agrees; distinct = v.distinct; whole = v.whole }) room e
  Step-InSync {r} {r'} (pressed key room e) v =
      handle_key-InSync X r r' (key + 8) true v (omega arith) (λ _. room) e
  Step-InSync {r} {r'} (released key e) v =
      handle_key-InSync X r r' (key + 8) false v (omega arith) (λ h. absurd (cc h)) e
  Step-InSync {r} {r'} (left e) v = leave_loop-InSync pressed_keys_max 0 r r' v e
  Step-InSync {r} {r'} (modified depressed latched locked group free e) v =
      modifiers_run-InSync X depressed latched locked group r r' v free e

  Reach-InSync : {r r' : Run X} → InSync X r → Reach r r' → InSync X r'
  Reach-InSync v here = v
  Reach-InSync v (next reach st) = Step-InSync st (Reach-InSync v reach)

  new_run-InSync : (wl_keyboard seat : ℕ) → InSync X (new_run wl_keyboard seat)
  unfolding new_run
  new_run-InSync wl_keyboard seat = record {
    agrees = λ k hk. down-nil k ∙ sym (held-zeros pressed_keys_max k hk);
    distinct = Distinct-zeros pressed_keys_max;
    whole = length-replicate {A = ℕ} pressed_keys_max 0;
  }

  -- After any history of a new keyboard in which every press found a slot and no lock key was held
  -- when its light changed, the keys that the listener believes to be down are exactly those in the
  -- slots, and each stands in one slot.
  pub Reach-new_run-InSync :
      (wl_keyboard seat : ℕ) (r : Run X) → Reach (new_run wl_keyboard seat) r → InSync X r
  Reach-new_run-InSync wl_keyboard seat r = Reach-InSync (new_run-InSync wl_keyboard seat)

  -- After any history of a new keyboard in which every press found a slot and no lock key was held
  -- when its light changed, once the keymap has come, losing the focus succeeds and leaves the
  -- listener with no key down: no key sticks on the server.
  pub leave_run-none_down :
      (wl_keyboard seat : ℕ) (r : Run X) (s : X.State)
      → Reach (new_run wl_keyboard seat) r
      → r.state ≡ some s
      → (r' : Run X) × (leave_run X r ≡ done r')
        × ((k : ℕ) → k ≢ 0 → down none_down (map (brief X) r'.events) k ≡ false)
  leave_run-none_down wl_keyboard seat r s reach st =
      let v = Reach-new_run-InSync wl_keyboard seat r reach in
      let (r', e, _, free, _, _) = leave_run-Releases X r s st v.whole in
      let v' = Step-InSync (left e) v in
      (r', e, λ k hk. v'.agrees k hk ∙ (rw free (held-zeros pressed_keys_max k hk)))
