-- ===== src/Keyboard/Handlers/Balance.antt =====
-- Histories of the collection: what it owns at each moment, and after its destruction.
use wlvncc.Base.{
  ℕ, zero, suc, ◌+◌, ◌-◌, ◌≤◌, ◌≡◌, refl, sym, ap, ◌∙◌, Bool, true, false, List, [], ◌∷◌, Option,
  some, ◌==◌, if◌then◌else◌, arith, Outcome, done, assert_found, deref, >>=-eq-done, deref-eq-done,
  assert_found-eq-done, done-injective, Option-cases, Bool-cases, inl, inr, get_elem?, subst,
}
use wlvncc.Xkb.{Xkb}
use wlvncc.Keyboard.{
  Keyboard, keyboard_new, Run, handled, handle_key, enter_loop, enter_run, leave_loop, leave_run,
  key_run, modifiers_run, keymap_run, set_keymap, set_leds, set_state, pressed_keys_max,
  key_direction,
}
use wlvncc.Keyboard.Leds.{sync_led_state-keyboard}
use wlvncc.Keyboard.Server.{handle_key_inv, load_keymap_inv}
use wlvncc.Keyboard.Handlers.{
  give_back, Collection, Live, counts, collection_new, nothing_live, find_wl_keyboard, write_back,
  add_wl_keyboard, on_keyboard, keyboard_enter, keyboard_leave, keyboard_key, keyboard_modifiers,
  keyboard_keymap, reloaded, keyboard_destroy, collection_destroy,
}
use wlvncc.Keyboard.Handlers.Owns.{
  m-le-total, keymaps_of, states_of, Owns, Balanced, Owns-write_back, Owns-load,
}

give_back-done : (n have : ℕ) → n ≤ have → give_back n have ≡ done (have - n)
unfolding give_back
give_back-done zero zero h = ap done (omega arith)
give_back-done (suc n) zero h = absurd (omega (arith, h))
give_back-done zero (suc have) h = ap done (omega arith)
give_back-done (suc n) (suc have) h =
    give_back-done n have (omega (arith, h)) ∙ ap done (omega arith)

module _ (X : Xkb) where
  abbrev Keeps : Run X → Run X → Type 0
  Keeps r r' = (counts r'.keymap ≡ counts r.keymap) × (counts r'.state ≡ counts r.state)

  Keeps-trans : (r1 r2 r3 : Run X) → Keeps r1 r2 → Keeps r2 r3 → Keeps r1 r3
  Keeps-trans r1 r2 r3 p q = (q.0 ∙ p.0, q.1 ∙ p.1)

  handle_key-Keeps :
      (r r' : Run X) (key : ℕ) (dir : Bool) → handle_key X r key dir ≡ done r' → Keeps r r'
  handle_key-Keeps r r' key dir e =
      let (s, st, same) = handle_key_inv X r r' key dir e in
      subst (Keeps r) same (unfold handled in (refl, sym (ap counts st)))

  enter_loop-Keeps : (keys : List ℕ) (r r' : Run X) → enter_loop X keys r ≡ done r' → Keeps r r'
  unfolding enter_loop
  enter_loop-Keeps [] r r' e = subst (Keeps r) (done-injective e) (refl, refl)
  enter_loop-Keeps (key ∷ keys) r r' e =
      let (r1, e1, e2) = >>=-eq-done (handle_key X r (key + 8) true) (enter_loop X keys) e in
      Keeps-trans r r1 r' (handle_key-Keeps r r1 (key + 8) true e1) (enter_loop-Keeps keys r1 r' e2)

  leave_loop-Keeps : (n i : ℕ) (r r' : Run X) → leave_loop X n i r ≡ done r' → Keeps r r'
  unfolding leave_loop
  leave_loop-Keeps zero i r r' e = subst (Keeps r) (done-injective e) (refl, refl)
  leave_loop-Keeps (suc n) i r r' e = elim (Option-cases (get_elem? r.pressed_keys i)) [
    | inl out ↦ absurd (cc (rw (out, leave_loop) at e))
    | inr (zero, slot) ↦ leave_loop-Keeps n (suc i) r r' (rw (slot, leave_loop) at e)
    | inr (suc k, slot) ↦
        let (r1, e1, e2) =
          >>=-eq-done (handle_key X r (suc k) false) (leave_loop X n (suc i))
            (rw (slot, leave_loop) at e) in
        Keeps-trans r r1 r' (handle_key-Keeps r r1 (suc k) false e1)
          (leave_loop-Keeps n (suc i) r1 r' e2)
  ]

  modifiers_run-Keeps :
      (depressed latched locked group : ℕ) (r r' : Run X)
      → modifiers_run X depressed latched locked group r ≡ done r'
      → Keeps r r'
  unfolding modifiers_run set_state set_leds
  modifiers_run-Keeps depressed latched locked group r r' e =
      let (s, st, e') = >>=-eq-done (deref r.state) _ e in
      let s' = X.update_mask s depressed latched locked group in
      let k = sync_led_state-keyboard X (set_state X r s') s' in
      subst (Keeps r) (done-injective e') (
        ap (λ (q : Keyboard X). counts q.keymap) k,
        ap (λ (q : Keyboard X). counts q.state) k ∙ sym (ap counts (deref-eq-done r.state st)),
      )

  on_keyboard-Balanced :
      (lookup : Option (Keyboard X) → Outcome (Keyboard X)) (c c' : Collection X) (w : ℕ)
      (f : Run X → Outcome (Run X))
      → ((o : Option (Keyboard X)) (k : Keyboard X) → lookup o ≡ done k → o ≡ some k)
      → ((r r' : Run X) → f r ≡ done r' → Keeps r r')
      → Balanced X c
      → on_keyboard X lookup c w f ≡ done c'
      → Balanced X c'
  unfolding on_keyboard
  on_keyboard-Balanced lookup c c' w f found keeps v e =
      let (k, e1, e2) = >>=-eq-done (lookup (find_wl_keyboard X c.keyboards w)) _ e in
      let (r', e3, e4) = >>=-eq-done (f (record { keyboard = k; events = c.events })) _ e2 in
      let (km, st) = keeps _ r' e3 in
      subst (Balanced X) (done-injective e4)
        (Owns-write_back X c.keyboards c.live w k r'.keyboard (found _ k e1) km st v)

  -- wl_seat_get_keyboard creates a proxy, and the keyboard is added.
  abbrev pub plugged : Collection X → ℕ → ℕ → Collection X
  plugged c w seat =
      (add_wl_keyboard X
        (record c { live = record (c.live) { wl_keyboards = c.live.wl_keyboards + 1 } }) w seat
        true).0

  -- What the compositor may send to the collection. A keyboard's proxy is created just before it
  -- is added.
  pub data Step : Collection X → Collection X → Type 0 where
    added : {c c' : Collection X} (w seat : ℕ) → c' ≡ plugged c w seat → Step c c'
    keymap :
        {c c' : Collection X} (w format : ℕ) (text : List ℕ)
        → keyboard_keymap X c w format text ≡ done c'
        → Step c c'
    entered :
        {c c' : Collection X} (w : ℕ) (keys : List ℕ)
        → keyboard_enter X c w keys ≡ done c'
        → Step c c'
    left : {c c' : Collection X} (w : ℕ) → keyboard_leave X c w ≡ done c' → Step c c'
    key : {c c' : Collection X} (w k state : ℕ) → keyboard_key X c w k state ≡ done c' → Step c c'
    modifiers :
        {c c' : Collection X} (w depressed latched locked group : ℕ)
        → keyboard_modifiers X c w depressed latched locked group ≡ done c'
        → Step c c'

  pub data Reach (c : Collection X) : Collection X → Type 0 where
    here : Reach c c
    next : {c1 c2 : Collection X} → Reach c c1 → Step c1 c2 → Reach c c2

  -- What keyboard_keymap makes of the collection when its run ends in `r`.
  abbrev with_keymap : Collection X → ℕ → Live → Run X → Collection X
  with_keymap c w live r = record {
    keyboards = write_back X c.keyboards w r.keyboard;
    events = r.events;
    live = live;
  }

  abbrev loaded : Collection X → Keyboard X → Live
  loaded c k = record (c.live) {
    keymaps = c.live.keymaps - counts k.keymap + 1;
    states = c.live.states - counts k.state + 1;
  }

  reloaded-done :
      (c : Collection X) (w : ℕ) (k : Keyboard X)
      → Balanced X c
      → find_wl_keyboard X c.keyboards w ≡ some k
      → reloaded X c.live k ≡ done (loaded c k)
  unfolding reloaded
  reloaded-done c w k v found =
      let m = m-le-total X (keymaps_of X) c.keyboards w k found in
      let s = m-le-total X (states_of X) c.keyboards w k found in
      rw
        (
          give_back-done (counts k.keymap) c.live.keymaps (omega (arith, m, v.keymaps)),
          give_back-done (counts k.state) c.live.states (omega (arith, s, v.states)),
        )
        refl

  with_keymap-Balanced :
      (c : Collection X) (w format : ℕ) (text : List ℕ) (k : Keyboard X) (r : Run X) (live : Live)
      → Balanced X c
      → find_wl_keyboard X c.keyboards w ≡ some k
      → keymap_run X format text (record { keyboard = k; events = c.events }) ≡ done r
      → (if format == 1 then reloaded X c.live k else done c.live) ≡ done live
      → Balanced X (with_keymap c w live r)
  unfolding keymap_run
  with_keymap-Balanced c w format text k r live v found e l = elim (Bool-cases (format == 1)) [
    | inl xkb ↦
        let (m, s, same) = load_keymap_inv X text _ r (rw xkb at e) in
        let now = sym (reloaded-done c w k v found) ∙ rw xkb at l in
        subst (λ (q : Live). Balanced X (with_keymap c w q r)) (done-injective now)
          (subst (λ (q : Run X). Balanced X (with_keymap c w (loaded c k) q)) same
            (unfold set_keymap in (Owns-load X c k w m s found v)))
    | inr other ↦
        subst (λ (q : Live). Balanced X (with_keymap c w q r)) (done-injective (rw other at l))
          (subst (λ (q : Run X). Balanced X (with_keymap c w c.live q))
            (done-injective (rw other at e))
            (Owns-write_back X c.keyboards c.live w k k found refl refl v))
  ]

  keyboard_keymap-Balanced :
      (c c' : Collection X) (w format : ℕ) (text : List ℕ)
      → Balanced X c
      → keyboard_keymap X c w format text ≡ done c'
      → Balanced X c'
  unfolding keyboard_keymap
  keyboard_keymap-Balanced c c' w format text v e =
      let (k, e1, e2) = >>=-eq-done (assert_found (find_wl_keyboard X c.keyboards w)) _ e in
      let found = assert_found-eq-done (find_wl_keyboard X c.keyboards w) e1 in
      let (r, e3, e4) = >>=-eq-done (keymap_run X format text _) _ e2 in
      let (live, e5, e6) =
        >>=-eq-done (if format == 1 then reloaded X c.live k else done c.live) _ e4 in
      subst (Balanced X) (done-injective e6)
        (with_keymap-Balanced c w format text k r live v found e3 e5)

  added-Balanced :
      (c c' : Collection X) (w seat : ℕ) → Balanced X c → c' ≡ plugged c w seat → Balanced X c'
  unfolding add_wl_keyboard keyboard_new
  added-Balanced c c' w seat v e = subst (Balanced X) (sym e) (record {
    keyboards = omega (arith, v.keyboards);
    contexts = omega (arith, v.contexts);
    keymaps = omega (arith, v.keymaps);
    states = omega (arith, v.states);
    wl_keyboards = omega (arith, v.wl_keyboards);
  })

  Step-Balanced : {c c' : Collection X} → Step c c' → Balanced X c → Balanced X c'
  unfolding keyboard_enter keyboard_leave keyboard_key keyboard_modifiers enter_run leave_run
      key_run
  Step-Balanced {c} {c'} (added w seat e) v = added-Balanced c c' w seat v e
  Step-Balanced {c} {c'} (keymap w format text e) v =
      keyboard_keymap-Balanced c c' w format text v e
  Step-Balanced {c} {c'} (entered w keys e) v =
      on_keyboard-Balanced deref c c' w (enter_run X keys) (λ o k. deref-eq-done o)
        (λ r r' h. enter_loop-Keeps keys _ r' h) v e
  Step-Balanced {c} {c'} (left w e) v =
      on_keyboard-Balanced deref c c' w (leave_run X) (λ o k. deref-eq-done o)
        (λ r r' h. leave_loop-Keeps pressed_keys_max 0 r r' h) v e
  Step-Balanced {c} {c'} (key w k state e) v =
      on_keyboard-Balanced assert_found c c' w (key_run X k state) (λ o q. assert_found-eq-done o)
        (λ r r' h.
          let (dir, _, h') = >>=-eq-done (key_direction X state) _ h in
          handle_key-Keeps r r' (k + 8) dir h')
        v e
  Step-Balanced {c} {c'} (modifiers w depressed latched locked group e) v =
      on_keyboard-Balanced assert_found c c' w (modifiers_run X depressed latched locked group)
        (λ o k. assert_found-eq-done o) (modifiers_run-Keeps depressed latched locked group) v e

  Reach-Balanced : {c c' : Collection X} → Balanced X c → Reach c c' → Balanced X c'
  Reach-Balanced v here = v
  Reach-Balanced v (next reach st) = Step-Balanced st (Reach-Balanced v reach)

  keyboard_destroy-done :
      (k : Keyboard X) (ks : List (Keyboard X)) (l : Live)
      → Owns X (k ∷ ks) l
      → (l' : Live) × (keyboard_destroy X l k ≡ done l') × Owns X ks l'
  unfolding keyboard_destroy
  keyboard_destroy-done k ks l v = (
    record {
      keyboards = l.keyboards - 1;
      contexts = l.contexts - 1;
      keymaps = l.keymaps - counts k.keymap;
      states = l.states - counts k.state;
      wl_keyboards = l.wl_keyboards - 1;
    },
    rw
        (
          give_back-done (counts k.state) l.states (omega (arith, v.states)),
          give_back-done (counts k.keymap) l.keymaps (omega (arith, v.keymaps)),
          give_back-done 1 l.contexts (omega (arith, v.contexts)),
          give_back-done 1 l.wl_keyboards (omega (arith, v.wl_keyboards)),
          give_back-done 1 l.keyboards (omega (arith, v.keyboards)),
        )
        refl,
    record {
      keyboards = omega (arith, v.keyboards);
      contexts = omega (arith, v.contexts);
      keymaps = omega (arith, v.keymaps);
      states = omega (arith, v.states);
      wl_keyboards = omega (arith, v.wl_keyboards);
    },
  )

  none_left : (l : Live) → Owns X [] l → l ≡ nothing_live
  none_left l v = ground arith

  collection_destroy-Owns :
      (ks : List (Keyboard X)) (l : Live)
      → Owns X ks l
      → collection_destroy X ks l ≡ done nothing_live
  unfolding collection_destroy
  collection_destroy-Owns [] l v = ap done (none_left l v)
  collection_destroy-Owns (k ∷ ks) l v =
      let (l', e, rest) = keyboard_destroy-done k ks l v in
      rw e (collection_destroy-Owns ks l' rest)

  -- Whatever the compositor sent, destroying the collection gives back every keyboard, context,
  -- keymap, state and proxy that was allocated, and none of them twice.
  pub collection_destroy-nothing_live :
      (c : Collection X)
      → Reach (collection_new X) c
      → collection_destroy X c.keyboards c.live ≡ done nothing_live
  unfolding collection_new
  collection_destroy-nothing_live c reach =
      collection_destroy-Owns c.keyboards c.live (Reach-Balanced (omega arith) reach)
