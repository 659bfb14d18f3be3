-- ===== src/Keyboard/Leaving.antt =====
-- keyboard_leave: what the loop over the slots does, whatever they hold.
use wlvncc.Base.{
  ℕ, zero, suc, ◌+◌, ◌≡◌, refl, sym, ap, ◌∙◌, subst, Bool, true, false, List, [], ◌∷◌, ◌++◌, map,
  some, length, get_elem?, set, replicate, select, arith, Outcome, done,
}
use mathlib.Core.List.{append-nil, append_assoc, map-append}
use wlvncc.Xkb.{Xkb}
use wlvncc.Keyboard.{
  KeyEvent, Run, get_pressed_key, remove_pressed_key, handled, handle_key, leave_loop, leave_run,
  pressed_keys_max,
}

abbrev pub is_used : ℕ → Bool
is_used zero = false
is_used (suc k) = true

get_elem?-zeros : (i x : ℕ) (xs : List ℕ) → get_elem? (replicate i 0 ++ x ∷ xs) i ≡ some x
get_elem?-zeros zero x xs = refl
get_elem?-zeros (suc i) x xs = get_elem?-zeros i x xs

get_pressed_key-zeros :
    (i k : ℕ) (xs : List ℕ) → get_pressed_key (replicate i 0 ++ suc k ∷ xs) (suc k) ≡ some i
unfolding get_pressed_key
get_pressed_key-zeros zero k xs = ground arith
get_pressed_key-zeros (suc i) k xs = ground (arith, get_pressed_key-zeros i k xs)

set-zeros : (i x : ℕ) (xs : List ℕ) → set (replicate i 0 ++ x ∷ xs) i 0 ≡ replicate i 0 ++ 0 ∷ xs
set-zeros zero x xs = refl
set-zeros (suc i) x xs = ap (λ l. 0 ∷ l) (set-zeros i x xs)

zeros-shift : (i : ℕ) (xs : List ℕ) → replicate i 0 ++ 0 ∷ xs ≡ replicate (suc i) 0 ++ xs
zeros-shift zero xs = refl
zeros-shift (suc i) xs = ap (λ l. 0 ∷ l) (zeros-shift i xs)

-- With free slots in front, the first slot that holds the key is the next one.
remove_pressed_key-zeros :
    (i k : ℕ) (xs : List ℕ)
    → remove_pressed_key (replicate i 0 ++ suc k ∷ xs) (suc k) ≡ replicate (suc i) 0 ++ xs
unfolding remove_pressed_key
remove_pressed_key-zeros i k xs =
    rw (get_pressed_key-zeros i k xs, remove_pressed_key)
      (set-zeros i (suc k) xs ∙ zeros-shift i xs)

module _ (X : Xkb) where
  abbrev pub brief : KeyEvent X → ℕ × Bool
  brief e = (e.key, e.is_pressed)

  pub handle_key_lem :
      (r : Run X) (s : X.State) (key : ℕ) (dir : Bool)
      → r.state ≡ some s
      → handle_key X r key dir ≡ done (handled X r s key dir)
  unfolding handle_key
  handle_key_lem r s key dir e = rw e

  -- The run after the release of every key that stands in `slots`.
  abbrev pub Releases : Run X → List ℕ → ℕ → Outcome (Run X) → Type 0
  Releases r slots n o =
      (r' : Run X) × (o ≡ done r')
      × (map brief r'.events ≡ map brief r.events ++ map (λ k. (k, false)) (select is_used slots))
      × (r'.pressed_keys ≡ replicate n 0)
      × (r'.led_state ≡ r.led_state)
      × (r'.waiting_for_modifiers ≡ r.waiting_for_modifiers)

  pub handled-brief :
      (r : Run X) (s : X.State) (key : ℕ) (dir : Bool)
      → map brief (handled X r s key dir).events ≡ map brief r.events ++ (key, dir) ∷ []
  unfolding handled
  handled-brief r s key dir = map-append brief r.events _

  -- One release, and then those of `slots`.
  Releases-cons :
      (r : Run X) (s : X.State) (k n : ℕ) (slots : List ℕ) (o : Outcome (Run X))
      → Releases (handled X r s (suc k) false) slots n o
      → Releases r (suc k ∷ slots) n o
  unfolding handled
  Releases-cons r s k n slots o (r', e, ev, pk, ls, w) = (
    r',
    e,
    ev ∙ (rw (handled-brief r s (suc k) false) (append_assoc (map brief r.events) _ _)),
    pk,
    ls,
    w,
  )

  leave_loop-Releases :
      (slots : List ℕ) (i n : ℕ) (r : Run X) (s : X.State)
      → r.state ≡ some s
      → r.pressed_keys ≡ replicate i 0 ++ slots
      → i + length slots ≡ n
      → Releases r slots n (leave_loop X (length slots) i r)
  unfolding leave_loop
  leave_loop-Releases [] i n r s st e h = (
    r,
    refl,
    sym (append-nil _),
    e ∙ append-nil _ ∙ ap (λ (m : ℕ). replicate m 0) (omega arith),
    refl,
    refl,
  )
  leave_loop-Releases (zero ∷ xs) i n r s st e h =
      rw (e, get_elem?-zeros i 0 xs, leave_loop)
        (leave_loop-Releases xs (suc i) n r s st (e ∙ zeros-shift i xs) (omega arith))
  leave_loop-Releases (suc k ∷ xs) i n r s st e h =
      rw (e, get_elem?-zeros i (suc k) xs, leave_loop)
        (rw (handle_key_lem r s (suc k) false st) (
          Releases-cons r s k n xs _ (
            leave_loop-Releases xs (suc i) n (handled X r s (suc k) false)
              (X.update_key s (suc k) false) (unfold handled in refl)
              (unfold handled in
                ap (λ l. remove_pressed_key l (suc k)) e ∙ remove_pressed_key-zeros i k xs)
              (omega arith))))

  -- Losing the focus releases every key that is held, each once and in the order of its slot, tells
  -- the listener so, leaves every slot free, and touches neither the lights nor the waiting flag.
  -- It needs the keymap to have come, and the array its 256 slots.
  pub leave_run-Releases :
      (r : Run X) (s : X.State)
      → r.state ≡ some s
      → length r.pressed_keys ≡ pressed_keys_max
      → Releases r r.pressed_keys pressed_keys_max (leave_run X r)
  unfolding leave_run
  leave_run-Releases r s st h =
      subst (λ n. Releases r r.pressed_keys pressed_keys_max (leave_loop X n 0 r)) h
        (leave_loop-Releases r.pressed_keys 0 pressed_keys_max r s st refl (omega arith))
