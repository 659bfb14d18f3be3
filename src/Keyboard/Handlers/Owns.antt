-- ===== src/Keyboard/Handlers/Owns.antt =====
-- The objects that keyboard.c allocates are those of the keyboards in its list.
use wlvncc.Base.{
  ℕ, suc, ◌+◌, ◌-◌, ◌≤◌, ◌≡◌, refl, sym, ap, ◌∙◌, List, [], ◌∷◌, some, ◌==◌, length, arith,
  Bool-cases, inl, inr, if_cases,
}
use wlvncc.Xkb.{Xkb}
use wlvncc.Keyboard.{Keyboard}
use wlvncc.Keyboard.Handlers.{Collection, Live, counts, find_wl_keyboard, write_back}

module _ (X : Xkb) where
  abbrev pub total : (Keyboard X → ℕ) → List (Keyboard X) → ℕ
  total m [] = 0
  total m (k ∷ ks) = m k + total m ks

  abbrev pub keymaps_of : Keyboard X → ℕ
  keymaps_of k = counts k.keymap

  abbrev pub states_of : Keyboard X → ℕ
  states_of k = counts k.state

  -- Each keyboard in the list has its context and its proxy, and a keymap and a state if the
  -- compositor sent one; nothing else is allocated.
  pub record Owns (ks : List (Keyboard X)) (l : Live) : Type 0 where
    pub keyboards : l.keyboards ≡ length ks
    pub contexts : l.contexts ≡ length ks
    pub keymaps : l.keymaps ≡ total keymaps_of ks
    pub states : l.states ≡ total states_of ks
    pub wl_keyboards : l.wl_keyboards ≡ length ks

  abbrev pub Balanced : Collection X → Type 0
  Balanced c = Owns c.keyboards c.live

  total-write_back :
      (m : Keyboard X → ℕ) (ks : List (Keyboard X)) (w : ℕ) (k k' : Keyboard X)
      → find_wl_keyboard X ks w ≡ some k
      → total m (write_back X ks w k') + m k ≡ total m ks + m k'
  unfolding find_wl_keyboard write_back
  total-write_back m [] w k k' e = cc
  total-write_back m (q ∷ ks) w k k' e = elim (Bool-cases (q.wl_keyboard == w)) [
    | inl hit ↦ let found : q ≡ k = cc (rw hit at e) in rw hit (omega (arith, ap m found))
    | inr miss ↦ rw miss (omega (arith, total-write_back m ks w k k' (rw miss at e)))
  ]

  length-write_back :
      (ks : List (Keyboard X)) (w : ℕ) (k' : Keyboard X) → length (write_back X ks w k') ≡ length ks
  unfolding write_back
  length-write_back [] w k' = refl
  length-write_back (q ∷ ks) w k' =
      if_cases {A = List (Keyboard X)} (λ l. length l ≡ suc (length ks)) (q.wl_keyboard == w) refl
        (ap (λ (n : ℕ). suc n) (length-write_back ks w k'))

  -- A keyboard is replaced by one with the same objects.
  pub Owns-write_back :
      (ks : List (Keyboard X)) (l : Live) (w : ℕ) (k k' : Keyboard X)
      → find_wl_keyboard X ks w ≡ some k
      → counts k'.keymap ≡ counts k.keymap
      → counts k'.state ≡ counts k.state
      → Owns ks l
      → Owns (write_back X ks w k') l
  Owns-write_back ks l w k k' e km st v =
      let n = length-write_back ks w k' in
      record {
        keyboards = v.keyboards ∙ sym n;
        contexts = v.contexts ∙ sym n;
        keymaps = omega (arith, total-write_back keymaps_of ks w k k' e, km, v.keymaps);
        states = omega (arith, total-write_back states_of ks w k k' e, st, v.states);
        wl_keyboards = v.wl_keyboards ∙ sym n;
      }

  pub m-le-total :
      (m : Keyboard X → ℕ) (ks : List (Keyboard X)) (w : ℕ) (k : Keyboard X)
      → find_wl_keyboard X ks w ≡ some k
      → m k + 0 ≤ total m ks
  unfolding find_wl_keyboard
  m-le-total m [] w k e = cc
  m-le-total m (q ∷ ks) w k e = elim (Bool-cases (q.wl_keyboard == w)) [
    | inl hit ↦ let found : q ≡ k = cc (rw hit at e) in omega (arith, ap m found)
    | inr miss ↦ omega (arith, m-le-total m ks w k (rw miss at e))
  ]

  -- A keyboard with a keymap and a state in place of what it had.
  pub Owns-load :
      (c : Collection X) (k : Keyboard X) (w : ℕ) (m : X.Keymap) (s : X.State)
      → find_wl_keyboard X c.keyboards w ≡ some k
      → Balanced c
      → Owns
          (write_back X c.keyboards w (record k { keymap = some m; state = some s }))
          (record (c.live) {
            keymaps = c.live.keymaps - counts k.keymap + 1;
            states = c.live.states - counts k.state + 1;
          })
  Owns-load c k w m s found v =
      let k' : Keyboard X = record k { keymap = some m; state = some s } in
      let n = length-write_back c.keyboards w k' in
      record {
        keyboards = v.keyboards ∙ sym n;
        contexts = v.contexts ∙ sym n;
        keymaps = omega (
          arith,
          total-write_back keymaps_of c.keyboards w k k' found,
          m-le-total keymaps_of c.keyboards w k found,
          v.keymaps,
        );
        states = omega (
          arith,
          total-write_back states_of c.keyboards w k k' found,
          m-le-total states_of c.keyboards w k found,
          v.states,
        );
        wl_keyboards = v.wl_keyboards ∙ sym n;
      }
