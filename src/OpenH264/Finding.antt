-- ===== src/OpenH264/Finding.antt =====
-- The context of a rectangle, found or made.
use wlvncc.Base.{
  ℕ, zero, suc, ◌+◌, ◌<◌, ◌≤◌, ◌≡◌, refl, sym, ap, ◌∙◌, subst, true, false, List, [], ◌∷◌, Option,
  none, some, ◌==◌, leb, get_elem?, set, length, done, Bool-cases, inl, inr, arith, ◌⊎◌, ==_refl,
}
use wlvncc.WlList.{find_first}
use wlvncc.OpenH264.{
  Rect, are_rects_equal, Context, OpenH264, max_contexts, context_at, one_more, find_loop,
  find_context_index, open_h264_context_create, get_context,
}

are_rects_equal_refl : (r : Rect) → are_rects_equal r r ≡ true
are_rects_equal_refl r = rw (==_refl r.x, ==_refl r.y, ==_refl r.w, ==_refl r.h) refl

-- Each of the first `n` pointers leads to a context.
unfoldable pub Backed : List Context → List ℕ → ℕ → Type 0
Backed heap ps zero = Unit {0}
Backed heap [] (suc n) = ⊥
Backed heap (p ∷ ps) (suc n) = ((c : Context) × (context_at heap p ≡ some c)) × Backed heap ps n

-- A pointer to a context of the rectangle.
pub IsFor : Rect → List Context → ℕ → Type 0
IsFor rect heap p =
    (c : Context) × (context_at heap p ≡ some c) × (are_rects_equal c.rect rect ≡ true)

-- None of the first `n` pointers leads to a context of the rectangle.
pub NoneFor : Rect → List Context → List ℕ → ℕ → Type 0
NoneFor rect heap ps n =
    (i p : ℕ) (c : Context)
    → i < n
    → get_elem? ps i ≡ some p
    → context_at heap p ≡ some c
    → are_rects_equal c.rect rect ≡ false

NoneFor-suc :
    (rect : Rect) (heap : List Context) (p : ℕ) (ps : List ℕ) (n : ℕ) (c : Context)
    → context_at heap p ≡ some c
    → are_rects_equal c.rect rect ≡ false
    → NoneFor rect heap ps n
    → NoneFor rect heap (p ∷ ps) (suc n)
unfolding NoneFor
NoneFor-suc rect heap p ps n c found other rest zero q d h e at =
    let same : c ≡ d = cc (found, e, at) in ap (λ k. are_rects_equal k.rect rect) (sym same) ∙ other
NoneFor-suc rect heap p ps n c found other rest (suc i) q d h e at =
    rest i q d (omega (arith, h)) e at

-- The two ways a search ends.
Search : Rect → List Context → List ℕ → ℕ → Type 0
Search rect heap ps n =
    ((find_loop heap ps n rect ≡ done none) × NoneFor rect heap ps n)
    ⊎ ((i : ℕ) × (p : ℕ) × (find_loop heap ps n rect ≡ done (some i))
        × (get_elem? ps i ≡ some p)
        × (i < n)
        × IsFor rect heap p)

find_loop-here :
    (rect : Rect) (heap : List Context) (p : ℕ) (ps : List ℕ) (n : ℕ) (c : Context)
    → context_at heap p ≡ some c
    → are_rects_equal c.rect rect ≡ true
    → find_loop heap (p ∷ ps) (suc n) rect ≡ done (some 0)
unfolding find_loop
find_loop-here rect heap p ps n c found same = rw (found, same) refl

find_loop-past :
    (rect : Rect) (heap : List Context) (p : ℕ) (ps : List ℕ) (n : ℕ) (c : Context) {o : Option ℕ}
    → context_at heap p ≡ some c
    → are_rects_equal c.rect rect ≡ false
    → find_loop heap ps n rect ≡ done o
    → find_loop heap (p ∷ ps) (suc n) rect ≡ done (one_more o)
unfolding find_loop
find_loop-past rect heap p ps n c found other rest = rw (found, other, rest) refl

find_loop-Search :
    (rect : Rect) (heap : List Context) (ps : List ℕ) (n : ℕ)
    → Backed heap ps n
    → Search rect heap ps n
unfolding Backed Search find_loop IsFor NoneFor
find_loop-Search rect heap ps zero b = inl (refl, λ i p c h. absurd (omega (arith, h)))
find_loop-Search rect heap [] (suc n) b = absurd b
find_loop-Search rect heap (p ∷ ps) (suc n) b =
    let (c, found) = b.0 in
    elim (Bool-cases (are_rects_equal c.rect rect)) [
      | inl same ↦
          inr (
            0,
            p,
            find_loop-here rect heap p ps n c found same,
            refl,
            omega arith,
            (c, found, same),
          )
      | inr other ↦ elim (find_loop-Search rect heap ps n b.1) [
        | inl (absent, missing) ↦ inl (
          find_loop-past rect heap p ps n c found other absent,
          NoneFor-suc rect heap p ps n c found other missing,
        )
        | inr (i, q, e, there, below, for) ↦ inr (
          suc i,
          q,
          find_loop-past rect heap p ps n c found other e,
          there,
          omega (arith, below),
          for,
        )
      ]
    ]

context_at-new :
    (heap : List Context) (new : Context) (p : ℕ)
    → (c : Context) × (context_at heap p ≡ some c)
    → (c : Context) × (context_at (new ∷ heap) p ≡ some c)
unfolding context_at find_first
context_at-new heap new p (c, e) = elim (Bool-cases (new.address == p)) [
  | inl hit ↦ (new, rw hit refl)
  | inr miss ↦ (c, rw miss e)
]

Backed-new :
    (heap : List Context) (new : Context) (ps : List ℕ) (n : ℕ)
    → Backed heap ps n
    → Backed (new ∷ heap) ps n
unfolding Backed
Backed-new heap new ps zero b = tt
Backed-new heap new [] (suc n) b = absurd b
Backed-new heap new (p ∷ ps) (suc n) b =
    (context_at-new heap new p b.0, Backed-new heap new ps n b.1)

Backed-set :
    (heap : List Context) (ps : List ℕ) (n address : ℕ)
    → Backed heap ps n
    → n < length ps
    → (c : Context) × (context_at heap address ≡ some c)
    → Backed heap (set ps n address) (suc n)
unfolding Backed
Backed-set heap [] n address b h c = absurd (omega (arith, h))
Backed-set heap (p ∷ ps) zero address b h c = (c, tt)
Backed-set heap (p ∷ ps) (suc n) address b h c =
    (b.0, Backed-set heap ps n address b.1 (omega (arith, h)) c)

-- A pointer of the table to a context of the rectangle: nothing is changed.
pub Found : Rect → OpenH264 → OpenH264 → Option ℕ → Type 0
Found rect s s' o =
    (i p : ℕ) × (i < s.n_contexts)
    × (get_elem? s.contexts i ≡ some p)
    × IsFor rect s.heap p
    × (o ≡ some p)
    × (s' ≡ s)

-- A context that is made and stands at the table's end.
pub Made : ℕ → Rect → OpenH264 → OpenH264 → Option ℕ → Type 0
Made address rect s s' o =
    (s.n_contexts < max_contexts)
    × (o ≡ some address)
    × (s'.contexts ≡ set s.contexts s.n_contexts address)
    × (s'.n_contexts ≡ s.n_contexts + 1)
    × (s'.heap ≡ record { address = address; rect = rect } ∷ s.heap)

-- In a table whose pointers lead to contexts, and where a new context can be made: where a pointer
-- of the table leads to a context of the rectangle, such a pointer is the result and nothing
-- changes; where none does, a context of the rectangle is made and entered at the table's end, or
-- the table is full, there is no result and nothing changes. Every pointer of the table leads to a
-- context afterwards.
pub get_context_lem :
    (address : ℕ) (rect : Rect) (s : OpenH264)
    → Backed s.heap s.contexts s.n_contexts
    → length s.contexts ≡ max_contexts
    → (s' : OpenH264) × (o : Option ℕ) × (get_context (some address) rect s ≡ done (s', o))
      × Backed s'.heap s'.contexts s'.n_contexts
      × (Found rect s s' o
          ⊎ (NoneFor rect s.heap s.contexts s.n_contexts
              × (Made address rect s s' o
                  ⊎ ((max_contexts ≤ s.n_contexts) × (o ≡ none) × (s' ≡ s)))))
unfolding get_context find_context_index Search open_h264_context_create Found Made
get_context_lem address rect s b len =
    elim (find_loop-Search rect s.heap s.contexts s.n_contexts b) [
      | inr (i, p, e, there, below, for) ↦
          (s, some p, rw (e, there) refl, b, inl (i, p, below, there, for, refl, refl))
      | inl (absent, missing) ↦ elim (Bool-cases (leb max_contexts s.n_contexts)) [
        | inl full ↦ (
          s,
          none,
          rw (absent, full) refl,
          b,
          inr (missing, inr (ground (arith, full), refl, refl)),
        )
        | inr room ↦
            let grown : suc s.n_contexts ≡ s.n_contexts + 1 = omega arith in
            let new : Context = record { address = address; rect = rect } in
            let here : context_at (new ∷ s.heap) address ≡ some new =
              unfold context_at find_first in rw (==_refl address) refl in
            (
              record s {
                contexts = set s.contexts s.n_contexts address;
                n_contexts = s.n_contexts + 1;
                heap = new ∷ s.heap;
              },
              some address,
              rw (absent, room) refl,
              subst (Backed (new ∷ s.heap) (set s.contexts s.n_contexts address)) grown (
                  Backed-set (new ∷ s.heap) s.contexts s.n_contexts address
                    (Backed-new s.heap new s.contexts s.n_contexts b) (ground (arith, room, len))
                    (new, here)),
              inr (missing, inl (ground (arith, room), refl, refl, refl, refl)),
            )
      ]
    ]
