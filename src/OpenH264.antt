-- ===== src/OpenH264.antt =====
-- src/open-h264.c: the table of decoder contexts, one for each rectangle of video. The decoder is
-- libavcodec's and stands outside; whether a context can be made is an argument.
pub mod Finding
pub mod Runs
use wlvncc.Base.{
  ℕ, zero, suc, ◌+◌, ◌-◌, ◌*◌, ◌/◌, ◌%◌, ◌^◌, Bool, true, false, ◌&&◌, List, [], ◌∷◌, ◌++◌, Option,
  none, some, ◌==◌, ltb, leb, if◌then◌else◌, get_elem?, set, Outcome, done, fault, ◌>>=◌, deref,
}
use wlvncc.WlList.{find_first, remove_first}

abbrev pub max_contexts : ℕ
max_contexts = 64

pub record Rect : Type 0 where
  pub x : ℕ
  pub y : ℕ
  pub w : ℕ
  pub h : ℕ

abbrev pub are_rects_equal : Rect → Rect → Bool
are_rects_equal a b = (a.x == b.x && a.y == b.y) && (a.w == b.w && a.h == b.h)

-- A context that is allocated: its address and its rectangle.
pub record Context : Type 0 where
  pub address : ℕ
  pub rect : Rect

-- The array of pointers, of which 0 is null, and the contexts that are allocated.
pub record OpenH264 : Type 0 where
  pub contexts : List ℕ
  pub n_contexts : ℕ
  pub heap : List Context

unfoldable pub context_at : List Context → ℕ → Option Context
context_at heap address = find_first (λ c. c.address == address) heap

abbrev pub one_more : Option ℕ → Option ℕ
one_more none = none
one_more (some i) = some (suc i)

-- The search through the first `n` pointers; `none` where the source returns -1.
unfoldable pub find_loop : List Context → List ℕ → ℕ → Rect → Outcome (Option ℕ)
unfolding context_at
find_loop heap ps zero rect = done none
find_loop heap [] (suc n) rect = fault
find_loop heap (p ∷ ps) (suc n) rect =
    let rest = find_loop heap ps n rect in
    deref (context_at heap p) >>= λ c.
    if are_rects_equal c.rect rect then done (some 0) else (rest >>= λ o. done (one_more o))

unfoldable pub find_context_index : OpenH264 → Rect → Outcome (Option ℕ)
unfolding find_loop
find_context_index s rect = find_loop s.heap s.contexts s.n_contexts rect

-- `made` is the address of the new context, if every call that makes it succeeds; a call that fails
-- gives back what the others took.
unfoldable pub open_h264_context_create : Option ℕ → Rect → OpenH264 → OpenH264 × Option ℕ
open_h264_context_create none rect s = (s, none)
open_h264_context_create (some address) rect s =
    if leb max_contexts s.n_contexts then (s, none) else (
      record s {
        contexts = set s.contexts s.n_contexts address;
        n_contexts = s.n_contexts + 1;
        heap = record { address = address; rect = rect } ∷ s.heap;
      },
      some address,
    )

unfoldable pub get_context : Option ℕ → Rect → OpenH264 → Outcome (OpenH264 × Option ℕ)
unfolding find_context_index open_h264_context_create
get_context made rect s = find_context_index s rect >>= λ o. elim o [
  | some i ↦ done (s, get_elem? s.contexts i)
  | none ↦ done (open_h264_context_create made rect s)
]

-- The memory of a context is given back.
unfoldable pub open_h264_context_destroy : ℕ → OpenH264 → Outcome OpenH264
unfolding context_at
open_h264_context_destroy address s = deref (context_at s.heap address) >>= λ _.
    done (record s { heap = remove_first (λ c. c.address == address) s.heap })

-- memmove of `k` bytes over an array of little-endian 64-bit pointers, from the second one on to the
-- first: whole pointers, and of the next one the low bytes.
unfoldable pub move_bytes : ℕ → List ℕ → List ℕ
move_bytes k [] = []
move_bytes k (p ∷ []) = p ∷ []
move_bytes k (p ∷ q ∷ ps) =
    let rest = move_bytes (k - 8) (q ∷ ps) in
    if leb 8 k then q ∷ rest else (p / 256 ^ k * 256 ^ k + q % 256 ^ k) ∷ q ∷ ps

unfoldable pub move_from : ℕ → ℕ → List ℕ → List ℕ
unfolding move_bytes
move_from zero k ps = move_bytes k ps
move_from (suc i) k [] = []
move_from (suc i) k (p ∷ ps) = p ∷ move_from i k ps

-- The number of bytes is that of the pointers that are to be moved.
unfoldable pub drop_context : ℕ → OpenH264 → OpenH264
unfolding move_from
drop_context i s =
    let n = s.n_contexts - 1 in
    record s { contexts = move_from i (n - i) s.contexts; n_contexts = n }

unfoldable pub reset_context : Rect → OpenH264 → Outcome OpenH264
unfolding find_context_index open_h264_context_destroy drop_context
reset_context rect s = find_context_index s rect >>= λ o. elim o [
  | none ↦ done s
  | some i ↦ deref (get_elem? s.contexts i) >>= λ p.
      open_h264_context_destroy p s >>= λ s'. done (drop_context i s')
]

-- The contexts from `i` on, `n` of them, are destroyed and their pointers made null; the number of
-- contexts stays.
unfoldable pub reset_loop : ℕ → ℕ → OpenH264 → Outcome OpenH264
unfolding open_h264_context_destroy
reset_loop zero i s = done s
reset_loop (suc n) i s = deref (get_elem? s.contexts i) >>= λ p.
    open_h264_context_destroy p s >>= λ s'.
    reset_loop n (suc i) (record s' { contexts = set s'.contexts i 0 })

unfoldable pub reset_all_contexts : OpenH264 → Outcome OpenH264
unfolding reset_loop
reset_all_contexts s = reset_loop s.n_contexts 0 s
