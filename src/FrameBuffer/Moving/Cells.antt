-- ===== src/FrameBuffer/Moving/Cells.antt =====
-- A row of the framebuffer is moved, cell by cell (src/vncviewer.c).
use wlvncc.Base.{
  ℕ, zero, suc, ◌+◌, ◌*◌, ◌≤◌, ◌<◌, ◌≡◌, refl, ap, subst, ◌≢◌, ◌∙◌, ◌⊎◌, Bool, true, false, ltb,
  Bool-cases, inl, inr, done, arith,
}
use wlvncc.FrameBuffer.{FrameBuffer, move_up, move_down, move_row}
use wlvncc.FrameBuffer.Filling.{
  Run, Run-suc, written, put-written, cells-written_self, cells-written_other,
}

-- Where the cells of a row come from when the row is moved from its first column on: the source
-- does not start before the destination, or it ends where the destination begins.
abbrev pub Upward : ℕ → ℕ → ℕ → Type 0
Upward n dest src = (dest ≤ src) ⊎ (src + n ≤ dest)

abbrev pub Downward : ℕ → ℕ → ℕ → Type 0
Downward n dest src = (src ≤ dest) ⊎ (dest + n ≤ src)

pub Run-suc_last :
    (n k : ℕ) (value : ℕ → ℕ) (fb fb' : FrameBuffer)
    → Run n k value (written (k + n) (value n) fb) fb'
    → Run (suc n) k value fb fb'
Run-suc_last n k value fb fb' r = record {
  inside = inside;
  before = λ c lt. r.before c lt ∙ cells-written_other (k + n) (value n) c fb (ground (arith, lt));
  after = λ c le.
      r.after c (omega (arith, le))
      ∙ cells-written_other (k + n) (value n) c fb (ground (arith, le));
  width = r.width ∙ (unfold written in refl);
  height = r.height ∙ (unfold written in refl);
}
  where
    inside : (i : ℕ) → i < suc n → fb'.cells (k + i) ≡ value i
    inside i lt = elim (Bool-cases (ltb i n)) [
      | inl early ↦ r.inside i (ground (arith, early))
      | inr last ↦
          let e : i ≡ n = ground (arith, last, lt) in
          rw e (r.after (k + n) (omega arith) ∙ cells-written_self (k + n) (value n) fb)
    ]

pub Run-of :
    (n k : ℕ) (value value' : ℕ → ℕ) (fb fb' : FrameBuffer)
    → ((i : ℕ) → i < n → value i ≡ value' i)
    → Run n k value fb fb'
    → Run n k value' fb fb'
Run-of n k value value' fb fb' same r = record {
  inside = λ i lt. r.inside i lt ∙ same i lt;
  before = r.before;
  after = r.after;
  width = r.width;
  height = r.height;
}

-- The cells that are still to be read are not the one that has been written.
pub up_next :
    (n dest src : ℕ) (fb fb' : FrameBuffer)
    → Upward (suc n) dest src
    → Run n
        (suc dest)
        (λ i. (written dest (fb.cells src) fb).cells (suc src + i))
        (written dest (fb.cells src) fb)
        fb'
    → Run (suc n) dest (λ i. fb.cells (src + i)) fb fb'
up_next n dest src fb fb' d r =
    let e : src ≡ src + 0 = omega arith in
    let unread = λ (i : ℕ) (lt : i < n).
      ap (written dest (fb.cells src) fb).cells (next i)
      ∙ cells-written_other dest (fb.cells src) (src + suc i) fb (apart d i lt) in
    Run-suc n dest (λ i. fb.cells (src + i)) fb fb'
      (subst
        (λ t. Run n (suc dest) (λ i. fb.cells (src + suc i)) (written dest (fb.cells t) fb) fb') e
        (Run-of n (suc dest) _ (λ i. fb.cells (src + suc i)) (written dest (fb.cells src) fb) fb'
          unread r))
  where
    next : (i : ℕ) → suc src + i ≡ src + suc i
    next i = omega arith

    apart : Upward (suc n) dest src → (i : ℕ) → i < n → src + suc i ≢ dest
    apart (inl le) i lt e = omega (arith, le, lt, e)
    apart (inr le) i lt e = omega (arith, le, lt, e)

pub down_next :
    (n dest src : ℕ) (fb fb' : FrameBuffer)
    → Downward (suc n) dest src
    → Run n dest
        (λ i. (written (dest + n) (fb.cells (src + n)) fb).cells (src + i))
        (written (dest + n) (fb.cells (src + n)) fb)
        fb'
    → Run (suc n) dest (λ i. fb.cells (src + i)) fb fb'
down_next n dest src fb fb' d r =
    Run-suc_last n dest (λ i. fb.cells (src + i)) fb fb'
      (Run-of n dest _ (λ i. fb.cells (src + i)) (written (dest + n) (fb.cells (src + n)) fb) fb'
        (λ i lt. cells-written_other (dest + n) (fb.cells (src + n)) (src + i) fb (apart d i lt)) r)
  where
    apart : Downward (suc n) dest src → (i : ℕ) → i < n → src + i ≢ dest + n
    apart (inl le) i lt e = omega (arith, le, lt, e)
    apart (inr le) i lt e = omega (arith, le, lt, e)

pub move_up-Run :
    (n dest src : ℕ) (fb : FrameBuffer)
    → Upward n dest src
    → dest + n ≤ fb.width * fb.height
    → (fb' : FrameBuffer) × (move_up n dest src fb ≡ done fb')
      × Run n dest (λ i. fb.cells (src + i)) fb fb'
unfolding move_up written
move_up-Run zero dest src fb d room = (
  fb,
  refl,
  record {
    inside = λ i lt. absurd (omega (arith, lt));
    before = λ c lt. refl;
    after = λ c le. refl;
    width = refl;
    height = refl;
  },
)
move_up-Run (suc n) dest src fb d room =
    let one = written dest (fb.cells src) fb in
    let (fb', e, r) = move_up-Run n (suc dest) (suc src) one (upward d) (omega (arith, room)) in
    (
      fb',
      rw (put-written dest (fb.cells src) fb (omega (arith, room))) e,
      up_next n dest src fb fb' d r,
    )
  where
    upward : Upward (suc n) dest src → Upward n (suc dest) (suc src)
    upward (inl le) = inl (omega (arith, le))
    upward (inr le) = inr (omega (arith, le))

pub move_down-Run :
    (n dest src : ℕ) (fb : FrameBuffer)
    → Downward n dest src
    → dest + n ≤ fb.width * fb.height
    → (fb' : FrameBuffer) × (move_down n dest src fb ≡ done fb')
      × Run n dest (λ i. fb.cells (src + i)) fb fb'
unfolding move_down written
move_down-Run zero dest src fb d room = (
  fb,
  refl,
  record {
    inside = λ i lt. absurd (omega (arith, lt));
    before = λ c lt. refl;
    after = λ c le. refl;
    width = refl;
    height = refl;
  },
)
move_down-Run (suc n) dest src fb d room =
    let one = written (dest + n) (fb.cells (src + n)) fb in
    let (fb', e, r) = move_down-Run n dest src one (downward d) (omega (arith, room)) in
    (
      fb',
      rw (put-written (dest + n) (fb.cells (src + n)) fb (omega (arith, room))) e,
      down_next n dest src fb fb' d r,
    )
  where
    downward : Downward (suc n) dest src → Downward n dest src
    downward (inl le) = inl le
    downward (inr le) = inr (omega (arith, le))

-- The direction in which a row may be moved.
abbrev pub Directed : Bool → ℕ → ℕ → ℕ → Type 0
Directed true n dest src = Upward n dest src
Directed false n dest src = Downward n dest src

pub Directed-shift :
    (up : Bool) (n dest src k : ℕ) → Directed up n dest src → Directed up n (dest + k) (src + k)
Directed-shift true n dest src k (inl le) = inl (omega (arith, le))
Directed-shift true n dest src k (inr le) = inr (omega (arith, le))
Directed-shift false n dest src k (inl le) = inl (omega (arith, le))
Directed-shift false n dest src k (inr le) = inr (omega (arith, le))

pub move_row-Run :
    (up : Bool) (n dest src : ℕ) (fb : FrameBuffer)
    → Directed up n dest src
    → dest + n ≤ fb.width * fb.height
    → (fb' : FrameBuffer) × (move_row up n dest src fb ≡ done fb')
      × Run n dest (λ i. fb.cells (src + i)) fb fb'
unfolding move_row
move_row-Run true n dest src fb d room = move_up-Run n dest src fb d room
move_row-Run false n dest src fb d room = move_down-Run n dest src fb d room
