-- ===== src/FrameBuffer/Moving/Rows.antt =====
-- Rows of the framebuffer are moved, one after the other (src/vncviewer.c).
use wlvncc.Base.{
  ℕ, zero, suc, ◌+◌, ◌-◌, ◌*◌, ◌≤◌, ◌<◌, ◌≡◌, refl, sym, ap, ◌≢◌, ◌∙◌, Bool, ltb, leb, Bool-cases,
  inl, inr, done, arith,
}
use wlvncc.FrameBuffer.{FrameBuffer, move_rows_up, move_rows_down}
use wlvncc.FrameBuffer.Filling.{Run, Holds, Holds-suc, Room, Room-next, suc-mul, zero-mul}
use wlvncc.FrameBuffer.Moving.Cells.{Run-of, Directed-shift, move_row-Run, Directed}

pub Holds-of :
    (h w k : ℕ) (value value' : ℕ → ℕ → ℕ) (fb fb' : FrameBuffer)
    → ((j i : ℕ) → j < h → i < w → value j i ≡ value' j i)
    → Holds h w k value fb fb'
    → Holds h w k value' fb fb'
Holds-of h w k value value' fb fb' same s = record {
  inside = λ j i lj li. s.inside j i lj li ∙ same j i lj li;
  outside = s.outside;
  width = s.width;
  height = s.height;
}

pub spread : (j d n : ℕ) → (j + 1 + d) * n ≡ j * n + n + d * n
spread j d n = grind arith

-- A row that stands above another one ends before it begins.
pub rows_apart : (j h n : ℕ) → j < h → j * n + n ≤ h * n
rows_apart j h n lt =
    let d = h - (j + 1) in
    let e : h ≡ j + 1 + d = omega (arith, lt) in omega (arith, ap (λ t. t * n) e, spread j d n)

pub Holds-suc_last :
    (h w k : ℕ) (value : ℕ → ℕ → ℕ) (fb mid fb' : FrameBuffer)
    → w ≤ fb.width
    → Run w (k + h * fb.width) (value h) fb mid
    → Holds h w k value mid fb'
    → Holds (suc h) w k value fb fb'
Holds-suc_last h w k value fb mid fb' narrow r s = record {
  inside = inside;
  outside = outside;
  width = s.width ∙ r.width;
  height = s.height ∙ r.height;
}
  where
    inside : (j i : ℕ) → j < suc h → i < w → fb'.cells (k + j * fb.width + i) ≡ value j i
    inside j i lj li = elim (Bool-cases (ltb j h)) [
      | inl early ↦
          ap (λ t. fb'.cells (k + j * t + i)) (sym r.width)
          ∙ s.inside j i (ground (arith, early)) li
      | inr last ↦
          let e : j ≡ h = ground (arith, last, lj) in
          rw e (
            s.outside (k + h * fb.width + i) (λ j' i' lj' li' hit. absurd (
              omega
                (arith, hit, li', narrow, rows_apart j' h fb.width lj', ap (λ t. j' * t) r.width)))
            ∙ r.inside i li)
    ]

    outside :
        (c : ℕ)
        → ((j i : ℕ) → j < suc h → i < w → c ≢ k + j * fb.width + i)
        → fb'.cells c ≡ fb.cells c
    outside c none_hit =
        s.outside c (λ j i lj li e.
          none_hit j i (omega (arith, lj)) li (omega (arith, e, ap (λ t. j * t) r.width)))
        ∙ elim (Bool-cases (ltb c (k + h * fb.width))) [
          | inl left ↦ r.before c (ground (arith, left))
          | inr right ↦ elim (Bool-cases (leb (k + h * fb.width + w) c)) [
            | inl past ↦ r.after c (ground (arith, past))
            | inr hit ↦ absurd (
                none_hit h (c - (k + h * fb.width)) (omega arith) (ground (arith, right, hit))
                  (ground (arith, right)))
          ]
        ]

pub up_rows :
    (h w dest src : ℕ) (fb mid fb' : FrameBuffer)
    → w ≤ fb.width
    → dest ≤ src
    → Run w dest (λ i. fb.cells (src + i)) fb mid
    → Holds h w (dest + fb.width) (λ j i. mid.cells (src + fb.width + j * mid.width + i)) mid fb'
    → Holds (suc h) w dest (λ j i. fb.cells (src + j * fb.width + i)) fb fb'
up_rows h w dest src fb mid fb' narrow le r s =
    Holds-suc h w dest (λ j i. fb.cells (src + j * fb.width + i)) fb mid fb' narrow
      (Run-of w dest _ (λ i. fb.cells (src + 0 * fb.width + i)) fb mid
        (λ i lt. ap fb.cells (omega (arith, zero-mul fb.width))) r)
      (Holds-of h w (dest + fb.width) _ (λ j i. fb.cells (src + suc j * fb.width + i)) mid fb'
        (λ j i lj li.
          ap mid.cells (omega (arith, suc-mul j fb.width, ap (λ t. j * t) r.width))
          ∙ r.after (src + suc j * fb.width + i) (omega (arith, narrow, le, suc-mul j fb.width)))
        s)

pub move_rows_up-Holds :
    (h : ℕ) (up : Bool) (w dest src : ℕ) (fb : FrameBuffer)
    → Directed up w dest src
    → dest ≤ src
    → Room h w dest fb
    → (fb' : FrameBuffer) × (move_rows_up h up w dest src fb ≡ done fb')
      × Holds h w dest (λ j i. fb.cells (src + j * fb.width + i)) fb fb'
unfolding move_rows_up
move_rows_up-Holds zero up w dest src fb d le room = (
  fb,
  refl,
  record {
    inside = λ j i lj li. absurd (omega (arith, lj));
    outside = λ c h. refl;
    width = refl;
    height = refl;
  },
)
move_rows_up-Holds (suc h) up w dest src fb d le room =
    let (mid, e, r) =
      move_row-Run up w dest src fb d (omega (arith, room.0, room.1, suc-mul h fb.width)) in
    let (fb', e', s) =
      move_rows_up-Holds h up w (dest + fb.width) (src + fb.width) mid
        (Directed-shift up w dest src fb.width d) (omega (arith, le))
        (Room-next h w dest fb mid r.width r.height room) in
    (fb', rw (e) e', up_rows h w dest src fb mid fb' room.0 le r s)

pub Room-before :
    (h w k : ℕ) (fb mid : FrameBuffer)
    → mid.width ≡ fb.width
    → mid.height ≡ fb.height
    → Room (suc h) w k fb
    → Room h w k mid
Room-before h w k fb mid ew eh (narrow, fits) =
    rw (ew, eh) (narrow, omega (arith, fits, suc-mul h fb.width))

-- The rows above the one that has been moved are still to be read.
pub down_rows :
    (h w dest src : ℕ) (fb mid fb' : FrameBuffer)
    → w ≤ fb.width
    → src + w ≤ dest + fb.width
    → Run w (dest + h * fb.width) (λ i. fb.cells (src + h * fb.width + i)) fb mid
    → Holds h w dest (λ j i. mid.cells (src + j * mid.width + i)) mid fb'
    → Holds (suc h) w dest (λ j i. fb.cells (src + j * fb.width + i)) fb fb'
down_rows h w dest src fb mid fb' narrow le r s =
    Holds-suc_last h w dest (λ j i. fb.cells (src + j * fb.width + i)) fb mid fb' narrow r
      (Holds-of h w dest _ (λ j i. fb.cells (src + j * fb.width + i)) mid fb'
        (λ j i lj li.
          ap (λ t. mid.cells (src + j * t + i)) r.width
          ∙ r.before (src + j * fb.width + i)
              (omega (arith, li, narrow, le, rows_apart j h fb.width lj)))
        s)

pub move_rows_down-Holds :
    (h : ℕ) (up : Bool) (w dest src : ℕ) (fb : FrameBuffer)
    → Directed up w dest src
    → src + w ≤ dest + fb.width
    → Room h w dest fb
    → (fb' : FrameBuffer) × (move_rows_down h up w dest src fb ≡ done fb')
      × Holds h w dest (λ j i. fb.cells (src + j * fb.width + i)) fb fb'
unfolding move_rows_down
move_rows_down-Holds zero up w dest src fb d le room = (
  fb,
  refl,
  record {
    inside = λ j i lj li. absurd (omega (arith, lj));
    outside = λ c h. refl;
    width = refl;
    height = refl;
  },
)
move_rows_down-Holds (suc h) up w dest src fb d le room =
    let (mid, e, r) =
      move_row-Run up w (dest + h * fb.width) (src + h * fb.width) fb
        (Directed-shift up w dest src (h * fb.width) d)
        (omega (arith, room.0, room.1, suc-mul h fb.width)) in
    let (fb', e', s) =
      move_rows_down-Holds h up w dest src mid d (rw (r.width) le)
        (Room-before h w dest fb mid r.width r.height room) in
    (fb', rw (e) e', down_rows h w dest src fb mid fb' room.0 le r s)
