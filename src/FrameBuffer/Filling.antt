-- ===== src/FrameBuffer/Filling.antt =====
-- What filling and copying into the framebuffer (src/vncviewer.c) leave in it.
use wlvncc.Base.{
  ℕ, zero, suc, ◌+◌, ◌-◌, ◌*◌, ◌≤◌, ◌<◌, ◌≡◌, refl, sym, ap, ◌∙◌, Bool, true, ◌&&◌, some, ltb,
  lt→ltb, leb, ◌==◌, ==_refl, ne→==, ◌≢◌, if◌then◌else◌, both_true, Bool-cases, inl, inr, done,
  arith,
}
use wlvncc.FrameBuffer.{
  FrameBuffer, put, put_run, put_rows, check_rect, fill_rectangle, copy_rectangle,
}

-- The cells of a rectangle of `w` by `h`, whose first is number `k`, have these values, all others
-- are as they were, and the size is kept.
pub record Holds (h w k : ℕ) (value : ℕ → ℕ → ℕ) (fb fb' : FrameBuffer) : Type 0 where
  pub inside : (j i : ℕ) → j < h → i < w → fb'.cells (k + j * fb.width + i) ≡ value j i
  pub outside :
      (c : ℕ) → ((j i : ℕ) → j < h → i < w → c ≢ k + j * fb.width + i) → fb'.cells c ≡ fb.cells c
  pub width : fb'.width ≡ fb.width
  pub height : fb'.height ≡ fb.height

unfoldable pub written : ℕ → ℕ → FrameBuffer → FrameBuffer
written k v fb = record fb { cells = λ i. if i == k then v else fb.cells i }

pub put-written :
    (k v : ℕ) (fb : FrameBuffer) → k < fb.width * fb.height → put k v fb ≡ done (written k v fb)
unfolding put written
put-written k v fb h = rw (lt→ltb k (fb.width * fb.height) h) refl

pub cells-written_self : (k v : ℕ) (fb : FrameBuffer) → (written k v fb).cells k ≡ v
unfolding written
cells-written_self k v fb = rw (==_refl k) refl

pub cells-written_other :
    (k v c : ℕ) (fb : FrameBuffer) → c ≢ k → (written k v fb).cells c ≡ fb.cells c
unfolding written
cells-written_other k v c fb h = rw (ne→== c k h) refl

-- A run of cells.
pub record Run (n k : ℕ) (value : ℕ → ℕ) (fb fb' : FrameBuffer) : Type 0 where
  pub inside : (i : ℕ) → i < n → fb'.cells (k + i) ≡ value i
  pub before : (c : ℕ) → c < k → fb'.cells c ≡ fb.cells c
  pub after : (c : ℕ) → k + n ≤ c → fb'.cells c ≡ fb.cells c
  pub width : fb'.width ≡ fb.width
  pub height : fb'.height ≡ fb.height

pub Run-suc :
    (n k : ℕ) (value : ℕ → ℕ) (fb fb' : FrameBuffer)
    → Run n (suc k) (λ i. value (suc i)) (written k (value 0) fb) fb'
    → Run (suc n) k value fb fb'
Run-suc n k value fb fb' r = record {
  inside = inside;
  before = λ c lt.
      r.before c (omega (arith, lt)) ∙ cells-written_other k (value 0) c fb (ground (arith, lt));
  after = λ c le.
      r.after c (omega (arith, le)) ∙ cells-written_other k (value 0) c fb (ground (arith, le));
  width = r.width ∙ (unfold written in refl);
  height = r.height ∙ (unfold written in refl);
}
  where
    inside : (i : ℕ) → i < suc n → fb'.cells (k + i) ≡ value i
    inside zero lt =
        ap fb'.cells (omega arith) ∙ r.before k (omega arith) ∙ cells-written_self k (value 0) fb
    inside (suc i) lt = ap fb'.cells (omega arith) ∙ r.inside i (omega (arith, lt))

put_run-Run :
    (n k : ℕ) (value : ℕ → ℕ) (fb : FrameBuffer)
    → k + n ≤ fb.width * fb.height
    → (fb' : FrameBuffer) × (put_run n k value fb ≡ done fb') × Run n k value fb fb'
unfolding put_run written
put_run-Run zero k value fb h = (
  fb,
  refl,
  record {
    inside = λ i lt. absurd (omega (arith, lt));
    before = λ c lt. refl;
    after = λ c le. refl;
    width = refl;
    height = refl;
  },
)
put_run-Run (suc n) k value fb h =
    let one = written k (value 0) fb in
    let (fb', e, r) = put_run-Run n (suc k) (λ i. value (suc i)) one (omega (arith, h)) in
    (fb', rw (put-written k (value 0) fb (omega (arith, h))) e, Run-suc n k value fb fb' r)

pub zero-mul : (n : ℕ) → 0 * n ≡ 0
zero-mul n = grind arith

pub suc-mul : (j n : ℕ) → suc j * n ≡ n + j * n
suc-mul j n = grind arith

-- Rows: each is within its own `width` cells.
pub Holds-suc :
    (h w k : ℕ) (value : ℕ → ℕ → ℕ) (fb mid fb' : FrameBuffer)
    → w ≤ fb.width
    → Run w k (value 0) fb mid
    → Holds h w (k + fb.width) (λ j. value (suc j)) mid fb'
    → Holds (suc h) w k value fb fb'
Holds-suc h w k value fb mid fb' narrow r s = record {
  inside = inside;
  outside = outside;
  width = s.width ∙ r.width;
  height = s.height ∙ r.height;
}
  where
    inside : (j i : ℕ) → j < suc h → i < w → fb'.cells (k + j * fb.width + i) ≡ value j i
    inside zero i lj li =
        ap fb'.cells (omega (arith, zero-mul fb.width))
        ∙ s.outside (k + i) (λ j i' lj' li' e. absurd (omega (arith, e, li, narrow)))
        ∙ r.inside i li
    inside (suc j) i lj li =
        ap fb'.cells (omega (arith, suc-mul j fb.width, ap (λ t. j * t) r.width))
        ∙ s.inside j i (omega (arith, lj)) li

    outside :
        (c : ℕ)
        → ((j i : ℕ) → j < suc h → i < w → c ≢ k + j * fb.width + i)
        → fb'.cells c ≡ fb.cells c
    outside c none_hit =
        s.outside c (λ j i lj li e.
          none_hit (suc j) i (omega (arith, lj)) li
            (omega (arith, e, suc-mul j fb.width, ap (λ t. j * t) r.width)))
        ∙ elim (Bool-cases (ltb c k)) [
          | inl left ↦ r.before c (ground (arith, left))
          | inr right ↦ elim (Bool-cases (leb (k + w) c)) [
            | inl past ↦ r.after c (ground (arith, past))
            | inr hit ↦ absurd (
                none_hit 0 (c - k) (omega arith) (ground (arith, right, hit))
                  (ground (arith, right, zero-mul fb.width)))
          ]
        ]

-- There is room for the rows: the last of them ends in the memory.
abbrev pub Room : ℕ → ℕ → ℕ → FrameBuffer → Type 0
Room h w k fb = (w ≤ fb.width) × (k + h * fb.width ≤ fb.width * fb.height + (fb.width - w))

pub Room-next :
    (h w k : ℕ) (fb mid : FrameBuffer)
    → mid.width ≡ fb.width
    → mid.height ≡ fb.height
    → Room (suc h) w k fb
    → Room h w (k + fb.width) mid
Room-next h w k fb mid ew eh (narrow, fits) =
    rw (ew, eh) (narrow, omega (arith, fits, suc-mul h fb.width))

pub put_rows-Holds :
    (h w k : ℕ) (value : ℕ → ℕ → ℕ) (fb : FrameBuffer)
    → Room h w k fb
    → (fb' : FrameBuffer) × (put_rows h w k value fb ≡ done fb') × Holds h w k value fb fb'
unfolding put_rows
put_rows-Holds zero w k value fb room = (
  fb,
  refl,
  record {
    inside = λ j i lj li. absurd (omega (arith, lj));
    outside = λ c h. refl;
    width = refl;
    height = refl;
  },
)
put_rows-Holds (suc h) w k value fb room =
    let (mid, e, r) =
      put_run-Run w k (value 0) fb (omega (arith, room.0, room.1, suc-mul h fb.width)) in
    let (fb', e', s) =
      put_rows-Holds h w (k + fb.width) (λ j. value (suc j)) mid
        (Room-next h w k fb mid r.width r.height room) in
    (fb', rw (e) e', Holds-suc h w k value fb mid fb' room.0 r s)

pub check_rect-across :
    (x y w h : ℕ) (fb : FrameBuffer) → check_rect x y w h fb ≡ true → x + w ≤ fb.width
unfolding check_rect
check_rect-across x y w h fb e =
    ground (arith, (both_true {a = leb (x + w) fb.width} {b = leb (y + h) fb.height} e).0)

-- A rectangle that passes the check has room, whatever its size.
pub check_rect-Room :
    (x y w h : ℕ) (fb : FrameBuffer) → check_rect x y w h fb ≡ true → Room h w (y * fb.width + x) fb
unfolding check_rect
check_rect-Room x y w h fb e =
    let a = both_true {a = leb (x + w) fb.width} {b = leb (y + h) fb.height} e in
    let across : x + w ≤ fb.width = ground (arith, a.0) in
    let down : y + h ≤ fb.height = ground (arith, a.1) in
    (omega (arith, across), omega (arith, across, area y h fb.height fb.width down))
  where
    spread : (y h d n : ℕ) → n * (y + h + d) ≡ y * n + h * n + d * n
    spread y h d n = grind arith

    area : (y h b n : ℕ) → y + h ≤ b → y * n + h * n ≤ n * b
    area y h b n le =
        let d = b - (y + h) in
        let e : b ≡ y + h + d = omega (arith, le) in
        omega (arith, ap (λ t. n * t) e, spread y h d n)

-- A pixel, by its column and row.
unfoldable pub pixel : FrameBuffer → ℕ → ℕ → ℕ
pixel fb x y = fb.cells (y * fb.width + x)

-- Pixels of different places have different numbers.
pub place : (n x y x' y' : ℕ) → x < n → x' < n → y * n + x ≡ y' * n + x' → (x ≡ x') × (y ≡ y')
place n x zero x' zero lx lx' e = (omega (arith, e, zero-mul n), refl)
place n x zero x' (suc y') lx lx' e = absurd (omega (arith, e, zero-mul n, suc-mul y' n, lx))
place n x (suc y) x' zero lx lx' e = absurd (omega (arith, e, zero-mul n, suc-mul y n, lx'))
place n x (suc y) x' (suc y') lx lx' e =
    let (ex, ey) = place n x y x' y' lx lx' (omega (arith, e, suc-mul y n, suc-mul y' n)) in
    (ex, ap suc ey)

-- Whether a pixel is in a rectangle.
abbrev pub in_rect : ℕ → ℕ → ℕ → ℕ → ℕ → ℕ → Bool
in_rect x y w h px py = (leb x px && ltb px (x + w)) && (leb y py && ltb py (y + h))

pub row_of : (y j x i n : ℕ) → y * n + x + j * n + i ≡ (y + j) * n + (x + i)
row_of y j x i n = grind arith

-- The rows, pixel by pixel.
pub Holds-pixel :
    (x y w h : ℕ) (value : ℕ → ℕ → ℕ) (fb fb' : FrameBuffer) (px py : ℕ)
    → x + w ≤ fb.width
    → px < fb.width
    → Holds h w (y * fb.width + x) value fb fb'
    → pixel fb' px py ≡ (if in_rect x y w h px py then value (py - y) (px - x) else pixel fb px py)
unfolding pixel
Holds-pixel x y w h value fb fb' px py fits inside s =
    rw s.width (elim (Bool-cases (in_rect x y w h px py)) [
      | inl hit ↦ rw hit (
          ap fb'.cells (
            ap (λ t. t * fb.width + px) (ground (arith, hit))
            ∙ ap (λ t. (y + (py - y)) * fb.width + t) (ground (arith, hit))
            ∙ sym (row_of y (py - y) x (px - x) fb.width))
          ∙ s.inside (py - y) (px - x) (ground (arith, hit)) (ground (arith, hit)))
      | inr miss ↦ rw miss (
          s.outside (py * fb.width + px) (λ j i lj li e.
            let (ex, ey) =
              place fb.width px py (x + i) (y + j) inside (omega (arith, fits, li))
                (e ∙ row_of y j x i fb.width) in
            ground (arith, miss, ex, ey, lj, li)))
    ])

-- A rectangle that fits.
module _ (x y w h px py : ℕ) (fb : FrameBuffer) (column : px < fb.width) where
  rows_lem :
      (value : ℕ → ℕ → ℕ)
      → check_rect x y w h fb ≡ true
      → (fb' : FrameBuffer) × (put_rows h w (y * fb.width + x) value fb ≡ done fb')
        × (pixel fb' px py
            ≡ (if in_rect x y w h px py then value (py - y) (px - x) else pixel fb px py))
  rows_lem value e =
      let (fb', e', s) =
        put_rows-Holds h w (y * fb.width + x) value fb (check_rect-Room x y w h fb e) in
      (fb', e', Holds-pixel x y w h value fb fb' px py (check_rect-across x y w h fb e) column s)

  -- Filling never writes outside the memory. A rectangle that is within the framebuffer gets the
  -- colour and every other pixel keeps its own; one that is not changes nothing.
  pub fill_rectangle_lem :
      (colour : ℕ)
      → (fb' : FrameBuffer) × (fill_rectangle x y w h colour (some fb) ≡ done (some fb'))
        × (pixel fb' px py
            ≡ (if check_rect x y w h fb && in_rect x y w h px py then colour else pixel fb px py))
  unfolding fill_rectangle
  fill_rectangle_lem colour = elim (Bool-cases (check_rect x y w h fb)) [
    | inl fits ↦
        let (fb', e, p) = rows_lem (λ j i. colour) fits in (fb', rw (fits, e) refl, rw fits p)
    | inr too_large ↦ (fb, rw too_large refl, rw too_large refl)
  ]

  -- Copying from a buffer likewise: the pixels of the rectangle are those of the buffer, row by row.
  pub copy_rectangle_lem :
      (buffer : ℕ → ℕ)
      → (fb' : FrameBuffer) × (copy_rectangle buffer x y w h (some fb) ≡ done (some fb'))
        × (pixel fb' px py ≡ (
            if check_rect x y w h fb && in_rect x y w h px py
            then buffer ((py - y) * w + (px - x))
            else pixel fb px py))
  unfolding copy_rectangle
  copy_rectangle_lem buffer = elim (Bool-cases (check_rect x y w h fb)) [
    | inl fits ↦
        let (fb', e, p) = rows_lem (λ j i. buffer (j * w + i)) fits in
        (fb', rw (fits, e) refl, rw fits p)
    | inr too_large ↦ (fb, rw too_large refl, rw too_large refl)
  ]
