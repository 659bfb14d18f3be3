-- ===== src/Decoding/Painting/Raw/Pieces.antt =====
-- Bytes, pixels and rows that come in pieces (the raw encoding of src/rfbproto.c).
use wlvncc.Base.{
  ℕ, zero, suc, ◌+◌, ◌-◌, ◌*◌, ◌≤◌, ◌<◌, ◌≡◌, refl, sym, ap, ◌∙◌, List, [], ◌∷◌, take, drop, ltb,
  ltb→lt, Bool-cases, inl, inr, ◌≢◌, arith,
}
use wlvncc.FrameBuffer.{FrameBuffer}
use wlvncc.FrameBuffer.Filling.{Holds}
use wlvncc.FrameBuffer.Moving.Rows.{rows_apart}
use wlvncc.Decoding.{host, pixel_at}

pub mul_add : (n p q : ℕ) → n * (p + q) ≡ n * p + n * q
mul_add n p q = grind arith

pub below_block : (y lines n x : ℕ) → (y + lines) * n + x ≡ y * n + x + lines * n
below_block y lines n x = grind arith

add_rows : (p j n : ℕ) → (p + j) * n ≡ p * n + j * n
add_rows p j n = grind arith

-- Rows that are drawn after other rows.
pub Holds-append :
    (p q w k : ℕ) (value : ℕ → ℕ → ℕ) (fb mid fb' : FrameBuffer)
    → w ≤ fb.width
    → Holds p w k value fb mid
    → Holds q w (k + p * fb.width) (λ j. value (p + j)) mid fb'
    → Holds (p + q) w k value fb fb'
Holds-append p q w k value fb mid fb' narrow r s = record {
  inside = inside;
  outside = outside;
  width = s.width ∙ r.width;
  height = s.height ∙ r.height;
}
  where
    inside : (j i : ℕ) → j < p + q → i < w → fb'.cells (k + j * fb.width + i) ≡ value j i
    inside j i lj li = elim (Bool-cases (ltb j p)) [
      | inl early ↦
          s.outside (k + j * fb.width + i) (λ j' i' lj' li' e.
            absurd (omega (arith, e, li, narrow, rows_apart j p fb.width (ltb→lt j p early))))
          ∙ r.inside j i (ltb→lt j p early) li
      | inr late ↦
          let e : j ≡ p + (j - p) = ground (arith, late) in
          ap fb'.cells (
            omega (
              arith,
              ap (λ t. t * fb.width) e,
              add_rows p (j - p) fb.width,
              ap (λ t. (j - p) * t) r.width,
            ))
          ∙ s.inside (j - p) i (ground (arith, late, lj)) li
          ∙ ap (λ t. value t i) (sym e)
    ]

    outside :
        (c : ℕ)
        → ((j i : ℕ) → j < p + q → i < w → c ≢ k + j * fb.width + i)
        → fb'.cells c ≡ fb.cells c
    outside c none_hit =
        s.outside c (λ j i lj li e.
          none_hit (p + j) i (omega (arith, lj)) li
            (omega (arith, e, add_rows p j fb.width, ap (λ t. j * t) r.width)))
        ∙ r.outside c (λ j i lj li e. none_hit j i (omega (arith, lj)) li e)

module _ {A : Type 0} where
  drop-nil : (n : ℕ) → drop {A = A} n [] ≡ []
  drop-nil zero = refl
  drop-nil (suc n) = refl

  drop-drop : (m n : ℕ) (xs : List A) → drop m (drop n xs) ≡ drop (n + m) xs
  drop-drop m zero xs = ap (λ t. drop t xs) (omega arith)
  drop-drop m (suc n) [] = drop-nil m ∙ sym (drop-nil (suc n + m))
  drop-drop m (suc n) (x ∷ xs) =
      let e : suc (n + m) ≡ suc n + m = omega arith in
      drop-drop m n xs ∙ ap (λ t. drop t (x ∷ xs)) e

  -- What lies in the front of a list.
  take-take : (s n : ℕ) (xs : List A) → s ≤ n → take s (take n xs) ≡ take s xs
  take-take zero n xs h = refl
  take-take (suc s) zero xs h = absurd (omega (arith, h))
  take-take (suc s) (suc n) [] h = refl
  take-take (suc s) (suc n) (x ∷ xs) h = ap (λ t. x ∷ t) (take-take s n xs (omega (arith, h)))

  take-drop-take :
      (s m n : ℕ) (xs : List A) → m + s ≤ n → take s (drop m (take n xs)) ≡ take s (drop m xs)
  take-drop-take s zero n xs h = take-take s n xs (omega (arith, h))
  take-drop-take s (suc m) zero xs h = absurd (omega (arith, h))
  take-drop-take zero (suc m) (suc n) [] h = refl
  take-drop-take (suc s) (suc m) (suc n) [] h = refl
  take-drop-take s (suc m) (suc n) (x ∷ xs) h = take-drop-take s m n xs (omega (arith, h))

-- The pixels of `lines` rows are the first ones of the bytes, and the others follow them.
scaled : (size i m : ℕ) → i < m → i * size + size ≤ m * size
scaled size i m lt = rows_apart i m size lt

cell_lt : (w j i p : ℕ) → j < p → i < w → j * w + i < p * w
cell_lt w j i p lj li = omega (arith, li, rows_apart j p w lj)

same_bytes : (size w lines : ℕ) → size * w * lines ≡ lines * w * size
same_bytes size w lines = grind arith

pub pixel_at-take :
    (size w lines j i : ℕ) (bytes : List ℕ)
    → j < lines
    → i < w
    → pixel_at size (take (size * w * lines) bytes) (j * w + i) ≡ pixel_at size bytes (j * w + i)
unfolding pixel_at
pixel_at-take size w lines j i bytes lj li = ap host (
    take-drop-take size ((j * w + i) * size) (size * w * lines) bytes (
      omega (
        arith,
        scaled size (j * w + i) (lines * w) (cell_lt w j i lines lj li),
        same_bytes size w lines,
      )))

later :
    (size w lines j i : ℕ) → size * w * lines + (j * w + i) * size ≡ ((lines + j) * w + i) * size
later size w lines j i = grind arith

pub pixel_at-drop :
    (size w lines j i : ℕ) (bytes : List ℕ)
    → pixel_at size (drop (size * w * lines) bytes) (j * w + i)
      ≡ pixel_at size bytes ((lines + j) * w + i)
unfolding pixel_at
pixel_at-drop size w lines j i bytes =
    ap (λ t. host (take size t))
      (drop-drop ((j * w + i) * size) (size * w * lines) bytes
        ∙ ap (λ t. drop t bytes) (later size w lines j i))
