-- ===== src/Decoding/Painting/Compact.antt =====
-- The CoRRE encoding (src/encodings/corre.c) draws the same pictures as RRE.
use mathlib.Core.List.{append_assoc}
use wlvncc.Base.{
  ℕ, suc, ◌+◌, ◌*◌, ◌/◌, ◌≤◌, ◌<◌, ◌≡◌, refl, sym, ap, ◌∙◌, true, false, List, [], ◌∷◌, ◌++◌,
  length, length-append, take, drop, take-append_length, drop-append_length, leb, ltb,
  if◌then◌else◌, All, ◌>>=◌, arith,
}
use wlvncc.Rfb.{Area, be32}
use wlvncc.FrameBuffer.{fill_rectangle}
use wlvncc.FrameBuffer.Filling.{zero-mul, suc-mul}
use wlvncc.Decoding.{Decoder, Step, give_up, buffering, buffer_size, network, host, field}
use wlvncc.Decoding.Rectangles.{fill, inner, corre_subrects, handle_corre, handle_rre}
use wlvncc.Decoding.Safety.{count_le, whole_times}
use wlvncc.Decoding.Painting.{
  Subrect, paint_over, paint_one, paint, corre_bytes, encode_rre, encode_corre, Within, given,
  drawn, reading-append, >>=-assoc, >>=-cong, drawing-followed_by, number32, length-be32,
  handle_rre-paint,
}

quad : Subrect → List ℕ
quad s = s.x ∷ s.y ∷ s.w ∷ s.h ∷ []

quad-read :
    (size : ℕ) (s : Subrect) (tail : List ℕ)
    → Within size 256 s
    → (field 0 1 (quad s ++ tail) ≡ s.x)
      × (field 1 1 (quad s ++ tail) ≡ s.y)
      × (field 2 1 (quad s ++ tail) ≡ s.w)
      × (field 3 1 (quad s ++ tail) ≡ s.h)
unfolding quad field network
quad-read size s tail h =
    (omega (arith, h.1), omega (arith, h.2), omega (arith, h.3), omega (arith, h.4))

-- Cut where the pixel ends.
cut_at :
    (size : ℕ) (xs ys : List ℕ)
    → length xs ≡ size
    → (take size (xs ++ ys) ≡ xs) × (drop size (xs ++ ys) ≡ ys)
cut_at size xs ys e = (rw (← e) (take-append_length xs ys), rw (← e) (drop-append_length xs ys))

corre_subrects-one :
    (size n : ℕ) (a : Area) (s : Subrect) (tail : List ℕ) (d : Decoder)
    → Within size 256 s
    → corre_subrects size (suc n) a (s.pixel ++ (quad s ++ tail)) d ≡ (
        paint_one a s d.frame >>= λ frame.
        corre_subrects size n a tail (record d { frame = frame }))
unfolding corre_subrects
corre_subrects-one size n a s tail d h =
    let cut = cut_at size s.pixel (quad s ++ tail) h.0 in
    let r = quad-read size s tail h in
    rw (cut.0, cut.1)
      (rw (r.0, r.1, r.2, r.3)
        (unfold fill inner quad in
          drawing-followed_by (paint_one a s) (corre_subrects size n a tail) d))

corre_subrects-paint :
    (size : ℕ) (a : Area) (ss : List Subrect) (d : Decoder)
    → All (Within size 256) ss
    → corre_subrects size (length ss) a (corre_bytes ss) d
      ≡ drawn d.input d (paint_over a ss d.frame)
unfolding corre_bytes paint_over quad
corre_subrects-paint size a [] d h = unfold corre_subrects in refl
corre_subrects-paint size a (s ∷ ss) d h =
    corre_subrects-one size (length ss) a s (corre_bytes ss) d h.0
    ∙ >>=-cong (paint_one a s d.frame) _ _
        (λ frame. corre_subrects-paint size a ss (record d { frame = frame }) h.1)
    ∙ sym (>>=-assoc (paint_one a s d.frame) (paint_over a ss) _)

length-corre_bytes :
    (size : ℕ) (ss : List Subrect)
    → All (Within size 256) ss
    → length (corre_bytes ss) ≡ length ss * (4 + size)
unfolding corre_bytes
length-corre_bytes size [] h = sym (zero-mul (4 + size))
length-corre_bytes size (s ∷ ss) h = omega (
  arith,
  length-append s.pixel (s.x ∷ s.y ∷ s.w ∷ s.h ∷ corre_bytes ss),
  h.0.0,
  length-corre_bytes size ss h.1,
  suc-mul (length ss) (4 + size),
)

pub buffering-append :
    (n : ℕ) (k : List ℕ → Step) (xs ys : List ℕ) (d : Decoder)
    → length xs ≡ n
    → n ≤ buffer_size
    → buffering n k (given (xs ++ ys) d) ≡ k xs (given ys d)
unfolding buffering
buffering-append n k xs ys d e fits =
    let room : leb n buffer_size ≡ true = ground (arith, fits) in
    rw room (reading-append n k xs ys d e)

corre_tail :
    (size : ℕ) (a : Area) (ss : List Subrect) (rest : List ℕ) (d : Decoder)
    → length ss ≤ buffer_size / (4 + size)
    → All (Within size 256) ss
    → (if ltb (buffer_size / (4 + size)) (length ss)
          then give_up
          else buffering (length ss * (4 + size)) (corre_subrects size (length ss) a))
        (given (corre_bytes ss ++ rest) d)
      ≡ drawn rest d (paint_over a ss d.frame)
corre_tail size a ss rest d few h =
    let guard : ltb (buffer_size / (4 + size)) (length ss) ≡ false = ground (arith, few) in
    rw guard (
      buffering-append (length ss * (4 + size)) (corre_subrects size (length ss) a) (corre_bytes ss)
        rest d (length-corre_bytes size ss h)
        (count_le (length ss) (4 + size) few (whole_times buffer_size (4 + size)))
      ∙ corre_subrects-paint size a ss (given rest d) h)

quotient_le : (b n : ℕ) → b / n ≤ b
quotient_le b n = grind arith

few_count : (size n : ℕ) → n ≤ buffer_size / (4 + size) → n < 4294967296
few_count size n few = omega (arith, few, quotient_le buffer_size (4 + size))

-- CoRRE: what a server encodes is what is drawn, as long as the subrectangles fit in the buffer.
pub handle_corre-paint :
    (size : ℕ) (a : Area) (background rest : List ℕ) (ss : List Subrect) (d : Decoder)
    → length background ≡ size
    → length ss ≤ buffer_size / (4 + size)
    → All (Within size 256) ss
    → handle_corre size a (given (encode_corre background ss ++ rest) d)
      ≡ drawn rest d (paint a background ss d.frame)
unfolding handle_corre encode_corre paint
handle_corre-paint size a background rest ss d e few h =
    ap (λ bytes. handle_corre size a (given bytes d))
      (append_assoc (be32 (length ss)) (background ++ corre_bytes ss) rest
        ∙ ap (λ t. be32 (length ss) ++ t) (append_assoc background (corre_bytes ss) rest))
    ∙ reading-append 4 _ (be32 (length ss)) (background ++ (corre_bytes ss ++ rest)) d
        (length-be32 (length ss))
    ∙ reading-append size _ background (corre_bytes ss ++ rest) d e
    ∙ (rw (number32 (length ss) (few_count size (length ss) few)) (
        unfold fill in
        drawing-followed_by (fill_rectangle a.x a.y a.w a.h (host background)) _
          (given (corre_bytes ss ++ rest) d)))
    ∙ >>=-cong (fill_rectangle a.x a.y a.w a.h (host background) d.frame) _ _
        (λ frame. corre_tail size a ss rest (record d { frame = frame }) few h)
    ∙ sym (>>=-assoc (fill_rectangle a.x a.y a.w a.h (host background) d.frame) (paint_over a ss) _)

widen : (size : ℕ) (ss : List Subrect) → All (Within size 256) ss → All (Within size 65536) ss
widen size [] h = tt
widen size (s ∷ ss) h = (
  (h.0.0, omega (arith, h.0.1), omega (arith, h.0.2), omega (arith, h.0.3), omega (arith, h.0.4)),
  widen size ss h.1,
)

-- A picture whose subrectangles have places and sizes below 256, and are few enough for the buffer,
-- is drawn the same from either of its encodings, RRE or CoRRE, from any state of the framebuffer and
-- with the same bytes left to read.
pub corre_as_rre :
    (size : ℕ) (a : Area) (background rest : List ℕ) (ss : List Subrect) (d : Decoder)
    → length background ≡ size
    → length ss ≤ buffer_size / (4 + size)
    → All (Within size 256) ss
    → handle_corre size a (given (encode_corre background ss ++ rest) d)
      ≡ handle_rre size a (given (encode_rre background ss ++ rest) d)
corre_as_rre size a background rest ss d e few h =
    handle_corre-paint size a background rest ss d e few h
    ∙ sym (
        handle_rre-paint size a background rest ss d e (few_count size (length ss) few)
          (widen size ss h))
