-- ===== src/Decoding/Painting.antt =====
-- What the RRE and CoRRE encodings (src/encodings/rre.c, corre.c) stand for: a rectangle filled with
-- one colour, and rectangles painted over it one after the other.
pub mod Compact
pub mod Raw
use mathlib.Core.List.{append_assoc}
use wlvncc.Base.{
  ℕ, zero, suc, ◌+◌, ◌-◌, ◌*◌, ◌/◌, ◌%◌, ◌≤◌, ◌<◌, ◌≡◌, refl, sym, ap, subst, ◌∙◌, Bool, true,
  false, List, [], ◌∷◌, ◌++◌, Option, none, some, length, length-append, take, drop,
  take-append_length, drop-append_length, leb, ltb, if◌then◌else◌, All, Outcome, done, aborted,
  fault, endless, ◌>>=◌, arith,
}
use wlvncc.Rfb.{Area, be16, be32}
use wlvncc.FrameBuffer.{FrameBuffer, fill_rectangle}
use wlvncc.Decoding.{
  Decoder, Step, succeed, give_up, ◌followed_by◌, reading, buffering, drawing, buffer_size, network,
  network_from, host, field,
}
use wlvncc.Decoding.Rectangles.{fill, inner, rre_subrects, handle_rre, corre_subrects, handle_corre}

-- A rectangle of one colour inside another one; the colour is the bytes of its pixel.
pub record Subrect : Type 0 where
  pub pixel : List ℕ
  pub x : ℕ
  pub y : ℕ
  pub w : ℕ
  pub h : ℕ

abbrev pub Drawn : Type 0
Drawn = Outcome (Option FrameBuffer)

unfoldable pub paint_over : Area → List Subrect → Option FrameBuffer → Drawn
paint_over a [] frame = done frame
paint_over a (s ∷ ss) frame =
    fill_rectangle (a.x + s.x) (a.y + s.y) s.w s.h (host s.pixel) frame >>= paint_over a ss

-- The picture: a background and what is over it.
unfoldable pub paint :
    Area → List ℕ → List Subrect → Option FrameBuffer → Outcome (Option FrameBuffer)
unfolding paint_over
paint a background ss frame =
    fill_rectangle a.x a.y a.w a.h (host background) frame >>= paint_over a ss

-- Its place and size, 16 bits each.
unfoldable pub corner : Subrect → List ℕ
unfolding be16
corner s = be16 s.x ++ (be16 s.y ++ (be16 s.w ++ be16 s.h))

unfoldable pub rre_bytes : List Subrect → List ℕ
rre_bytes [] = []
rre_bytes (s ∷ ss) = s.pixel ++ (corner s ++ rre_bytes ss)

unfoldable pub corre_bytes : List Subrect → List ℕ
corre_bytes [] = []
corre_bytes (s ∷ ss) = s.pixel ++ ((s.x ∷ s.y ∷ s.w ∷ s.h ∷ []) ++ corre_bytes ss)

-- A server's encodings of a picture.
unfoldable pub encode_rre : List ℕ → List Subrect → List ℕ
unfolding rre_bytes corner be32
encode_rre background ss = be32 (length ss) ++ (background ++ rre_bytes ss)

unfoldable pub encode_corre : List ℕ → List Subrect → List ℕ
unfolding corre_bytes be32
encode_corre background ss = be32 (length ss) ++ (background ++ corre_bytes ss)

-- A pixel of that many bytes, and numbers below a bound.
abbrev pub Within : ℕ → ℕ → Subrect → Type 0
Within size k s = (length s.pixel ≡ size) × (s.x < k) × (s.y < k) × (s.w < k) × (s.h < k)

abbrev pub given : List ℕ → Decoder → Decoder
given bytes d = record d { input = bytes }

-- The state after a picture has been read and drawn.
abbrev pub drawn : List ℕ → Decoder → Outcome (Option FrameBuffer) → Outcome (Decoder × Bool)
drawn rest d o = o >>= λ frame. done (record d { input = rest; frame = frame }, true)

pub reading-append :
    (n : ℕ) (k : List ℕ → Step) (xs ys : List ℕ) (d : Decoder)
    → length xs ≡ n
    → reading n k (given (xs ++ ys) d) ≡ k xs (given ys d)
unfolding reading
reading-append n k xs ys d e =
    let enough : leb n (length (xs ++ ys)) ≡ true = ground (arith, e, length-append xs ys) in
    rw enough (rw (← e) (rw (take-append_length xs ys, drop-append_length xs ys) refl))

pub >>=-assoc :
    {A B : Type 0} (m : Drawn) (f : Option FrameBuffer → Outcome A) (g : A → Outcome B)
    → (m >>= f >>= g) ≡ (m >>= λ a. f a >>= g)
>>=-assoc (done a) f g = refl
>>=-assoc aborted f g = refl
>>=-assoc fault f g = refl
>>=-assoc endless f g = refl

pub >>=-cong :
    {B : Type 0} (m : Drawn) (f g : Option FrameBuffer → Outcome B)
    → ((a : Option FrameBuffer) → f a ≡ g a)
    → (m >>= f) ≡ (m >>= g)
>>=-cong (done a) f g e = e a
>>=-cong aborted f g e = refl
>>=-cong fault f g e = refl
>>=-cong endless f g e = refl

pub drawing-followed_by :
    (f : Option FrameBuffer → Drawn) (g : Step) (d : Decoder)
    → (drawing f followed_by g) d ≡ (f d.frame >>= λ frame. g (record d { frame = frame }))
unfolding drawing ◌followed_by◌
drawing-followed_by f g d = >>=-assoc (f d.frame) _ _

number16 : (n : ℕ) → n < 65536 → network (be16 n) ≡ n
unfolding network be16
number16 n h = omega (arith, h)

pub number32 : (n : ℕ) → n < 4294967296 → network (be32 n) ≡ n
unfolding network be32
number32 n h = omega (arith, h)

length-corner : (s : Subrect) → length (corner s) ≡ 8
unfolding corner
length-corner s = refl

corner-read :
    (size : ℕ) (s : Subrect)
    → Within size 65536 s
    → (field 0 2 (corner s) ≡ s.x)
      × (field 2 2 (corner s) ≡ s.y)
      × (field 4 2 (corner s) ≡ s.w)
      × (field 6 2 (corner s) ≡ s.h)
unfolding corner field network
corner-read size s h =
    (omega (arith, h.1), omega (arith, h.2), omega (arith, h.3), omega (arith, h.4))

-- A subrectangle is painted.
abbrev pub paint_one : Area → Subrect → Option FrameBuffer → Drawn
paint_one a s = fill_rectangle (a.x + s.x) (a.y + s.y) s.w s.h (host s.pixel)

rre_subrects-one :
    (size n : ℕ) (a : Area) (s : Subrect) (tail : List ℕ) (d : Decoder)
    → Within size 65536 s
    → rre_subrects size (suc n) a (given (s.pixel ++ (corner s ++ tail)) d) ≡ (
        paint_one a s d.frame >>= λ frame.
        rre_subrects size n a (record d { input = tail; frame = frame }))
unfolding rre_subrects
rre_subrects-one size n a s tail d h =
    reading-append size _ s.pixel (corner s ++ tail) d h.0
    ∙ reading-append 8 _ (corner s) tail d (length-corner s)
    ∙ (let r = corner-read size s h in
        rw (r.0, r.1, r.2, r.3)
          (unfold fill inner in
            drawing-followed_by (paint_one a s) (rre_subrects size n a) (given tail d)))

rre_subrects-paint :
    (size : ℕ) (a : Area) (ss : List Subrect) (rest : List ℕ) (d : Decoder)
    → All (Within size 65536) ss
    → rre_subrects size (length ss) a (given (rre_bytes ss ++ rest) d)
      ≡ drawn rest d (paint_over a ss d.frame)
unfolding rre_bytes paint_over
rre_subrects-paint size a [] rest d h = unfold rre_subrects in refl
rre_subrects-paint size a (s ∷ ss) rest d h =
    ap (λ bytes. rre_subrects size (suc (length ss)) a (given bytes d))
      (append_assoc s.pixel (corner s ++ rre_bytes ss) rest
        ∙ ap (λ t. s.pixel ++ t) (append_assoc (corner s) (rre_bytes ss) rest))
    ∙ rre_subrects-one size (length ss) a s (rre_bytes ss ++ rest) d h.0
    ∙ >>=-cong (paint_one a s d.frame) _ _
        (λ frame. rre_subrects-paint size a ss rest (record d { frame = frame }) h.1)
    ∙ sym (>>=-assoc (paint_one a s d.frame) (paint_over a ss) _)

pub length-be32 : (n : ℕ) → length (be32 n) ≡ 4
unfolding be32
length-be32 n = refl

-- RRE: what a server encodes is what is drawn, and nothing of what follows is read.
pub handle_rre-paint :
    (size : ℕ) (a : Area) (background rest : List ℕ) (ss : List Subrect) (d : Decoder)
    → length background ≡ size
    → length ss < 4294967296
    → All (Within size 65536) ss
    → handle_rre size a (given (encode_rre background ss ++ rest) d)
      ≡ drawn rest d (paint a background ss d.frame)
unfolding handle_rre encode_rre paint
handle_rre-paint size a background rest ss d e few h =
    ap (λ bytes. handle_rre size a (given bytes d))
      (append_assoc (be32 (length ss)) (background ++ rre_bytes ss) rest
        ∙ ap (λ t. be32 (length ss) ++ t) (append_assoc background (rre_bytes ss) rest))
    ∙ reading-append 4 _ (be32 (length ss)) (background ++ (rre_bytes ss ++ rest)) d
        (length-be32 (length ss))
    ∙ reading-append size _ background (rre_bytes ss ++ rest) d e
    ∙ (rw (number32 (length ss) few) (
        unfold fill in
        drawing-followed_by (fill_rectangle a.x a.y a.w a.h (host background))
          (rre_subrects size (length ss) a) (given (rre_bytes ss ++ rest) d)))
    ∙ >>=-cong (fill_rectangle a.x a.y a.w a.h (host background) d.frame) _ _
        (λ frame. rre_subrects-paint size a ss rest (record d { frame = frame }) h)
    ∙ sym (>>=-assoc (fill_rectangle a.x a.y a.w a.h (host background) d.frame) (paint_over a ss) _)
