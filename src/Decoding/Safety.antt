-- ===== src/Decoding/Safety.antt =====
-- Whatever bytes come, the decoders stay within their memory (src/encodings, src/rfbproto.c).
pub mod Cursor
pub mod Hextile
pub mod Whole
pub mod Messages
use native.Mathlib.Nat.{mul-le-mul_left, mul-le-mul_right, mul_comm}
use wlvncc.Base.{
  ℕ, zero, suc, ◌+◌, ◌-◌, ◌*◌, ◌/◌, ◌≤◌, ◌<◌, ◌≡◌, refl, ap, sym, subst, ◌∙◌, Bool, true, false,
  not, ◌&&◌, ◌||◌, List, [], ◌∷◌, Option, none, some, length, length-drop, length-take-le, take,
  drop, ltb, leb, ◌==◌, min, if◌then◌else◌, both_true, Bool-cases, inl, inr, Outcome, done, fault,
  ◌>>=◌, arith,
}
use wlvncc.Base.Masks.{has_bit}
use wlvncc.Rfb.{Area, Size}
use wlvncc.FrameBuffer.{
  FrameBuffer, check_rect, put_rows, fill_rectangle, copy_rectangle, copy_rectangle_from_rectangle,
}
use wlvncc.FrameBuffer.Filling.{put_rows-Holds, check_rect-Room, zero-mul}
use wlvncc.FrameBuffer.Moving.{moved}
use wlvncc.Decoding.{
  Decoder, Step, succeed, give_up, ◌followed_by◌, reading, buffering, drawing, buffer_size, network,
  host, field, note,
}
use wlvncc.Decoding.Rectangles.{
  fill, bitmap, raw_lines, handle_raw, handle_copy_rect, inner, rre_subrects, handle_rre,
  corre_subrects, handle_corre, set_background, set_foreground, fill_background, fill_foreground,
  hextile_area, hextile_coloured, hextile_plain, hextile_subrects, hextile_tile, hextile_row,
  hextile_rows, handle_hextile,
}

-- A framebuffer that is there has columns, and fewer than 2^31 cells.
unfoldable pub Sound : Option FrameBuffer → Type 0
Sound none = Unit {0}
Sound (some fb) = (0 < fb.width) × (fb.width * fb.height < 2147483648)

Sound-same :
    (fb fb' : FrameBuffer)
    → fb'.width ≡ fb.width
    → fb'.height ≡ fb.height
    → Sound (some fb)
    → Sound (some fb')
unfolding Sound
Sound-same fb fb' w h (columns, cells) = (rw w columns, rw (w, h) cells)

-- A step that ends, with TRUE or FALSE, from every state whose framebuffer is sound: no write is out
-- of bounds, the framebuffer is sound afterwards, and what it has read it does not give back.
pub Safe : Step → Type 0
Safe f =
    (d : Decoder)
    → Sound d.frame
    → (r : Decoder × Bool) × (f d ≡ done r) × (length r.0.input ≤ length d.input) × Sound r.0.frame

pub Safe-succeed : Safe succeed
unfolding Safe
Safe-succeed d v = ((d, true), refl, omega arith, v)

pub Safe-give_up : Safe give_up
unfolding Safe
Safe-give_up d v = ((d, false), refl, omega arith, v)

-- A step that does no more than change the state, and reads nothing.
pub Safe-done :
    (f : Step) (g : Decoder → Decoder × Bool)
    → ((d : Decoder) → (f d ≡ done (g d)) × ((g d).0.input ≡ d.input) × ((g d).0.frame ≡ d.frame))
    → Safe f
unfolding Safe
Safe-done f g e d v = (g d, (e d).0, rw ((e d).1) (omega arith), subst Sound (sym (e d).2) v)

pub Safe-if : (b : Bool) (f g : Step) → Safe f → Safe g → Safe (if b then f else g)
Safe-if true f g p q = p
Safe-if false f g p q = q

pub Safe-followed_by : (f g : Step) → Safe f → Safe g → Safe (f followed_by g)
unfolding Safe ◌followed_by◌
Safe-followed_by f g p q d v = go (p d v).0 (p d v).1 (p d v).2 (p d v).3
  where
    go :
        (r : Decoder × Bool)
        → f d ≡ done r
        → length r.0.input ≤ length d.input
        → Sound r.0.frame
        → (s : Decoder × Bool) × ((f followed_by g) d ≡ done s)
          × (length s.0.input ≤ length d.input)
          × Sound s.0.frame
    go (d', true) e l u = let (s, e', l', u') = q d' u in (s, rw e e', omega (arith, l, l'), u')
    go (d', false) e l u = ((d', false), rw e refl, l, u)

-- A read uses up what it reads.
pub Reads : ℕ → Step → Type 0
Reads n f =
    (d : Decoder)
    → Sound d.frame
    → (r : Decoder × Bool) × (f d ≡ done r)
      × (length r.0.input ≤ length d.input)
      × Sound r.0.frame
      × (r.1 ≡ true → n + length r.0.input ≤ length d.input)

pub reading-Reads :
    (n : ℕ) (k : List ℕ → Step)
    → ((bytes : List ℕ) → length bytes ≤ n → Safe (k bytes))
    → Reads n (reading n k)
unfolding Safe Reads reading
reading-Reads n k p d v = elim (Bool-cases (leb n (length d.input))) [
  | inl come ↦
      let (r, e, l, u) =
        p (take n d.input) (length-take-le n d.input) (record d { input = drop n d.input }) v in
      let enough : n ≤ length d.input = ground (arith, come) in
      let used = length-drop n d.input in
      (r, rw come e, omega (arith, l, used, enough), u, λ t. omega (arith, l, used, enough))
  | inr missing ↦ ((d, false), rw missing refl, omega arith, v, λ t. absurd (cc t))
]

pub Safe-reading :
    (n : ℕ) (k : List ℕ → Step)
    → ((bytes : List ℕ) → length bytes ≤ n → Safe (k bytes))
    → Safe (reading n k)
unfolding Safe Reads
Safe-reading n k p d v = let (r, e, l, u, used) = reading-Reads n k p d v in (r, e, l, u)

-- Here is the bound: no more is read than the buffer holds.
pub Safe-buffering :
    (n : ℕ) (k : List ℕ → Step)
    → n ≤ buffer_size
    → ((bytes : List ℕ) → length bytes ≤ n → Safe (k bytes))
    → Safe (buffering n k)
unfolding Safe buffering
Safe-buffering n k fits p d v =
    let e : leb n buffer_size ≡ true = ground (arith, fits) in
    let (r, e', l, u) = Safe-reading n k p d v in (r, rw e e', l, u)

pub Safe-drawing :
    (f : Option FrameBuffer → Outcome (Option FrameBuffer))
    → ((o : Option FrameBuffer) → Sound o → (o' : Option FrameBuffer) × (f o ≡ done o') × Sound o')
    → Safe (drawing f)
unfolding Safe drawing
Safe-drawing f p d v =
    let (o, e, u) = p d.frame v in ((record d { frame = o }, true), rw e refl, omega arith, u)

fill_rectangle-done :
    (x y w h colour : ℕ) (o : Option FrameBuffer)
    → Sound o
    → (o' : Option FrameBuffer) × (fill_rectangle x y w h colour o ≡ done o') × Sound o'
unfolding fill_rectangle
fill_rectangle-done x y w h colour none v = (none, refl, v)
fill_rectangle-done x y w h colour (some fb) v = elim (Bool-cases (check_rect x y w h fb)) [
  | inl fits ↦
      let (fb', e, s) =
        put_rows-Holds h w (y * fb.width + x) (λ j i. colour) fb
          (check_rect-Room x y w h fb fits) in
      (some fb', rw (fits, e) refl, Sound-same fb fb' s.width s.height v)
  | inr too_large ↦ (some fb, rw too_large refl, v)
]

copy_rectangle-done :
    (buffer : ℕ → ℕ) (x y w h : ℕ) (o : Option FrameBuffer)
    → Sound o
    → (o' : Option FrameBuffer) × (copy_rectangle buffer x y w h o ≡ done o') × Sound o'
unfolding copy_rectangle
copy_rectangle-done buffer x y w h none v = (none, refl, v)
copy_rectangle-done buffer x y w h (some fb) v = elim (Bool-cases (check_rect x y w h fb)) [
  | inl fits ↦
      let (fb', e, s) =
        put_rows-Holds h w (y * fb.width + x) (λ j i. buffer (j * w + i)) fb
          (check_rect-Room x y w h fb fits) in
      (some fb', rw (fits, e) refl, Sound-same fb fb' s.width s.height v)
  | inr too_large ↦ (some fb, rw too_large refl, v)
]

move-done :
    (sx sy w h dx dy : ℕ) (o : Option FrameBuffer)
    → Sound o
    → (o' : Option FrameBuffer) × (copy_rectangle_from_rectangle sx sy w h dx dy o ≡ done o')
      × Sound o'
unfolding copy_rectangle_from_rectangle
move-done sx sy w h dx dy none v = (none, refl, v)
move-done sx sy w h dx dy (some fb) v =
    elim (Bool-cases (check_rect sx sy w h fb && check_rect dx dy w h fb)) [
      | inr too_large ↦ (some fb, rw too_large refl, v)
      | inl fits ↦
          let (es, ed) =
            both_true {a = check_rect sx sy w h fb} {b = check_rect dx dy w h fb} fits in
          let (fb', e, s) = moved sx sy w h dx dy fb es ed (unfold Sound in v.0) in
          (some fb', rw fits (rw e refl), Sound-same fb fb' s.width s.height v)
    ]

pub Safe-fill : (a : Area) (colour : ℕ) → Safe (fill a colour)
unfolding fill
Safe-fill a colour = Safe-drawing _ (fill_rectangle-done a.x a.y a.w a.h colour)

pub Safe-bitmap : (size : ℕ) (a : Area) (bytes : List ℕ) → Safe (bitmap size a bytes)
unfolding bitmap
Safe-bitmap size a bytes = Safe-drawing _ (copy_rectangle-done _ a.x a.y a.w a.h)

times_le : (n k m : ℕ) → k ≤ m → m * n ≤ buffer_size → n * k ≤ buffer_size
times_le n k m le fits = omega (arith, mul-le-mul_left n le, mul_comm m n, fits)

pub count_le : (k n : ℕ) {q : ℕ} → k ≤ q → q * n ≤ buffer_size → k * n ≤ buffer_size
count_le k n le fits = omega (arith, mul-le-mul_right n le, fits)

pub whole_times : (b n : ℕ) → b / n * n ≤ b
whole_times b n = grind arith

-- What is drawn line by line fits in the buffer, since no more lines are read than it holds.
pub Safe-raw_lines :
    (f size at_once : ℕ) (a : Area)
    → at_once * (size * a.w) ≤ buffer_size
    → Safe (raw_lines f size at_once a)
unfolding raw_lines
Safe-raw_lines zero size at_once a fits = Safe-succeed
Safe-raw_lines (suc f) size at_once a fits = elim (Bool-cases (ltb 0 at_once && ltb 0 a.h)) [
  | inr over ↦ rw over Safe-succeed
  | inl more ↦
      let lines = min at_once a.h in
      rw more (
        Safe-buffering (size * a.w * lines) _
          (times_le (size * a.w) lines at_once (ground arith) fits)
          (λ bytes short.
            Safe-followed_by _ _ (Safe-bitmap size (record a { h = lines }) bytes)
              (Safe-raw_lines f size at_once (record a { y = a.y + lines; h = a.h - lines }) fits)))
]

pub Safe-handle_raw : (size : ℕ) (a : Area) → Safe (handle_raw size a)
unfolding handle_raw
Safe-handle_raw size a = elim (Bool-cases (size * a.w == 0)) [
  | inl empty ↦ rw empty (Safe-raw_lines a.h size 0 a (omega (arith, zero-mul (size * a.w))))
  | inr wide ↦ rw wide (
      Safe-raw_lines a.h size (buffer_size / (size * a.w)) a (whole_times buffer_size (size * a.w)))
]

pub Safe-handle_copy_rect : (a : Area) → Safe (handle_copy_rect a)
unfolding handle_copy_rect
Safe-handle_copy_rect a =
    Safe-reading 4 _ (λ bytes short. Safe-drawing _ (move-done _ _ a.w a.h a.x a.y))

pub Safe-rre_subrects : (size n : ℕ) (a : Area) → Safe (rre_subrects size n a)
unfolding rre_subrects
Safe-rre_subrects size zero a = Safe-succeed
Safe-rre_subrects size (suc n) a = Safe-reading size _ (λ pix short.
    Safe-reading 8 _
      (λ sub short'. Safe-followed_by _ _ (Safe-fill _ _) (Safe-rre_subrects size n a)))

pub Safe-handle_rre : (size : ℕ) (a : Area) → Safe (handle_rre size a)
unfolding handle_rre
Safe-handle_rre size a = Safe-reading 4 _ (λ hdr short.
    Safe-reading size _
      (λ pix short'. Safe-followed_by _ _ (Safe-fill _ _) (Safe-rre_subrects size (network hdr) a)))

pub Safe-corre_subrects :
    (size n : ℕ) (a : Area) (bytes : List ℕ) → Safe (corre_subrects size n a bytes)
unfolding corre_subrects
Safe-corre_subrects size zero a bytes = Safe-succeed
Safe-corre_subrects size (suc n) a bytes =
    Safe-followed_by _ _ (Safe-fill _ _) (Safe-corre_subrects size n a (drop 4 (drop size bytes)))

pub Safe-handle_corre : (size : ℕ) (a : Area) → Safe (handle_corre size a)
unfolding handle_corre
Safe-handle_corre size a = Safe-reading 4 _ (λ hdr short.
    Safe-reading size _
      (λ pix short'. Safe-followed_by _ _ (Safe-fill _ _) (guarded (network hdr))))
  where
    guarded :
        (n : ℕ)
        → Safe (
            if ltb (buffer_size / (4 + size)) n
            then give_up
            else buffering (n * (4 + size)) (corre_subrects size n a))
    guarded n = elim (Bool-cases (ltb (buffer_size / (4 + size)) n)) [
      | inl too_many ↦ rw too_many Safe-give_up
      | inr few ↦ rw few (
          Safe-buffering (n * (4 + size)) _
            (count_le n (4 + size) (ground (arith, few)) (whole_times buffer_size (4 + size)))
            (λ bytes short. Safe-corre_subrects size n a bytes))
    ]
