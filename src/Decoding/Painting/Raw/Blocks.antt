-- ===== src/Decoding/Painting/Raw/Blocks.antt =====
-- The lines of one read of the raw encoding (src/rfbproto.c) are drawn.
use native.Mathlib.Nat.{mul-le-mul_left, mul_comm}
use mathlib.Core.List.{append_assoc}
use wlvncc.Base.{
  ℕ, ◌+◌, ◌-◌, ◌*◌, ◌≤◌, ◌<◌, ◌≡◌, refl, sym, ap, subst, ◌∙◌, Bool, true, List, [], ◌∷◌, ◌++◌, some,
  length, length-take_le, take, drop, take-append-drop, leb, Outcome, done, arith,
}
use wlvncc.Rfb.{Area}
use wlvncc.FrameBuffer.{FrameBuffer, check_rect, copy_rectangle}
use wlvncc.FrameBuffer.Filling.{Holds, put_rows-Holds, check_rect-Room}
use wlvncc.FrameBuffer.Moving.Rows.{Holds-of}
use wlvncc.Decoding.{Decoder, Step, succeed, ◌followed_by◌, buffering, buffer_size, pixel_at}
use wlvncc.Decoding.Rectangles.{bitmap}
use wlvncc.Decoding.Painting.{drawing-followed_by}
use wlvncc.Decoding.Painting.Compact.{buffering-append}
use wlvncc.Decoding.Painting.Raw.Pieces.{
  mul_add, below_block, Holds-append, pixel_at-take, pixel_at-drop,
}

-- A picture of raw pixels: within the framebuffer, in a buffer that holds a line.
pub record Fitting (size at_once : ℕ) (a : Area) (fb : FrameBuffer) : Type 0 where
  pub across : a.x + a.w ≤ fb.width
  pub down : a.y + a.h ≤ fb.height
  pub some_lines : 0 < at_once
  pub room : at_once * (size * a.w) ≤ buffer_size

-- Before the lines: what is still to come, and the framebuffer.
abbrev pub about_to : List ℕ → FrameBuffer → Decoder → Decoder
about_to input fb d = record d { input = input; frame = some fb }

-- What the lines leave: the bytes that follow, and a framebuffer that holds the pixels.
pub record Draws (size : ℕ) (a : Area) (bytes rest : List ℕ) (d : Decoder) (fb : FrameBuffer)
    (o : Outcome (Decoder × Bool)) : Type 0 where
  pub frame : FrameBuffer
  pub returns : o ≡ done (about_to rest frame d, true)
  pub holds :
      Holds a.h a.w (a.y * fb.width + a.x) (λ j i. pixel_at size bytes (j * a.w + i)) fb frame

check_of :
    (x y w h : ℕ) (fb : FrameBuffer)
    → x + w ≤ fb.width
    → y + h ≤ fb.height
    → check_rect x y w h fb ≡ true
unfolding check_rect
check_of x y w h fb p q =
    let a : leb (x + w) fb.width ≡ true = ground (arith, p) in
    let b : leb (y + h) fb.height ≡ true = ground (arith, q) in rw (a, b) refl

-- A block of lines is drawn, and what comes after goes on.
bitmap-Holds :
    (size : ℕ) (a : Area) (bytes input : List ℕ) (fb : FrameBuffer) (d : Decoder) (next : Step)
    → check_rect a.x a.y a.w a.h fb ≡ true
    → (mid : FrameBuffer) × ((bitmap size a bytes followed_by next) (about_to input fb d)
        ≡ next (about_to input mid d))
      × Holds a.h a.w (a.y * fb.width + a.x) (λ j i. pixel_at size bytes (j * a.w + i)) fb mid
unfolding bitmap
bitmap-Holds size a bytes input fb d next fits =
    let (mid, e, s) =
      put_rows-Holds a.h a.w (a.y * fb.width + a.x) (λ j i. pixel_at size bytes (j * a.w + i)) fb
        (check_rect-Room a.x a.y a.w a.h fb fits) in
    (
      mid,
      drawing-followed_by (copy_rectangle (pixel_at size bytes) a.x a.y a.w a.h) next
            (about_to input fb d)
          ∙ (unfold copy_rectangle in rw fits (rw e refl)),
      s,
    )

no_bytes : (xs : List ℕ) → length xs ≡ 0 → xs ≡ []
no_bytes [] e = refl
no_bytes (x ∷ xs) e = absurd (omega (arith, e))

no_rows : (n : ℕ) → n * 0 ≡ 0
no_rows n = grind arith

-- Nothing is left.
pub Draws-end :
    (size : ℕ) (a : Area) (bytes rest : List ℕ) (d : Decoder) (fb : FrameBuffer)
    → a.h ≡ 0
    → length bytes ≡ size * a.w * a.h
    → Draws size a bytes rest d fb (succeed (about_to (bytes ++ rest) fb d))
Draws-end size a bytes rest d fb over len =
    let nothing : bytes ≡ [] =
      no_bytes bytes (len ∙ ap (λ t. size * a.w * t) over ∙ no_rows (size * a.w)) in
    record {
      frame = fb;
      returns = ap (λ b. done (about_to (b ++ rest) fb d, true)) nothing;
      holds = record {
        inside = λ j i lj li. absurd (omega (arith, lj, over));
        outside = λ c h. refl;
        width = refl;
        height = refl;
      };
    }

-- The lines that are left after a block.
unfoldable pub left_after : Area → ℕ → Area
left_after a lines = record a { y = a.y + lines; h = a.h - lines }

-- A block, and what is drawn after it.
pub Draws-block :
    (size at_once : ℕ) (a : Area) (bytes rest : List ℕ) (d : Decoder) (fb mid : FrameBuffer)
    (o : Outcome (Decoder × Bool)) (lines : ℕ)
    → a.w ≤ fb.width
    → lines ≤ a.h
    → Holds lines a.w
        (a.y * fb.width + a.x)
        (λ j i. pixel_at size (take (size * a.w * lines) bytes) (j * a.w + i))
        fb
        mid
    → Draws size (left_after a lines) (drop (size * a.w * lines) bytes) rest d mid o
    → Draws size a bytes rest d fb o
unfolding left_after
Draws-block size at_once a bytes rest d fb mid o lines narrow few r s =
    let value = λ (j i : ℕ). pixel_at size bytes (j * a.w + i) in
    let k = a.y * fb.width + a.x in
    let first : Holds lines a.w k value fb mid =
      Holds-of lines a.w k _ value fb mid
        (λ j i lj li. pixel_at-take size a.w lines j i bytes lj li) r in
    let start : (a.y + lines) * mid.width + a.x ≡ k + lines * fb.width =
      ap (λ t. (a.y + lines) * t + a.x) r.width ∙ below_block a.y lines fb.width a.x in
    let second : Holds (a.h - lines) a.w (k + lines * fb.width) (λ j. value (lines + j)) mid
        s.frame =
      subst (λ t. Holds (a.h - lines) a.w t (λ j. value (lines + j)) mid s.frame) start
        (Holds-of (a.h - lines) a.w ((a.y + lines) * mid.width + a.x) _ (λ j. value (lines + j)) mid
          s.frame (λ j i lj li. pixel_at-drop size a.w lines j i bytes) s.holds) in
    let whole : lines + (a.h - lines) ≡ a.h = omega (arith, few) in
    record {
      frame = s.frame;
      returns = s.returns;
      holds =
          subst (λ t. Holds t a.w k value fb s.frame) whole
            (Holds-append lines (a.h - lines) a.w k value fb mid s.frame narrow first second);
    }

pub block_le :
    (n lines at_once : ℕ) → lines ≤ at_once → at_once * n ≤ buffer_size → n * lines ≤ buffer_size
block_le n lines at_once le fits = omega (arith, mul-le-mul_left n le, mul_comm at_once n, fits)

pub split_area : (n lines h : ℕ) → lines ≤ h → n * (h - lines) ≡ n * h - n * lines
split_area n lines h le =
    let e : h ≡ lines + (h - lines) = omega (arith, le) in
    omega (arith, ap (λ t. n * t) e, mul_add n lines (h - lines))

pub raw_block :
    (size lines : ℕ) (a : Area) (bytes rest : List ℕ) (fb : FrameBuffer) (d : Decoder) (next : Step)
    → lines ≤ a.h
    → size * a.w * lines ≤ length bytes
    → size * a.w * lines ≤ buffer_size
    → a.x + a.w ≤ fb.width
    → a.y + a.h ≤ fb.height
    → (mid : FrameBuffer) × (buffering
          (size * a.w * lines)
          (λ b. bitmap size (record a { h = lines }) b followed_by next)
          (about_to (bytes ++ rest) fb d)
        ≡ next (about_to (drop (size * a.w * lines) bytes ++ rest) mid d))
      × Holds lines a.w
          (a.y * fb.width + a.x)
          (λ j i. pixel_at size (take (size * a.w * lines) bytes) (j * a.w + i))
          fb
          mid
raw_block size lines a bytes rest fb d next few enough room across down =
    let n = size * a.w * lines in
    let front = take n bytes in
    let (mid, e, r) =
      bitmap-Holds size (record a { h = lines }) front (drop n bytes ++ rest) fb d next
        (check_of a.x a.y a.w lines fb across (omega (arith, few, down))) in
    let cut : bytes ++ rest ≡ front ++ (drop n bytes ++ rest) =
      ap (λ b. b ++ rest) (sym (take-append-drop n bytes))
      ∙ append_assoc front (drop n bytes) rest in
    let k = λ (b : List ℕ). bitmap size (record a { h = lines }) b followed_by next in
    (
      mid,
      ap (λ b. buffering n k (about_to b fb d)) cut
          ∙ buffering-append n k front (drop n bytes ++ rest) (about_to [] fb d)
              (length-take_le n bytes enough) room
          ∙ e,
      r,
    )

pub Fitting-next :
    (size at_once : ℕ) (a : Area) (fb mid : FrameBuffer) (lines : ℕ)
    → lines ≤ a.h
    → mid.width ≡ fb.width
    → mid.height ≡ fb.height
    → Fitting size at_once a fb
    → Fitting size at_once (left_after a lines) mid
unfolding left_after
Fitting-next size at_once a fb mid lines few ew eh fit = record {
  across = omega (arith, fit.across, ew);
  down = omega (arith, fit.down, eh, few);
  some_lines = fit.some_lines;
  room = fit.room;
}
