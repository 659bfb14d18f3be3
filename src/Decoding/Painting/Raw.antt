-- ===== src/Decoding/Painting/Raw.antt =====
-- The raw encoding (HandleFramebufferUpdate of src/rfbproto.c): pixels that come in several reads are
-- drawn as if they came in one.
pub mod Pieces
pub mod Blocks
use native.Mathlib.Nat.{mul-le-mul_left}
use wlvncc.Base.{
  ℕ, zero, suc, ◌+◌, ◌-◌, ◌*◌, ◌/◌, ◌≤◌, ◌<◌, ◌≡◌, sym, ap, subst, ◌∙◌, true, false, ◌&&◌, List,
  ◌++◌, length, length-drop, drop, leb, ltb, ◌==◌, min, both_true, if◌then◌else◌, Bool-cases, inl,
  inr, done, arith,
}
use wlvncc.Rfb.{Area}
use wlvncc.FrameBuffer.{FrameBuffer, check_rect}
use wlvncc.FrameBuffer.Filling.{Holds-pixel, check_rect-across, in_rect, pixel}
use wlvncc.Decoding.{Decoder, buffer_size, pixel_at}
use wlvncc.Decoding.Rectangles.{raw_lines, handle_raw}
use wlvncc.Decoding.Safety.{whole_times}
use wlvncc.Decoding.Painting.Raw.Pieces.{}
use wlvncc.Decoding.Painting.Raw.Blocks.{
  Fitting, about_to, Draws, Draws-end, left_after, Draws-block, block_le, split_area, raw_block,
  Fitting-next,
}

lines_left :
    (size w lines h : ℕ) (bytes : List ℕ)
    → lines ≤ h
    → length bytes ≡ size * w * h
    → length bytes - size * w * lines ≡ size * w * (h - lines)
lines_left size w lines h bytes few len =
    ap (λ t. t - size * w * lines) len ∙ sym (split_area (size * w) lines h few)

raw_lines-Draws :
    (f size at_once : ℕ) (a : Area) (bytes rest : List ℕ) (fb : FrameBuffer) (d : Decoder)
    → a.h ≤ f
    → Fitting size at_once a fb
    → length bytes ≡ size * a.w * a.h
    → Draws size a bytes rest d fb (raw_lines f size at_once a (about_to (bytes ++ rest) fb d))
unfolding raw_lines left_after
raw_lines-Draws zero size at_once a bytes rest fb d h fit len =
    Draws-end size a bytes rest d fb (omega (arith, h)) len
raw_lines-Draws (suc f) size at_once a bytes rest fb d h fit len =
    elim (Bool-cases (ltb 0 at_once && ltb 0 a.h)) [
      | inr over ↦
          rw over (Draws-end size a bytes rest d fb (ground (arith, over, fit.some_lines)) len)
      | inl more ↦
          let lines = min at_once a.h in
          let n = size * a.w * lines in
          let few : lines ≤ a.h = ground arith in
          let next = raw_lines f size at_once (left_after a lines) in
          let enough : n ≤ length bytes = omega (arith, len, mul-le-mul_left (size * a.w) few) in
          let (mid, e, r) =
            raw_block size lines a bytes rest fb d next few enough
              (block_le (size * a.w) lines at_once (ground arith) fit.room) fit.across fit.down in
          let after : Draws size (left_after a lines) (drop n bytes) rest d mid
              (next (about_to (drop n bytes ++ rest) mid d)) =
            raw_lines-Draws f size at_once (left_after a lines) (drop n bytes) rest mid d
              (ground (arith, h, more))
              (Fitting-next size at_once a fb mid lines few r.width r.height fit)
              (length-drop n bytes ∙ lines_left size a.w lines a.h bytes few len) in
          rw more (
            subst (Draws size a bytes rest d fb) (sym e) (
              Draws-block size at_once a bytes rest d fb mid _ lines (omega (arith, fit.across)) few
                r after))
    ]

check_rect-down :
    (x y w h : ℕ) (fb : FrameBuffer) → check_rect x y w h fb ≡ true → y + h ≤ fb.height
unfolding check_rect
check_rect-down x y w h fb e =
    ground (arith, (both_true {a = leb (x + w) fb.width} {b = leb (y + h) fb.height} e).1)

some_fit : (b n : ℕ) → 0 < n → n ≤ b → 0 < b / n
some_fit b n pos le = grind arith

-- Raw pixels for a rectangle within the framebuffer, a line of which fits in the client's buffer: as
-- many bytes as the rectangle has are taken, in however many reads, the pixels of the rectangle
-- become those that the bytes are, row by row, and every other pixel is kept.
pub handle_raw_draws :
    (size : ℕ) (a : Area) (bytes rest : List ℕ) (fb : FrameBuffer) (d : Decoder) (px py : ℕ)
    → 0 < size * a.w
    → size * a.w ≤ buffer_size
    → check_rect a.x a.y a.w a.h fb ≡ true
    → length bytes ≡ size * a.w * a.h
    → px < fb.width
    → (fb' : FrameBuffer) × (handle_raw size a (about_to (bytes ++ rest) fb d)
        ≡ done (about_to rest fb' d, true))
      × (pixel fb' px py ≡ (
          if in_rect a.x a.y a.w a.h px py
          then pixel_at size bytes ((py - a.y) * a.w + (px - a.x))
          else pixel fb px py))
unfolding handle_raw
handle_raw_draws size a bytes rest fb d px py wide line fits len column =
    let at_once = buffer_size / (size * a.w) in
    let across = check_rect-across a.x a.y a.w a.h fb fits in
    let fit : Fitting size at_once a fb = record {
      across = across;
      down = check_rect-down a.x a.y a.w a.h fb fits;
      some_lines = some_fit buffer_size (size * a.w) wide line;
      room = whole_times buffer_size (size * a.w);
    } in
    let r = raw_lines-Draws a.h size at_once a bytes rest fb d (omega arith) fit len in
    let some_width : (size * a.w == 0) ≡ false = ground (arith, wide) in
    (
      r.frame,
      rw some_width r.returns,
      Holds-pixel a.x a.y a.w a.h _ fb r.frame px py across column r.holds,
    )
