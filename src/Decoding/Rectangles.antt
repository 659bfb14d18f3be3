-- ===== src/Decoding/Rectangles.antt =====
-- The raw, copy-rectangle, RRE, CoRRE and hextile encodings: src/encodings/rre.c, corre.c and
-- hextile.c, and the cases of HandleFramebufferUpdate in src/rfbproto.c. A pixel has `size` bytes.
use wlvncc.Base.{
  ℕ, zero, suc, ◌+◌, ◌-◌, ◌*◌, ◌/◌, ◌%◌, true, ◌&&◌, List, drop, take, ltb, ◌==◌, if◌then◌else◌,
  min, done,
}
use wlvncc.Base.Masks.{has_bit}
use wlvncc.Rfb.{Area}
use wlvncc.FrameBuffer.{fill_rectangle, copy_rectangle, copy_rectangle_from_rectangle}
use wlvncc.Decoding.{
  Step, succeed, give_up, ◌followed_by◌, reading, buffering, drawing, network, host, field,
  pixel_at, buffer_size,
}

-- GotFillRect and GotBitmap, called on an area.
unfoldable pub fill : Area → ℕ → Step
fill a colour = drawing (fill_rectangle a.x a.y a.w a.h colour)

unfoldable pub bitmap : ℕ → Area → List ℕ → Step
bitmap size a bytes = drawing (copy_rectangle (pixel_at size bytes) a.x a.y a.w a.h)

-- The loop over the lines that are left, `at_once` lines at a time at most; a round takes one at
-- least, so that `f` rounds are enough for as many lines.
unfoldable pub raw_lines : ℕ → ℕ → ℕ → Area → Step
raw_lines zero size at_once a = succeed
raw_lines (suc f) size at_once a =
    let lines = min at_once a.h in
    let rest : Step = raw_lines f size at_once (record a { y = a.y + lines; h = a.h - lines }) in
    if ltb 0 at_once && ltb 0 a.h
    then buffering (size * a.w * lines)
        (λ bytes. bitmap size (record a { h = lines }) bytes followed_by rest)
    else succeed

unfoldable pub handle_raw : ℕ → Area → Step
handle_raw size a =
    let line = size * a.w in raw_lines a.h size (if line == 0 then 0 else buffer_size / line) a

unfoldable pub handle_copy_rect : Area → Step
handle_copy_rect a = reading 4 (λ bytes.
    drawing (copy_rectangle_from_rectangle (field 0 2 bytes) (field 2 2 bytes) a.w a.h a.x a.y))

-- A rectangle inside another one's coordinates.
unfoldable pub inner : Area → ℕ → ℕ → ℕ → ℕ → Area
inner a x y w h = record { x = a.x + x; y = a.y + y; w = w; h = h }

unfoldable pub rre_subrects : ℕ → ℕ → Area → Step
rre_subrects size zero a = succeed
rre_subrects size (suc n) a = reading size (λ pix. reading 8 (λ sub.
    fill (inner a (field 0 2 sub) (field 2 2 sub) (field 4 2 sub) (field 6 2 sub)) (host pix)
    followed_by rre_subrects size n a))

unfoldable pub handle_rre : ℕ → Area → Step
handle_rre size a =
    reading 4
      (λ hdr. reading size (λ pix. fill a (host pix) followed_by rre_subrects size (network hdr) a))

-- Subrectangles that stand in the buffer: a pixel, and four bytes.
unfoldable pub corre_subrects : ℕ → ℕ → Area → List ℕ → Step
corre_subrects size zero a bytes = succeed
corre_subrects size (suc n) a bytes =
    let sub = drop size bytes in
    fill (inner a (field 0 1 sub) (field 1 1 sub) (field 2 1 sub) (field 3 1 sub))
      (host (take size bytes))
    followed_by corre_subrects size n a (drop 4 sub)

unfoldable pub handle_corre : ℕ → Area → Step
handle_corre size a = reading 4 (λ hdr. reading size (λ pix.
    fill a (host pix)
    followed_by (if ltb (buffer_size / (4 + size)) (network hdr)
        then give_up
        else buffering (network hdr * (4 + size)) (corre_subrects size (network hdr) a))))

-- Hextile. The colours of the tile before are kept in the state.
unfoldable pub set_background : ℕ → Step
set_background colour d = done (record d { background = colour }, true)

unfoldable pub set_foreground : ℕ → Step
set_foreground colour d = done (record d { foreground = colour }, true)

unfoldable pub fill_background : Area → Step
fill_background a d = fill a d.background d

unfoldable pub fill_foreground : Area → Step
fill_foreground a d = fill a d.foreground d

-- Two bytes: column and row, and width and height less one, four bits each.
unfoldable pub hextile_area : Area → List ℕ → Area
hextile_area a bytes =
    let xy = field 0 1 bytes in
    let wh = field 1 1 bytes in inner a (xy / 16) (xy % 16) (wh / 16 + 1) (wh % 16 + 1)

unfoldable pub hextile_coloured : ℕ → ℕ → Area → List ℕ → Step
hextile_coloured size zero a bytes = succeed
hextile_coloured size (suc n) a bytes =
    let sub = drop size bytes in
    set_foreground (host (take size bytes))
    followed_by fill_foreground (hextile_area a sub)
    followed_by hextile_coloured size n a (drop 2 sub)

unfoldable pub hextile_plain : ℕ → Area → List ℕ → Step
hextile_plain zero a bytes = succeed
hextile_plain (suc n) a bytes =
    fill_foreground (hextile_area a bytes) followed_by hextile_plain n a (drop 2 bytes)

unfoldable pub hextile_subrects : ℕ → ℕ → Area → Step
hextile_subrects size sub a =
    if has_bit sub 8
    then reading 1 (λ n.
      if has_bit sub 16
      then buffering (host n * (2 + size)) (hextile_coloured size (host n) a)
      else buffering (host n * 2) (hextile_plain (host n) a))
    else succeed

unfoldable pub hextile_tile : ℕ → Area → Step
hextile_tile size a = reading 1 (λ byte.
    let sub = host byte in
    if has_bit sub 1
    then buffering (a.w * a.h * size) (bitmap size a)
    else ((if has_bit sub 2 then reading size (λ bg. set_background (host bg)) else succeed)
        followed_by fill_background a
        followed_by (if has_bit sub 4
            then reading size (λ fg. set_foreground (host fg))
            else succeed)
        followed_by hextile_subrects size sub a))

-- The tiles of a row, `n` of them, from `x` on; and the rows. A tile is 16 wide and high, the last
-- ones what is left.
unfoldable pub hextile_row : ℕ → ℕ → ℕ → ℕ → ℕ → Area → Step
hextile_row size zero x y h a = succeed
hextile_row size (suc n) x y h a =
    hextile_tile size (record { x = x; y = y; w = min 16 (a.x + a.w - x); h = h })
    followed_by hextile_row size n (x + 16) y h a

unfoldable pub hextile_rows : ℕ → ℕ → ℕ → Area → Step
hextile_rows size zero y a = succeed
hextile_rows size (suc n) y a =
    hextile_row size ((a.w + 15) / 16) a.x y (min 16 (a.y + a.h - y)) a
    followed_by hextile_rows size n (y + 16) a

-- The background starts as 0, the foreground as what the variable's memory holds.
unfoldable pub handle_hextile : ℕ → ℕ → Area → Step
handle_hextile stale size a =
    set_background 0
    followed_by set_foreground stale
    followed_by hextile_rows size ((a.h + 15) / 16) a.y a
