-- ===== src/Decoding/Runs/Paints.antt =====
-- What the encodings draw (src/encodings, src/rfbproto.c), with subrectangles and a bitmap.
use wlvncc.Base.{
  ◌-◌, ◌*◌, ◌+◌, ◌≡◌, refl, true, List, [], ◌∷◌, ◌++◌, All, if◌then◌else◌, done, arith,
}
use wlvncc.Rfb.{Area}
use wlvncc.FrameBuffer.{FrameBuffer, check_rect}
use wlvncc.Decoding.{pixel_at}
use wlvncc.Decoding.Rectangles.{handle_rre, handle_corre, handle_raw}
use wlvncc.Decoding.Painting.{
  Subrect, Within, encode_rre, encode_corre, given, drawn, paint, handle_rre-paint,
}
use wlvncc.Decoding.Painting.Compact.{corre_as_rre}
use wlvncc.Decoding.Painting.Raw.{handle_raw_draws}
use wlvncc.Decoding.Painting.Raw.Blocks.{about_to}
use wlvncc.FrameBuffer.Filling.{in_rect, pixel}
use wlvncc.Decoding.Runs.{client, whole}

abbrev dots : List Subrect
dots =
    record { pixel = 7 ∷ []; x = 1; y = 1; w = 2; h = 1 }
    ∷ record { pixel = 8 ∷ []; x = 0; y = 2; w = 1; h = 1 }
    ∷ []

dots-Within : All (Within 1 256) dots
dots-Within = (
  (refl, omega arith, omega arith, omega arith, omega arith),
  ((refl, omega arith, omega arith, omega arith, omega arith), tt),
)

dots-Within16 : All (Within 1 65536) dots
dots-Within16 = (
  (refl, omega arith, omega arith, omega arith, omega arith),
  ((refl, omega arith, omega arith, omega arith, omega arith), tt),
)

handle_rre-paint_example :
    handle_rre 1 whole (given (encode_rre (5 ∷ []) dots ++ 99 ∷ []) client)
    ≡ drawn (99 ∷ []) client (paint whole (5 ∷ []) dots client.frame)
handle_rre-paint_example =
    handle_rre-paint 1 whole (5 ∷ []) (99 ∷ []) dots client refl (omega arith) dots-Within16

corre_as_rre_example :
    handle_corre 1 whole (given (encode_corre (5 ∷ []) dots ++ 99 ∷ []) client)
    ≡ handle_rre 1 whole (given (encode_rre (5 ∷ []) dots ++ 99 ∷ []) client)
corre_as_rre_example =
    corre_as_rre 1 whole (5 ∷ []) (99 ∷ []) dots client refl (omega arith) dots-Within

abbrev blank : FrameBuffer
blank = record { width = 4; height = 3; cells = λ i. 0 }

abbrev corner : Area
corner = record { x = 1; y = 1; w = 2; h = 2 }

corner-fits : check_rect 1 1 2 2 blank ≡ true
unfolding check_rect
corner-fits = refl

handle_raw_draws_example :
    (fb' : FrameBuffer) × (handle_raw 1 corner
        (about_to ((1 ∷ 2 ∷ 3 ∷ 4 ∷ []) ++ 99 ∷ []) blank client)
      ≡ done (about_to (99 ∷ []) fb' client, true))
    × (pixel fb' 2 1 ≡ (
        if in_rect 1 1 2 2 2 1
        then pixel_at 1 (1 ∷ 2 ∷ 3 ∷ 4 ∷ []) ((1 - 1) * 2 + (2 - 1))
        else pixel blank 2 1))
handle_raw_draws_example =
    handle_raw_draws 1 corner (1 ∷ 2 ∷ 3 ∷ 4 ∷ []) (99 ∷ []) blank client 2 1 (omega arith)
      (omega arith) corner-fits refl (omega arith)
