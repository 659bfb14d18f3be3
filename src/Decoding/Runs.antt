-- ===== src/Decoding/Runs.antt =====
-- Updates as bytes (src/rfbproto.c, src/encodings), on a framebuffer of four by three with pixels of
-- one byte.
pub mod Cursors
pub mod Paints
pub mod Served
pub mod Tiles
use wlvncc.Base.{
  ltb, ◌&&◌, ◌*◌, both_true, arith, ℕ, ◌-◌, ◌+◌, ◌≡◌, refl, Bool, true, false, List, [], ◌∷◌, ◌++◌,
  Option, none, some, if◌then◌else◌, Outcome, done, ◌>>=◌,
}
use wlvncc.Rfb.{Area, Size, default_supported_messages, set_supported}
use wlvncc.FrameBuffer.{FrameBuffer, fill_rectangle, copy_rectangle, copy_rectangle_from_rectangle}
use wlvncc.Decoding.{
  Event, started, finished, cancelled, updated, requested, Decoder, give_up, reading, buffering,
  drawing, ◌followed_by◌, field, host, network, pixel_at,
}
use wlvncc.Base.Masks.{has_bit}
use wlvncc.Decoding.Rectangles.{
  handle_rre, handle_corre, handle_raw, raw_lines, handle_copy_rect, rre_subrects, corre_subrects,
  handle_hextile, hextile_rows, hextile_row, hextile_tile, hextile_subrects, hextile_plain,
  hextile_coloured, hextile_area, set_background, set_foreground, fill_background, fill_foreground,
  fill, bitmap, inner,
}
use wlvncc.Decoding.Update.{
  Callbacks, server_identity, handle_framebuffer_update, conclude, request_next, request,
  handle_rects, handle_rect, handle_pixels, rect_too_large, got_update, area_of, draw_rect,
  take_extended_keys, take_supported_messages, handle_ext_desktop_size, settle_size,
  no_resize_requested, read_screens, see_screen, handle_led_state, request_anyway,
  resize_client_buffer,
}
use wlvncc.Decoding.Safety.{Safe-give_up}
use wlvncc.Decoding.Safety.Whole.{SafeCallbacks}
use wlvncc.Decoding.Painting.{given, drawn}

-- A size that can be had: it has columns, and fewer than 2^31 cells.
abbrev allowed : Size → Bool
allowed size = ltb 0 size.width && ltb (size.width * size.height) 2147483648

abbrev fresh_cells : Bool → Option (ℕ → ℕ)
fresh_cells true = some (λ i. 0)
fresh_cells false = none

fresh_cells-some : (b : Bool) (cells : ℕ → ℕ) → fresh_cells b ≡ some cells → b ≡ true
fresh_cells-some true cells e = refl
fresh_cells-some false cells e = cc

abbrev pub callbacks : Callbacks
callbacks = record {
  allocate = λ size. done (fresh_cells (allowed size));
  cursor_pos = λ x y. true;
  request_update = λ a incremental. true;
  other_encoding = λ a encoding. give_up;
  other_message = λ type. give_up;
  memory = λ room. true;
  stale = 9;
}

pub callbacks-SafeCallbacks : SafeCallbacks callbacks
callbacks-SafeCallbacks = record {
  allocate = λ size. (
    fresh_cells (allowed size),
    refl,
    λ cells e.
        let (wide, few) =
          both_true {a = ltb 0 size.width} (fresh_cells-some (allowed size) cells e) in
        (ground (arith, wide), ground (arith, few)),
  );
  other_encoding = λ a encoding. Safe-give_up;
  other_message = λ type. Safe-give_up;
}

abbrev pub client : Decoder
unfolding default_supported_messages
client = record {
  input = [];
  supported = default_supported_messages;
  bits_per_pixel = 8;
  colours = record {
    red_max = 7;
    green_max = 7;
    blue_max = 3;
    red_shift = 5;
    green_shift = 2;
    blue_shift = 0;
  };
  size = record { width = 4; height = 3 };
  frame = some (record { width = 4; height = 3; cells = λ i. 0 });
  update_rect = record { x = 0; y = 0; w = 4; h = 3 };
  screen = record { width = 4; height = 3 };
  requested_resize = false;
  led = 0;
  background = 0;
  foreground = 0;
  source = none;
  masks = [];
  events = [];
}

abbrev pub whole : Area
whole = record { x = 0; y = 0; w = 4; h = 3 }

abbrev pub cells_of : Option FrameBuffer → List ℕ
cells_of none = []
cells_of (some fb) =
    fb.cells 0
    ∷ fb.cells 1
    ∷ fb.cells 2
    ∷ fb.cells 3
    ∷ fb.cells 4
    ∷ fb.cells 5
    ∷ fb.cells 6
    ∷ fb.cells 7
    ∷ fb.cells 8
    ∷ fb.cells 9
    ∷ fb.cells 10
    ∷ fb.cells 11
    ∷ []

-- What is looked at: the cells, the events, the bytes that are left and the result.
abbrev pub Seen : Type 0
Seen = List ℕ × List Event × List ℕ × Bool

abbrev pub seen : Outcome (Decoder × Bool) → Outcome Seen
seen o = o >>= λ r. done (cells_of r.0.frame, r.0.events, r.0.input, r.1)

run_update : List ℕ → Outcome Seen
unfolding server_identity handle_framebuffer_update conclude request_next request handle_rects
    handle_rect handle_pixels rect_too_large got_update area_of draw_rect take_extended_keys
    take_supported_messages handle_ext_desktop_size settle_size no_resize_requested read_screens
    see_screen handle_led_state request_anyway resize_client_buffer handle_raw raw_lines
    handle_copy_rect handle_rre rre_subrects handle_corre corre_subrects handle_hextile hextile_rows
    hextile_row hextile_tile hextile_subrects hextile_plain hextile_coloured hextile_area
    set_background set_foreground fill_background fill_foreground fill bitmap inner reading
    buffering drawing ◌followed_by◌ field host network pixel_at has_bit fill_rectangle
    copy_rectangle copy_rectangle_from_rectangle set_supported default_supported_messages client
run_update bytes = seen (handle_framebuffer_update callbacks (given bytes client))

abbrev pub ending : Bool → List Event → List Event
ending true es = started ∷ es ++ (requested whole true ∷ finished ∷ [])
ending false es = started ∷ es ++ cancelled ∷ []

-- The header of an update of one rectangle.
abbrev pub one : ℕ → ℕ → ℕ → ℕ → ℕ → List ℕ
one x y w h encoding = 0 ∷ 0 ∷ 1 ∷ 0 ∷ x ∷ 0 ∷ y ∷ 0 ∷ w ∷ 0 ∷ h ∷ 0 ∷ 0 ∷ 0 ∷ encoding ∷ []

abbrev pub rre_update : List ℕ
rre_update = one 0 0 4 3 2 ++ (0 ∷ 0 ∷ 0 ∷ 1 ∷ 5 ∷ 7 ∷ 0 ∷ 1 ∷ 0 ∷ 1 ∷ 0 ∷ 2 ∷ 0 ∷ 1 ∷ 99 ∷ [])

rre_runs :
    run_update rre_update
    ≡ done (
      5 ∷ 5 ∷ 5 ∷ 5 ∷ 5 ∷ 7 ∷ 7 ∷ 5 ∷ 5 ∷ 5 ∷ 5 ∷ 5 ∷ [],
      ending true (updated whole ∷ []),
      99 ∷ [],
      true,
    )
unfolding run_update
rre_runs = refl

corre_runs :
    run_update (one 0 0 4 3 4 ++ (0 ∷ 0 ∷ 0 ∷ 1 ∷ 5 ∷ 7 ∷ 1 ∷ 1 ∷ 2 ∷ 1 ∷ []))
    ≡ done (
      5 ∷ 5 ∷ 5 ∷ 5 ∷ 5 ∷ 7 ∷ 7 ∷ 5 ∷ 5 ∷ 5 ∷ 5 ∷ 5 ∷ [],
      ending true (updated whole ∷ []),
      [],
      true,
    )
unfolding run_update
corre_runs = refl

-- More subrectangles than the buffer holds: refused before they are read.
corre_guard_runs :
    run_update (one 0 0 4 3 4 ++ (0 ∷ 1 ∷ 0 ∷ 0 ∷ 5 ∷ 7 ∷ []))
    ≡ done (5 ∷ 5 ∷ 5 ∷ 5 ∷ 5 ∷ 5 ∷ 5 ∷ 5 ∷ 5 ∷ 5 ∷ 5 ∷ 5 ∷ [], ending false [], 7 ∷ [], false)
unfolding run_update
corre_guard_runs = refl

-- One tile: a background, a foreground, and two subrectangles of it.
hextile_runs :
    run_update (one 0 0 4 3 5 ++ (14 ∷ 3 ∷ 4 ∷ 2 ∷ 0 ∷ 0 ∷ 33 ∷ 16 ∷ []))
    ≡ done (
      4 ∷ 3 ∷ 3 ∷ 3 ∷ 3 ∷ 3 ∷ 4 ∷ 4 ∷ 3 ∷ 3 ∷ 3 ∷ 3 ∷ [],
      ending true (updated whole ∷ []),
      [],
      true,
    )
unfolding run_update
hextile_runs = refl

-- A tile that names a foreground nowhere: what the variable happened to hold is drawn.
hextile_stale_runs :
    run_update (one 0 0 4 3 5 ++ (8 ∷ 1 ∷ 0 ∷ 0 ∷ []))
    ≡ done (
      9 ∷ 0 ∷ 0 ∷ 0 ∷ 0 ∷ 0 ∷ 0 ∷ 0 ∷ 0 ∷ 0 ∷ 0 ∷ 0 ∷ [],
      ending true (updated whole ∷ []),
      [],
      true,
    )
unfolding run_update
hextile_stale_runs = refl

raw_runs :
    run_update (one 1 1 2 2 0 ++ (1 ∷ 2 ∷ 3 ∷ 4 ∷ []))
    ≡ done (
      0 ∷ 0 ∷ 0 ∷ 0 ∷ 0 ∷ 1 ∷ 2 ∷ 0 ∷ 0 ∷ 3 ∷ 4 ∷ 0 ∷ [],
      ending true (updated (record { x = 1; y = 1; w = 2; h = 2 }) ∷ []),
      [],
      true,
    )
unfolding run_update
raw_runs = refl

-- A rectangle that reaches beyond the framebuffer, and a connection that ends.
too_large_runs :
    run_update (one 1 1 4 2 0 ++ (1 ∷ []))
    ≡ done (0 ∷ 0 ∷ 0 ∷ 0 ∷ 0 ∷ 0 ∷ 0 ∷ 0 ∷ 0 ∷ 0 ∷ 0 ∷ 0 ∷ [], ending false [], 1 ∷ [], false)
unfolding run_update
too_large_runs = refl

-- A new size: the framebuffer is allocated anew, and all of it is asked for.
resize_runs :
    run_update (0 ∷ 0 ∷ 1 ∷ 0 ∷ 0 ∷ 0 ∷ 0 ∷ 0 ∷ 6 ∷ 0 ∷ 2 ∷ 255 ∷ 255 ∷ 255 ∷ 33 ∷ [])
    ≡ done (
      0 ∷ 0 ∷ 0 ∷ 0 ∷ 0 ∷ 0 ∷ 0 ∷ 0 ∷ 0 ∷ 0 ∷ 0 ∷ 0 ∷ [],
      started
          ∷ requested (record { x = 0; y = 0; w = 6; h = 2 }) false
          ∷ requested (record { x = 0; y = 0; w = 6; h = 2 }) true
          ∷ finished
          ∷ [],
      [],
      true,
    )
unfolding run_update
resize_runs = refl
