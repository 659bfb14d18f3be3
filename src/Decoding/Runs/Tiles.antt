-- ===== src/Decoding/Runs/Tiles.antt =====
-- Tiles of src/encodings/trle.c on a framebuffer of four by three with pixels of one byte.
use wlvncc.Base.{
  ℕ, ◌≡◌, refl, Bool, true, false, List, [], ◌∷◌, replicate, Outcome, done, fault, ◌>>=◌,
}
use wlvncc.Rfb.{byte_at}
use wlvncc.FrameBuffer.{fill_rectangle, copy_rectangle, put, put_run, put_rows}
use wlvncc.Decoding.{reading, drawing, ◌followed_by◌, host, pixel_at}
use wlvncc.Decoding.Rectangles.{fill, bitmap}
use wlvncc.Decoding.Trle.{
  into, draw_rows, put_cells, draw_run, packed_pixel, packed, as_before, run_length, plain_runs,
  palette_runs, read_palette, trle_tile, trle_row, trle_rows, handle_trle,
}
use wlvncc.Decoding.Painting.{given}
use wlvncc.Decoding.Runs.{client, whole, cells_of}

-- The cells, the bytes that are left and the result.
abbrev Drawn : Type 0
Drawn = List ℕ × List ℕ × Bool

run_trle : List ℕ → Outcome Drawn
unfolding handle_trle trle_rows trle_row trle_tile read_palette palette_runs plain_runs run_length
    as_before packed packed_pixel draw_run put_cells draw_rows into fill bitmap fill_rectangle
    copy_rectangle put put_run put_rows reading drawing ◌followed_by◌ host pixel_at byte_at client
run_trle bytes = handle_trle 0 (λ i. 0) 1 whole (given bytes client) >>= λ r.
    done (cells_of r.0.frame, r.0.input, r.1)

-- A colour for the whole tile.
solid_runs :
    run_trle (1 ∷ 5 ∷ 9 ∷ [])
    ≡ done (5 ∷ 5 ∷ 5 ∷ 5 ∷ 5 ∷ 5 ∷ 5 ∷ 5 ∷ 5 ∷ 5 ∷ 5 ∷ 5 ∷ [], 9 ∷ [], true)
unfolding run_trle
solid_runs = refl

-- Two colours, a bit for each pixel.
packed_runs :
    run_trle (2 ∷ 3 ∷ 4 ∷ 160 ∷ 96 ∷ 240 ∷ 9 ∷ [])
    ≡ done (4 ∷ 3 ∷ 4 ∷ 3 ∷ 3 ∷ 4 ∷ 4 ∷ 3 ∷ 4 ∷ 4 ∷ 4 ∷ 4 ∷ [], 9 ∷ [], true)
unfolding run_trle
packed_runs = refl

-- Runs of five and of seven pixels.
plain_runs_run :
    run_trle (128 ∷ 3 ∷ 4 ∷ 8 ∷ 6 ∷ 9 ∷ [])
    ≡ done (3 ∷ 3 ∷ 3 ∷ 3 ∷ 3 ∷ 8 ∷ 8 ∷ 8 ∷ 8 ∷ 8 ∷ 8 ∷ 8 ∷ [], 9 ∷ [], true)
unfolding run_trle
plain_runs_run = refl

-- The same with a palette of two: one pixel, and a run of eleven.
palette_runs_run :
    run_trle (130 ∷ 3 ∷ 4 ∷ 1 ∷ 128 ∷ 10 ∷ 9 ∷ [])
    ≡ done (4 ∷ 3 ∷ 3 ∷ 3 ∷ 3 ∷ 3 ∷ 3 ∷ 3 ∷ 3 ∷ 3 ∷ 3 ∷ 3 ∷ [], 9 ∷ [], true)
unfolding run_trle
palette_runs_run = refl

-- There is no tile before the first.
nothing_before_runs :
    run_trle (127 ∷ 9 ∷ [])
    ≡ done (0 ∷ 0 ∷ 0 ∷ 0 ∷ 0 ∷ 0 ∷ 0 ∷ 0 ∷ 0 ∷ 0 ∷ 0 ∷ 0 ∷ [], 9 ∷ [], false)
unfolding run_trle
nothing_before_runs = refl

-- A run of one pixel, and one whose length does not end: what is read goes beyond the buffer.
long_run_overflows : run_trle (128 ∷ 3 ∷ 0 ∷ 8 ∷ replicate 511 255) ≡ fault
unfolding run_trle
long_run_overflows = refl
