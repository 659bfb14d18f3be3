-- ===== src/Decoding/Runs/Cursors.antt =====
-- A cursor of three by two on a client whose pixels have one byte: src/cursor.c.
use wlvncc.Base.{
  ℕ, ◌≡◌, refl, Bool, true, false, List, [], ◌∷◌, Option, none, some, Outcome, done, ◌>>=◌,
}
use wlvncc.Rfb.{Area, byte_at}
use wlvncc.Decoding.{reading, ◌followed_by◌}
use wlvncc.Decoding.Cursor.{
  handle_cursor_shape, got_cursor_shape, set_mask, add_mask, read_source, x_cursor, or_forget,
  set_source, pick_pixels, host_bytes, rgb24_to_pixel, component, bits_of, row_bits, whole_bytes,
  top_bits,
}
use wlvncc.Decoding.Painting.{given}
use wlvncc.Decoding.Runs.{client}

abbrev arrow : Area
arrow = record { x = 0; y = 0; w = 3; h = 2 }

-- The source, the masks, the bytes that are left and the result.
abbrev Shape : Type 0
Shape = Option (List ℕ) × List (List ℕ) × List ℕ × Bool

run_cursor : ℕ → List ℕ → Outcome Shape
unfolding handle_cursor_shape got_cursor_shape set_mask add_mask read_source x_cursor or_forget
    set_source pick_pixels host_bytes rgb24_to_pixel component bits_of row_bits whole_bytes top_bits
    byte_at reading ◌followed_by◌ client
run_cursor encoding bytes =
    handle_cursor_shape (λ room. true) arrow encoding (given bytes client) >>= λ r.
    done (r.0.source, r.0.masks, r.0.input, r.1)

-- A black ring on white: the colours are the foreground's and the background's.
x_cursor_runs :
    run_cursor 4294967056 (0 ∷ 0 ∷ 0 ∷ 255 ∷ 255 ∷ 255 ∷ 160 ∷ 64 ∷ 224 ∷ 96 ∷ 7 ∷ [])
    ≡ done
        (some (0 ∷ 255 ∷ 0 ∷ 255 ∷ 0 ∷ 255 ∷ []), (1 ∷ 1 ∷ 1 ∷ 0 ∷ 1 ∷ 1 ∷ []) ∷ [], 7 ∷ [], true)
unfolding run_cursor
x_cursor_runs = refl

rich_cursor_runs :
    run_cursor 4294967057 (1 ∷ 2 ∷ 3 ∷ 4 ∷ 5 ∷ 6 ∷ 128 ∷ 32 ∷ [])
    ≡ done (some (1 ∷ 2 ∷ 3 ∷ 4 ∷ 5 ∷ 6 ∷ []), (1 ∷ 0 ∷ 0 ∷ 0 ∷ 0 ∷ 1 ∷ []) ∷ [], [], true)
unfolding run_cursor
rich_cursor_runs = refl

-- The mask does not come: the source is forgotten.
cut_short_runs :
    run_cursor 4294967057 (1 ∷ 2 ∷ 3 ∷ 4 ∷ 5 ∷ 6 ∷ 128 ∷ []) ≡ done (none, [], 128 ∷ [], false)
unfolding run_cursor
cut_short_runs = refl
