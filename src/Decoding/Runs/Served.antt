-- ===== src/Decoding/Runs/Served.antt =====
-- Messages of the server as bytes, and the loop over them.
use wlvncc.Base.{
  ℕ, ◌≡◌, refl, Bool, true, false, List, [], ◌∷◌, length, some, Outcome, done, endless, ◌>>=◌,
}
use wlvncc.Rfb.{default_supported_messages, set_supported}
use wlvncc.FrameBuffer.{fill_rectangle, copy_rectangle, copy_rectangle_from_rectangle}
use wlvncc.Decoding.{
  Event, Decoder, reading, buffering, drawing, ◌followed_by◌, field, host, network, pixel_at,
}
use wlvncc.Base.Masks.{has_bit}
use wlvncc.Decoding.Rectangles.{
  handle_rre, handle_corre, handle_raw, raw_lines, handle_copy_rect, rre_subrects, corre_subrects,
  handle_hextile, hextile_rows, hextile_row, hextile_tile, hextile_subrects, hextile_plain,
  hextile_coloured, hextile_area, set_background, set_foreground, fill_background, fill_foreground,
  fill, bitmap, inner,
}
use wlvncc.Decoding.Update.{
  server_identity, handle_framebuffer_update, conclude, request_next, request, handle_rects,
  handle_rect, handle_pixels, rect_too_large, got_update, area_of, draw_rect, take_extended_keys,
  take_supported_messages, handle_ext_desktop_size, settle_size, no_resize_requested, read_screens,
  see_screen, handle_led_state, request_anyway, resize_client_buffer,
}
use wlvncc.Decoding.Painting.{given}
use wlvncc.Decoding.Message.{
  handle_rfb_server_message, handle_message, unknown_message, new_size, server_xvp, support_xvp,
  server_text_chat, server_cut_text, text, calling,
}
use wlvncc.Decoding.Processing.{Around}
use wlvncc.VncClient.{VncClient, no_pts}
use wlvncc.Window.Boxes.{boxes}
use wlvncc.Decoding.{bell, cut_text, text_chat, xvp}
use wlvncc.Decoding.Runs.{callbacks, callbacks-SafeCallbacks, client, rre_update}

-- The events, the bytes that are left and the result.
abbrev Heard : Type 0
Heard = List Event × List ℕ × Bool

run_message : List ℕ → Outcome Heard
unfolding handle_rfb_server_message handle_message unknown_message new_size server_xvp support_xvp
    server_text_chat server_cut_text text calling server_identity handle_framebuffer_update conclude
    request_next request handle_rects handle_rect handle_pixels rect_too_large got_update area_of
    draw_rect take_extended_keys take_supported_messages handle_ext_desktop_size settle_size
    no_resize_requested read_screens see_screen handle_led_state request_anyway resize_client_buffer
    handle_raw raw_lines handle_copy_rect handle_rre rre_subrects handle_corre corre_subrects
    handle_hextile hextile_rows hextile_row hextile_tile hextile_subrects hextile_plain
    hextile_coloured hextile_area set_background set_foreground fill_background fill_foreground fill
    bitmap inner reading buffering drawing ◌followed_by◌ field host network pixel_at has_bit
    fill_rectangle copy_rectangle copy_rectangle_from_rectangle set_supported
    default_supported_messages client
run_message bytes = handle_rfb_server_message callbacks (given bytes client) >>= λ r.
    done (r.0.events, r.0.input, r.1)

bell_runs : run_message (2 ∷ 7 ∷ []) ≡ done (bell ∷ [], 7 ∷ [], true)
unfolding run_message
bell_runs = refl

cut_text_runs :
    run_message (3 ∷ 0 ∷ 0 ∷ 0 ∷ 0 ∷ 0 ∷ 0 ∷ 2 ∷ 104 ∷ 105 ∷ 7 ∷ [])
    ≡ done (cut_text (104 ∷ 105 ∷ []) ∷ [], 7 ∷ [], true)
unfolding run_message
cut_text_runs = refl

-- More than a megabyte is not read.
cut_text_too_long :
    run_message (3 ∷ 0 ∷ 0 ∷ 0 ∷ 0 ∷ 16 ∷ 0 ∷ 1 ∷ 104 ∷ []) ≡ done ([], 104 ∷ [], false)
unfolding run_message
cut_text_too_long = refl

text_chat_runs :
    run_message (11 ∷ 0 ∷ 0 ∷ 0 ∷ 255 ∷ 255 ∷ 255 ∷ 254 ∷ 7 ∷ [])
    ≡ done (text_chat 4294967294 [] ∷ [], 7 ∷ [], true)
unfolding run_message
text_chat_runs = refl

xvp_runs : run_message (250 ∷ 0 ∷ 1 ∷ 1 ∷ 7 ∷ []) ≡ done (xvp 1 1 ∷ [], 7 ∷ [], true)
unfolding run_message
xvp_runs = refl

-- Colours: only the type is read, and what follows is left for the next message.
set_colours_runs :
    run_message (1 ∷ 0 ∷ 0 ∷ 0 ∷ 0 ∷ 1 ∷ []) ≡ done ([], 0 ∷ 0 ∷ 0 ∷ 0 ∷ 1 ∷ [], true)
unfolding run_message
set_colours_runs = refl

-- A framebuffer without columns, on which a copy downwards does not end.
no_columns_runs :
    (handle_rfb_server_message callbacks
      (record (given
        (0 ∷ 0 ∷ 0 ∷ 1 ∷ 0 ∷ 0 ∷ 0 ∷ 1 ∷ 0 ∷ 0 ∷ 0 ∷ 1 ∷ 0 ∷ 0 ∷ 0 ∷ 1 ∷ 0 ∷ 0 ∷ 0 ∷ 0 ∷ [])
        client) {
          size = record { width = 0; height = 3 };
          frame = some (record { width = 0; height = 3; cells = λ i. 0 });
        }))
    ≡ endless
unfolding run_message
no_columns_runs = refl

-- All that the server sends is in the buffer, and the callbacks say that an update has come to its
-- end.
around : Around boxes callbacks callbacks-SafeCallbacks
around = record {
  buffered = λ d. length d.input;
  read_to_buffer = λ d. (d, true);
  read_to_buffer-frame = λ d. refl;
  react = λ d c. record c { is_updating = false };
  react-lock = λ d c. refl;
}

abbrev idle : VncClient boxes
idle = record {
  width = 4;
  height = 3;
  bits_per_pixel = 8;
  frame_buffer = λ x y. 0;
  has_open_h264 = false;
  current_rect_is_av_frame = false;
  av_frames = [];
  pts = no_pts;
  damage = [];
  handler_lock = false;
  is_updating = false;
}

abbrev two_messages : Decoder
two_messages = given (2 ∷ 0 ∷ rre_update) client
