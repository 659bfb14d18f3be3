-- ===== src/Rfb/Runs.antt =====
-- Runs of the messages of src/rfbproto.c.
use wlvncc.Base.{
  ℕ, ◌+◌, ◌%◌, ◌≤◌, ◌<◌, ◌≡◌, refl, true, false, not, ◌&&◌, ◌||◌, List, [], ◌∷◌, ◌++◌, some, length,
  drop, replicate, All, ◌==◌, done, fault, arith,
}
use wlvncc.Base.Int.{pos, negsuc}
use wlvncc.Sockets.{wrote, would_block}
use wlvncc.Rfb.{
  AppData, Rfb, is_supported, set_supported, clear_supported, default_supported_messages,
  no_messages,
}
use wlvncc.Rfb.Supported.{supported_set_laws}
use wlvncc.Rfb.Messages.{
  send_pointer_event, send_key_event, send_client_cut_text, send_framebuffer_update_request,
  send_scale_setting, text_chat_send, send_ext_desktop_size,
}
use wlvncc.Rfb.Parsing.{
  ClientMessage, update_requested, key, pointer, cut_text, Fits, parse_messages,
}
use wlvncc.Rfb.Delivery.{send_messages, outgoing, send_messages_delivered}
use wlvncc.Rfb.Encodings.{
  cut_at_commas, named, codes, raw, zlib, zlibhex, unknown, Request, no_request, request_entries,
  put_extensions, set_format_and_encodings, max_encodings,
}
use wlvncc.Rfb.Encodings.Fitting.{codes_of_all, request_entries_fit}

abbrev asked : AppData
asked = record {
  encodings_string =
      b'r' ∷ b'a' ∷ b'w' ∷ b',' ∷ b'z' ∷ b',' ∷ b'U' ∷ b'l' ∷ b't' ∷ b'r' ∷ b'a' ∷ [];
  compress_level = pos 1;
  quality_level = pos 50;
  enable_jpeg = true;
  use_remote_cursor = false;
}

abbrev client : Rfb
unfolding default_supported_messages
client = record {
  supported = default_supported_messages;
  format = record {
    bits_per_pixel = 32;
    depth = 24;
    big_endian = 0;
    true_colour = 1;
    red_max = 255;
    green_max = 255;
    blue_max = 255;
    red_shift = 16;
    green_shift = 8;
    blue_shift = 0;
    padding = 0 ∷ 0 ∷ 0 ∷ [];
  };
  app_data = asked;
  size = record { width = 640; height = 480 };
  update_rect = record { x = 0; y = 0; w = 640; h = 480 };
  screen = record { width = 640; height = 480 };
  requested_resize = false;
  sent = 7 ∷ [];
  attempts = wrote 5 ∷ would_block true ∷ replicate 20 (wrote 100);
}

-- The sets that the library starts from.
default_runs :
    (is_supported default_supported_messages.client2server 6 ≡ true)
    × (is_supported default_supported_messages.client2server 7 ≡ false)
    × (is_supported default_supported_messages.client2server 255 ≡ false)
unfolding is_supported default_supported_messages
default_runs = (refl, refl, refl)

small_bytes : All (λ b. b < 256) no_messages
small_bytes = search (arith)

supported_set_laws_example :
    (is_supported (set_supported no_messages 255) 255
      ≡ (255 % 256 == 255 % 256 || is_supported no_messages 255))
    × (is_supported (clear_supported no_messages 255) 255
        ≡ (not (255 % 256 == 255 % 256) && is_supported no_messages 255))
supported_set_laws_example = supported_set_laws no_messages refl small_bytes 255 255

abbrev typed : List ClientMessage
typed =
    key true 97
    ∷ pointer 1 300 200
    ∷ cut_text (104 ∷ 105 ∷ [])
    ∷ update_requested true 0 0 640 480
    ∷ []

typed-Fits : All Fits typed
typed-Fits = (
  omega arith,
  (
    (omega arith, omega arith, omega arith),
    (omega arith, ((omega arith, omega arith, omega arith, omega arith), tt)),
  ),
)

abbrev after_typed : Rfb
after_typed = record client {
  sent =
      7 ∷ 4 ∷ 1 ∷ 0 ∷ 0 ∷ 0 ∷ 0 ∷ 0 ∷ 97 ∷ 5 ∷ 1 ∷ 1 ∷ 44 ∷ 0 ∷ 200 ∷ 6 ∷ 0 ∷ 0 ∷ 0 ∷ 0 ∷ 0 ∷ 0 ∷ 2
      ∷ 104 ∷ 105 ∷ 3 ∷ 1 ∷ 0 ∷ 0 ∷ 0 ∷ 0 ∷ 2 ∷ 128 ∷ 1 ∷ 224 ∷ [];
  attempts = replicate 15 (wrote 100);
}

typed_runs : send_messages typed client ≡ some (after_typed, true)
unfolding send_messages default_supported_messages send_key_event send_pointer_event
    send_client_cut_text send_framebuffer_update_request
typed_runs = refl

send_messages_delivered_example :
    parse_messages
      (length (outgoing client.supported client.requested_resize typed))
      (drop (length client.sent) after_typed.sent)
    ≡ some (outgoing client.supported client.requested_resize typed)
send_messages_delivered_example =
    send_messages_delivered typed client after_typed typed-Fits typed_runs

-- A negative coordinate is sent as 0.
pointer_runs :
    send_pointer_event (negsuc 4) (pos 9) 3 client
    ≡ some (
      record client { sent = 7 ∷ 5 ∷ 3 ∷ 0 ∷ 0 ∷ 0 ∷ 9 ∷ []; attempts = replicate 19 (wrote 100) },
      true,
    )
unfolding send_pointer_event default_supported_messages
pointer_runs = refl

-- Messages that the server has not announced: nothing is written.
scale_runs : send_scale_setting 2 client ≡ some (client, true)
unfolding send_scale_setting default_supported_messages
scale_runs = refl

chat_runs : text_chat_send (104 ∷ []) client ≡ some (client, true)
unfolding text_chat_send default_supported_messages
chat_runs = refl

names_run :
    (named (b'z' ∷ []) ≡ zlib)
    × (named (b'Z' ∷ b'L' ∷ b'i' ∷ b'b' ∷ b'h' ∷ b'e' ∷ b'x' ∷ []) ≡ zlibhex)
    × (named [] ≡ raw)
    × (named (b'x' ∷ []) ≡ unknown)
unfolding named
names_run = (refl, refl, refl, refl)

-- The whole of SetFormatAndEncodings, for entries none of which calls for a level of quality.
format_runs :
    set_format_and_encodings (record client { attempts = wrote 100 ∷ wrote 100 ∷ [] })
    ≡ done (
        some (
          record client {
            app_data = record asked { quality_level = pos 50 };
            sent =
                7 ∷ 0 ∷ 0 ∷ 0 ∷ 0 ∷ 32 ∷ 24 ∷ 0 ∷ 1 ∷ 0 ∷ 255 ∷ 0 ∷ 255 ∷ 0 ∷ 255 ∷ 16 ∷ 8 ∷ 0 ∷ 0
                ∷ 0 ∷ 0 ∷ 2 ∷ 0 ∷ 0 ∷ 13 ∷ 0 ∷ 0 ∷ 0 ∷ 0 ∷ 0 ∷ 0 ∷ 0 ∷ 6 ∷ 0 ∷ 0 ∷ 0 ∷ 9 ∷ 255 ∷ 255
                ∷ 0 ∷ 9 ∷ 255 ∷ 255 ∷ 255 ∷ 1 ∷ 255 ∷ 254 ∷ 0 ∷ 0 ∷ 255 ∷ 255 ∷ 255 ∷ 33 ∷ 255 ∷ 254
                ∷ 0 ∷ 1 ∷ 255 ∷ 254 ∷ 0 ∷ 2 ∷ 255 ∷ 254 ∷ 0 ∷ 3 ∷ 255 ∷ 255 ∷ 254 ∷ 203 ∷ 255 ∷ 255
                ∷ 254 ∷ 254 ∷ 255 ∷ 255 ∷ 252 ∷ 24 ∷ [];
            attempts = [];
          },
          true,
        ))
unfolding set_format_and_encodings default_supported_messages is_supported
format_runs = refl

abbrev entries : List (List ℕ)
entries = (b'r' ∷ b'a' ∷ b'w' ∷ []) ∷ (b'z' ∷ []) ∷ (b'U' ∷ b'l' ∷ b't' ∷ b'r' ∷ b'a' ∷ []) ∷ []

cut_runs : cut_at_commas asked.encodings_string ≡ entries
unfolding cut_at_commas
cut_runs = refl

few_codes : length no_request.encs + length (codes_of_all entries) < max_encodings
unfolding codes_of_all named codes
few_codes = omega arith

request_entries_fit_example :
    (q : Request) × (request_entries asked entries no_request ≡ done q)
    × (tail : List ℕ) × (put_extensions asked q ≡ (no_request.encs ++ codes_of_all entries) ++ tail)
    × (length (put_extensions asked q) ≤ max_encodings)
request_entries_fit_example = request_entries_fit asked entries no_request few_codes

-- Sixty-three encodings, and one that stands for two: beyond the end of the array.
overflow_runs :
    request_entries asked (replicate 63 (b'r' ∷ b'a' ∷ b'w' ∷ []) ++ (b'u' ∷ []) ∷ []) no_request
    ≡ fault
unfolding request_entries
overflow_runs = refl

-- A change of the server's size, with 8 and 9 in what is never written.
resize_runs :
    send_ext_desktop_size
      (record {
        pad1 = 8;
        pad2 = 9;
        id = 8 ∷ 8 ∷ 8 ∷ 8 ∷ [];
        position = 9 ∷ 9 ∷ 9 ∷ 9 ∷ [];
        flags = 8 ∷ 8 ∷ 8 ∷ 8 ∷ [];
      })
      800
      600
      client
    ≡ some (
      record client {
        screen = record { width = 800; height = 600 };
        requested_resize = true;
        sent =
            7 ∷ 251 ∷ 8 ∷ 3 ∷ 32 ∷ 2 ∷ 88 ∷ 1 ∷ 9 ∷ 8 ∷ 8 ∷ 8 ∷ 8 ∷ 9 ∷ 9 ∷ 9 ∷ 9 ∷ 3 ∷ 32 ∷ 2 ∷ 88
            ∷ 8 ∷ 8 ∷ 8 ∷ 8 ∷ 3 ∷ 0 ∷ 0 ∷ 0 ∷ 0 ∷ 0 ∷ 3 ∷ 32 ∷ 2 ∷ 88 ∷ [];
        attempts = replicate 17 (wrote 100);
      },
      true,
    )
unfolding send_ext_desktop_size default_supported_messages
resize_runs = refl
