-- ===== src/Decoding/Update.antt =====
-- HandleFramebufferUpdate of src/rfbproto.c: the rectangles of an update, one after the other.
use wlvncc.Base.{
  ℕ, zero, suc, ◌+◌, ◌/◌, ◌%◌, Bool, true, false, not, ◌&&◌, ◌||◌, List, Option, none, some, take,
  drop, ltb, ◌==◌, if◌then◌else◌, Outcome, done, ◌>>=◌,
}
use wlvncc.Rfb.{Area, Size, set_supported}
use wlvncc.Decoding.{
  started, finished, cancelled, updated, requested, led_state, Decoder, Step, succeed, give_up,
  ◌followed_by◌, reading, note, field,
}
use wlvncc.Decoding.Cursor.{handle_cursor_shape}
use wlvncc.Decoding.Rectangles.{
  handle_raw, handle_copy_rect, handle_rre, handle_corre, handle_hextile,
}

-- What the function calls outside this model: the framebuffer's allocation (MallocFrameBuffer),
-- which may stop the program, fail, or give memory for every pixel, with what it holds; the cursor's position; whether a request for an update is sent; the other
-- encodings and those of extensions, and other messages; whether so many bytes can be allocated; and
-- what a variable that is not initialised holds.
pub record Callbacks : Type 0 where
  pub allocate : Size → Outcome (Option (ℕ → ℕ))
  pub cursor_pos : ℕ → ℕ → Bool
  pub request_update : Area → Bool → Bool
  pub other_encoding : Area → ℕ → Step
  pub other_message : ℕ → Step
  pub memory : ℕ → Bool
  pub stale : ℕ

module _ (C : Callbacks) where
  -- ResizeClientBuffer, with what is allocated.
  abbrev pub resized : Size → Option (ℕ → ℕ) → Decoder → Decoder × Bool
  resized size fresh d = (
    record d {
      size = size;
      update_rect = record { x = 0; y = 0; w = size.width; h = size.height };
      frame = elim fresh [
        | none ↦ none
        | some cells ↦ some (record { width = size.width; height = size.height; cells = cells })
      ];
    },
    elim fresh [ none ↦ false | some cells ↦ true ],
  )

  unfoldable pub resize_client_buffer : ℕ → ℕ → Step
  resize_client_buffer width height d =
      let size : Size = record { width = width; height = height } in
      C.allocate size >>= λ fresh. done (resized size fresh d)

  -- SendFramebufferUpdateRequest, whose result is returned.
  unfoldable pub request : Area → Bool → Step
  request a incremental d = done (note (requested a incremental) d, C.request_update a incremental)

  -- The same where the result is not looked at.
  unfoldable pub request_anyway : Area → Bool → Step
  request_anyway a incremental d = done (note (requested a incremental) d, true)

  unfoldable pub handle_led_state : ℕ → Step
  handle_led_state state d = done (record (note (led_state state) d) { led = state }, true)

  -- client->screen = screen
  unfoldable pub see_screen : List ℕ → Step
  see_screen bytes d =
      done
        (record d { screen = record { width = field 8 2 bytes; height = field 10 2 bytes } }, true)

  -- The screens of the server, 16 bytes each; one whose number is 0 is not valid.
  unfoldable pub read_screens : ℕ → Bool → (Bool → Step) → Step
  read_screens zero invalid k = k invalid
  read_screens (suc n) invalid k = reading 16 (λ bytes.
      if field 0 4 bytes == 0
      then read_screens n true k
      else (see_screen bytes followed_by read_screens n invalid k))

  unfoldable pub no_resize_requested : Step
  no_resize_requested d = done (record d { requested_resize = false }, true)

  unfoldable pub settle_size : ℕ → ℕ → Bool → Step
  settle_size width height invalid d =
      (if not invalid && (not (d.size.width == width) || not (d.size.height == height))
          then (resize_client_buffer width height followed_by no_resize_requested)
          else no_resize_requested)
        d

  unfoldable pub handle_ext_desktop_size : ℕ → ℕ → Step
  handle_ext_desktop_size width height =
      reading 4 (λ bytes. read_screens (field 0 1 bytes) false (settle_size width height))

  -- The server's sets replace the client's.
  unfoldable pub take_supported_messages : List ℕ → Step
  take_supported_messages bytes d = done (
    record d {
      supported = record { client2server = take 32 bytes; server2client = drop 32 bytes };
    },
    true,
  )

  -- The rectangle that announces extended key events.
  unfoldable pub take_extended_keys : Step
  take_extended_keys d = done (
    record d {
      supported = record d.supported {
        client2server = set_supported d.supported.client2server 255;
      };
    },
    true,
  )

  -- A rectangle that draws: it has to lie within the framebuffer unless it is a collection of others.
  unfoldable pub draw_rect : Area → ℕ → Step
  draw_rect a encoding d =
      let size = d.bits_per_pixel % 256 / 8 in
      (if encoding == 0
          then handle_raw size a
          else if encoding == 1
          then handle_copy_rect a
          else if encoding == 2
          then handle_rre size a
          else if encoding == 4
          then handle_corre size a
          else if encoding == 5
          then handle_hextile C.stale size a
          else if encoding == 4294967038
          then take_extended_keys
          else C.other_encoding a encoding)
        d

  unfoldable pub rect_too_large : Area → Decoder → Bool
  rect_too_large a d = ltb d.size.width (a.x + a.w) || ltb d.size.height (a.y + a.h)

  unfoldable pub got_update : Area → Step
  got_update a d = done (note (updated a) d, true)

  unfoldable pub handle_pixels : Area → ℕ → Step
  handle_pixels a encoding d =
      (if not (encoding == 4294901769) && rect_too_large a d
          then give_up
          else (draw_rect a encoding followed_by got_update a))
        d

  -- The server's name, read into fresh memory with room for a 0.
  unfoldable pub server_identity : ℕ → Step
  server_identity n = if C.memory (n + 1) then reading n (λ bytes. succeed) else give_up

  -- One rectangle, by its encoding: cursor shapes, the pointer's position, the keyboard's lights, the
  -- two ways to change the size, the server's capabilities, which are skipped, and pixels. The memory
  -- for the list of encodings is taken to be there: the source does not look.
  unfoldable pub handle_rect : Area → ℕ → Step
  handle_rect a encoding =
      if encoding == 4294967056 || encoding == 4294967057
      then handle_cursor_shape C.memory a encoding
      else if encoding == 4294967064
      then (λ d. done (d, C.cursor_pos a.x a.y))
      else if encoding == 4294836224
      then handle_led_state a.x
      else if encoding == 4294967073
      then (resize_client_buffer a.w a.h
          followed_by request_anyway (record { x = 0; y = 0; w = a.w; h = a.h }) false)
      else if encoding == 4294966988
      then handle_ext_desktop_size a.w a.h
      else if encoding == 4294836225
      then reading 64 take_supported_messages
      else if encoding == 4294836226
      then reading a.w (λ bytes. succeed)
      else if encoding == 4294836227
      then server_identity a.w
      else handle_pixels a encoding

  unfoldable pub area_of : List ℕ → Area
  area_of bytes = record {
    x = field 0 2 bytes;
    y = field 2 2 bytes;
    w = field 4 2 bytes;
    h = field 6 2 bytes;
  }

  -- The rectangles, until one says that it is the last.
  unfoldable pub handle_rects : ℕ → Step
  handle_rects zero = succeed
  handle_rects (suc n) = reading 12 (λ bytes.
      let encoding = field 8 4 bytes in
      if encoding == 4294967072
      then succeed
      else (handle_rect (area_of bytes) encoding followed_by handle_rects n))

  unfoldable pub request_next : Step
  request_next d = request d.update_rect true d

  -- What is told to the program at the end.
  unfoldable pub conclude : Decoder × Bool → Outcome (Decoder × Bool)
  conclude r = done (if r.1 then note finished r.0 else note cancelled r.0, r.1)

  unfoldable pub handle_framebuffer_update : Step
  handle_framebuffer_update d =
      reading 3 (λ bytes. handle_rects (field 1 2 bytes) followed_by request_next) (note started d)
      >>= conclude
