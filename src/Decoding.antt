-- ===== src/Decoding.antt =====
-- How the client reads the rectangles of an update (src/rfbproto.c, src/encodings): what the
-- decoders share. A read takes the next bytes of what the server sends, as ReadFromRFBServer does,
-- and fails where they do not come.
pub mod Cursor
pub mod Rectangles
pub mod Trle
pub mod Update
pub mod Message
pub mod Safety
pub mod Processing
pub mod Painting
pub mod Runs
use wlvncc.Base.{
  ℕ, zero, suc, ◌+◌, ◌-◌, ◌*◌, ◌%◌, Bool, true, false, List, [], ◌∷◌, ◌++◌, Option, none, some,
  length, take, drop, leb, if◌then◌else◌, Outcome, done, fault, ◌>>=◌,
}
use wlvncc.Rfb.{Area, Size, SupportedMessages}
use wlvncc.FrameBuffer.{FrameBuffer}

-- client->buffer, in bytes.
abbrev pub buffer_size : ℕ
buffer_size = 307200

-- What is called while messages are read, in order. A callback that the program may leave out is
-- taken to be set.
pub data Event : Type 0 where
  started finished cancelled : Event
  updated : Area → Event
  requested : Area → Bool → Event
  led_state : ℕ → Event
  bell : Event
  cut_text : List ℕ → Event
  text_chat : ℕ → List ℕ → Event
  xvp : ℕ → ℕ → Event
  cursor_shape : Area → ℕ → Event

-- What of client->format a colour is made with.
pub record Colours : Type 0 where
  pub red_max : ℕ
  pub green_max : ℕ
  pub blue_max : ℕ
  pub red_shift : ℕ
  pub green_shift : ℕ
  pub blue_shift : ℕ

-- The client as its decoders see it. A pixel has 8, 16 or 32 bits; `background` and `foreground`
-- are the colours that hextile keeps from tile to tile; `source` is rcSource, and
-- `masks` are the blocks that rcMask has pointed to, in their order.
pub record Decoder : Type 0 where
  pub input : List ℕ
  pub supported : SupportedMessages
  pub bits_per_pixel : ℕ
  pub colours : Colours
  pub size : Size
  pub frame : Option FrameBuffer
  pub update_rect : Area
  pub screen : Size
  pub requested_resize : Bool
  pub led : ℕ
  pub background : ℕ
  pub foreground : ℕ
  pub source : Option (List ℕ)
  pub masks : List (List ℕ)
  pub events : List Event

-- A part of a decoder: the state after it and whether it returns TRUE.
abbrev pub Step : Type 0
Step = Decoder → Outcome (Decoder × Bool)

abbrev pub succeed : Step
succeed d = done (d, true)

abbrev pub give_up : Step
give_up d = done (d, false)

-- if (!f()) return FALSE; g
infixl 5 ◌followed_by◌
unfoldable pub ◌followed_by◌ : Step → Step → Step
◌followed_by◌ f g d = f d >>= λ r. if r.1 then g r.0 else done (r.0, false)

-- if (!ReadFromRFBServer(client, p, n)) return FALSE; what follows gets the bytes.
unfoldable pub reading : ℕ → (List ℕ → Step) → Step
reading n k d =
    if leb n (length d.input)
    then k (take n d.input) (record d { input = drop n d.input })
    else done (d, false)

-- The same into client->buffer.
unfoldable pub buffering : ℕ → (List ℕ → Step) → Step
unfolding reading
buffering n k d = if leb n buffer_size then reading n k d else fault

-- A procedure draws in the framebuffer.
unfoldable pub drawing : (Option FrameBuffer → Outcome (Option FrameBuffer)) → Step
drawing f d = f d.frame >>= λ frame. done (record d { frame = frame }, true)

abbrev pub note : Event → Decoder → Decoder
note e d = record d { events = d.events ++ e ∷ [] }

-- A number whose most significant byte comes first, and one in the host's order, which is taken to
-- be little-endian.
unfoldable pub network_from : ℕ → List ℕ → ℕ
network_from acc [] = acc
network_from acc (b ∷ bs) = network_from (acc * 256 + b % 256) bs

unfoldable pub network : List ℕ → ℕ
unfolding network_from
network bytes = network_from 0 bytes

unfoldable pub host : List ℕ → ℕ
host [] = 0
host (b ∷ bs) = b % 256 + 256 * host bs

unfoldable pub field : ℕ → ℕ → List ℕ → ℕ
unfolding network
field at n bytes = network (take n (drop at bytes))

-- The pixels of a buffer, `size` bytes each.
unfoldable pub pixel_at : ℕ → List ℕ → ℕ → ℕ
unfolding host
pixel_at size bytes i = host (take size (drop (i * size) bytes))
