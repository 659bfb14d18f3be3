-- ===== src/Rfb.antt =====
-- src/rfbproto.c, include/rfbclient.h, include/rfbproto.h: the client's side of the protocol. The
-- part of the client's state that its messages read and change, and the sets of supported messages.
pub mod Supported
pub mod Messages
pub mod Parsing
pub mod Delivery
pub mod Encodings
pub mod Runs
use Prim.Native.Nat.{bit_or}
use wlvncc.Base.{
  ℕ, zero, suc, ◌+◌, ◌-◌, ◌/◌, ◌%◌, ◌^◌, Bool, true, false, List, [], ◌∷◌, ◌++◌, Option, none, some,
  replicate, set, if◌then◌else◌,
}
use wlvncc.Base.Int.{ℤ}
use wlvncc.Base.Masks.{has_bit, clear_bits}
use wlvncc.Sockets.{Attempt, Put, write_to_rfb_server}

-- Two sets of message types, a bit for each type, in 32 bytes each.
pub record SupportedMessages : Type 0 where
  pub client2server : List ℕ
  pub server2client : List ℕ

unfoldable pub byte_at : List ℕ → ℕ → ℕ
byte_at [] i = 0
byte_at (b ∷ bs) zero = b
byte_at (b ∷ bs) (suc i) = byte_at bs i

unfoldable pub is_supported : List ℕ → ℕ → Bool
unfolding byte_at has_bit
is_supported bits type = has_bit (byte_at bits (type % 256 / 8)) (2 ^ (type % 8))

unfoldable pub set_supported : List ℕ → ℕ → List ℕ
unfolding byte_at
set_supported bits type =
    let i = type % 256 / 8 in set bits i (bit_or (byte_at bits i) (2 ^ (type % 8)))

unfoldable pub clear_supported : List ℕ → ℕ → List ℕ
unfolding byte_at clear_bits
clear_supported bits type =
    let i = type % 256 / 8 in set bits i (clear_bits (byte_at bits i) (2 ^ (type % 8)))

-- One after the other.
unfoldable pub set_all_supported : List ℕ → List ℕ → List ℕ
unfolding set_supported
set_all_supported bits [] = bits
set_all_supported bits (t ∷ ts) = set_all_supported (set_supported bits t) ts

abbrev pub no_messages : List ℕ
no_messages = replicate 32 0

-- SetPixelFormat, SetEncodings, FramebufferUpdateRequest, KeyEvent, PointerEvent, ClientCutText; and
-- FramebufferUpdate, SetColourMapEntries, Bell, ServerCutText.
unfoldable pub default_supported_messages : SupportedMessages
unfolding set_all_supported
default_supported_messages = record {
  client2server = set_all_supported no_messages (0 ∷ 2 ∷ 3 ∷ 4 ∷ 5 ∷ 6 ∷ []);
  server2client = set_all_supported no_messages (0 ∷ 1 ∷ 2 ∷ 3 ∷ []);
}

-- FileTransfer, SetScale, SetServerInput, SetSW, TextChat and PalmVNCSetScaleFactor are added.
unfoldable pub default_supported_messages_ultra_vnc : SupportedMessages
unfolding default_supported_messages
default_supported_messages_ultra_vnc = record {
  client2server =
      set_all_supported default_supported_messages.client2server (7 ∷ 8 ∷ 9 ∷ 10 ∷ 11 ∷ 15 ∷ []);
  server2client = set_all_supported default_supported_messages.server2client (4 ∷ 15 ∷ 7 ∷ 11 ∷ []);
}

unfoldable pub default_supported_messages_tight_vnc : SupportedMessages
unfolding default_supported_messages
default_supported_messages_tight_vnc = record {
  client2server = set_all_supported default_supported_messages.client2server (7 ∷ 9 ∷ 10 ∷ []);
  server2client = set_all_supported default_supported_messages.server2client (7 ∷ 11 ∷ []);
}

-- A rectangle of the framebuffer, and a size in pixels.
pub record Area : Type 0 where
  pub x : ℕ
  pub y : ℕ
  pub w : ℕ
  pub h : ℕ

pub record Size : Type 0 where
  pub width : ℕ
  pub height : ℕ

-- Pixels as the client wants them; the last three bytes are padding.
pub record Format : Type 0 where
  pub bits_per_pixel : ℕ
  pub depth : ℕ
  pub big_endian : ℕ
  pub true_colour : ℕ
  pub red_max : ℕ
  pub green_max : ℕ
  pub blue_max : ℕ
  pub red_shift : ℕ
  pub green_shift : ℕ
  pub blue_shift : ℕ
  pub padding : List ℕ

-- What the program asks for: its list of encodings as text, and levels that may be out of range.
pub record AppData : Type 0 where
  pub encodings_string : List ℕ
  pub compress_level : ℤ
  pub quality_level : ℤ
  pub enable_jpeg : Bool
  pub use_remote_cursor : Bool

-- The client as its messages see it. `screen` is what the server told of its screen, in the host's
-- byte order; the socket is what has been sent and what later calls of write will find.
pub record Rfb : Type 0 where
  pub supported : SupportedMessages
  pub format : Format
  pub app_data : AppData
  pub size : Size
  pub update_rect : Area
  pub screen : Size
  pub requested_resize : Bool
  pub sent : List ℕ
  pub attempts : List Attempt

-- The most significant byte first, whichever the host's order is.
unfoldable pub be16 : ℕ → List ℕ
be16 n = n / 256 % 256 ∷ n % 256 ∷ []

unfoldable pub be32 : ℕ → List ℕ
be32 n = n / 16777216 % 256 ∷ n / 65536 % 256 ∷ n / 256 % 256 ∷ n % 256 ∷ []

-- WriteToRFBServer on the client's socket; `none` where it has not returned.
unfoldable pub write : List ℕ → Rfb → Option (Rfb × Bool)
unfolding write_to_rfb_server
write bytes r = elim (write_to_rfb_server r.attempts bytes r.sent) [
  | none ↦ none
  | some p ↦ some (record r { sent = p.sent; attempts = p.left }, p.ok)
]

-- if (!f()) return FALSE; g
infixl 5 ◌and_then◌
unfoldable pub ◌and_then◌ :
    (Rfb → Option (Rfb × Bool)) → (Rfb → Option (Rfb × Bool)) → Rfb → Option (Rfb × Bool)
◌and_then◌ f g r = elim (f r) [
  | none ↦ none
  | some s ↦ elim (s.1) [ true ↦ g s.0 | false ↦ some (s.0, false) ]
]

-- What a function does for a message that the server is not known to support: nothing, with this
-- result.
unfoldable pub if_supported : ℕ → Bool → (Rfb → Option (Rfb × Bool)) → Rfb → Option (Rfb × Bool)
unfolding is_supported
if_supported type otherwise f r =
    if is_supported r.supported.client2server type then f r else some (r, otherwise)
