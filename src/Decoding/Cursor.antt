-- ===== src/Decoding/Cursor.antt =====
-- src/cursor.c, HandleCursorShape: the shape of the cursor and its mask. A pixel has 1, 2 or 4
-- bytes.
use Prim.Native.Nat.{bit_or}
use wlvncc.Base.{
  ℕ, zero, suc, ◌+◌, ◌-◌, ◌*◌, ◌/◌, ◌%◌, ◌^◌, Bool, true, false, not, ◌||◌, List, [], ◌∷◌, ◌++◌,
  Option, none, some, drop, ltb, ◌==◌, if◌then◌else◌, done, ◌>>=◌,
}
use wlvncc.Rfb.{Area, byte_at}
use wlvncc.Decoding.{Colours, Step, succeed, give_up, ◌followed_by◌, reading, note, cursor_shape}

-- `k` bits of a byte, from bit `b` down.
unfoldable pub top_bits : ℕ → ℕ → ℕ → List ℕ
top_bits zero b byte = []
top_bits (suc k) b byte = byte / 2 ^ b % 2 ∷ top_bits k (b - 1) byte

unfoldable pub whole_bytes : ℕ → List ℕ → List ℕ
whole_bytes zero row = []
whole_bytes (suc n) row = top_bits 8 7 (byte_at row 0) ++ whole_bytes n (drop 1 row)

unfoldable pub row_bits : ℕ → List ℕ → List ℕ
row_bits width row = whole_bytes (width / 8) row ++ top_bits (width % 8) 7 (byte_at row (width / 8))

-- A bitmap whose rows begin at whole bytes, as a byte for each of its bits.
unfoldable pub bits_of : ℕ → ℕ → List ℕ → List ℕ
bits_of width zero buf = []
bits_of width (suc height) buf =
    row_bits width buf ++ bits_of width height (drop ((width + 7) / 8) buf)

-- RGB24_TO_PIXEL(32, r, g, b).
unfoldable pub component : ℕ → ℕ → ℕ → ℕ
component value max shift = (value % 256 * max + 127) / 255 * 2 ^ shift % 4294967296

unfoldable pub rgb24_to_pixel : Colours → ℕ → ℕ → ℕ → ℕ
unfolding component
rgb24_to_pixel c r g b =
    bit_or (bit_or (component r c.red_max c.red_shift) (component g c.green_max c.green_shift))
      (component b c.blue_max c.blue_shift)

-- A number as bytes in the host's order, and the pixels that a bitmap picks.
unfoldable pub host_bytes : ℕ → ℕ → List ℕ
host_bytes zero v = []
host_bytes (suc n) v = v % 256 ∷ host_bytes n (v / 256)

unfoldable pub pick_pixels : ℕ → ℕ → ℕ → List ℕ → List ℕ
pick_pixels size back fore [] = []
pick_pixels size back fore (bit ∷ bits) =
    host_bytes size (if bit == 0 then back else fore) ++ pick_pixels size back fore bits

unfoldable pub set_source : Option (List ℕ) → Bool → Step
set_source source result d = done (record d { source = source }, result)

-- Where a part fails, client->rcSource is freed and forgotten.
unfoldable pub or_forget : Step → Step
or_forget f d = f d >>= λ r. if r.1 then done r else set_source none false r.0

module _ (memory : ℕ → Bool) where
  unfoldable pub x_cursor : Area → ℕ → List ℕ → List ℕ → Step
  x_cursor a size rgb buf d =
      let back = rgb24_to_pixel d.colours (byte_at rgb 3) (byte_at rgb 4) (byte_at rgb 5) in
      let fore = rgb24_to_pixel d.colours (byte_at rgb 0) (byte_at rgb 1) (byte_at rgb 2) in
      set_source (some (pick_pixels size back fore (bits_of a.w a.h buf))) true d

  unfoldable pub read_source : Area → ℕ → ℕ → Step
  read_source a size encoding =
      if encoding == 4294967056
      then reading 6 (λ rgb. reading ((a.w + 7) / 8 * a.h) (x_cursor a size rgb))
      else reading (a.w * a.h * size) (λ bytes. set_source (some bytes) true)

  -- A mask is allocated for each shape; the one before it is not freed.
  unfoldable pub add_mask : Area → List ℕ → Step
  add_mask a buf d = done (record d { masks = d.masks ++ bits_of a.w a.h buf ∷ [] }, true)

  unfoldable pub set_mask : Area → List ℕ → Step
  set_mask a buf = if memory (a.w * a.h) then add_mask a buf else give_up

  unfoldable pub got_cursor_shape : Area → ℕ → Step
  got_cursor_shape a size d = done (note (cursor_shape a size) d, true)

  unfoldable pub handle_cursor_shape : Area → ℕ → Step
  handle_cursor_shape a encoding d =
      let size = d.bits_per_pixel % 256 / 8 in
      let mask_size = (a.w + 7) / 8 * a.h in
      (if a.w * a.h == 0
          then succeed
          else if not (ltb a.w 1024) || not (ltb a.h 1024)
          then give_up
          else if not (memory (a.w * a.h * size)) || not (memory mask_size)
          then set_source none false
          else (or_forget (read_source a size encoding followed_by reading mask_size (set_mask a))
              followed_by got_cursor_shape a size))
        d
