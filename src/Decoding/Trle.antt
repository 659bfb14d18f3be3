-- ===== src/Decoding/Trle.antt =====
-- src/encodings/trle.c for pixels of 1, 2 and 4 bytes that are sent whole (REALBPP is BPP). What is
-- read goes to places in client->raw_buffer, `raw` bytes of it; a place beyond its end is a fault.
use wlvncc.Base.{
  ℕ, zero, suc, ◌+◌, ◌-◌, ◌*◌, ◌/◌, ◌%◌, ◌^◌, ◌&&◌, List, Option, none, some, take, drop, ltb, leb,
  ◌==◌, if◌then◌else◌, min, Outcome, done, fault, ◌>>=◌,
}
use wlvncc.Rfb.{Area, byte_at}
use wlvncc.FrameBuffer.{FrameBuffer, put, put_rows}
use wlvncc.Decoding.{Step, succeed, give_up, ◌followed_by◌, reading, drawing, host, pixel_at}
use wlvncc.Decoding.Rectangles.{fill, bitmap}

-- What is kept from tile to tile.
pub record Trle : Type 0 where
  pub last_type : ℕ
  pub bpp : ℕ
  pub colour : ℕ
  pub palette : ℕ → ℕ

unfoldable pub into : ℕ → ℕ → ℕ → (List ℕ → Step) → Step
into raw pos n k = if leb (pos + n) raw then reading n k else (λ d. fault)

-- Drawing that goes straight to client->frameBuffer.
unfoldable pub draw_rows : Area → (ℕ → ℕ → ℕ) → Option FrameBuffer → Outcome (Option FrameBuffer)
unfolding put_rows
draw_rows a value none = fault
draw_rows a value (some fb) =
    put_rows a.h a.w (a.y * fb.width + a.x) value fb >>= λ fb'. done (some fb')

-- `n` pixels of a tile from its pixel `p` on.
unfoldable pub put_cells : ℕ → ℕ → Area → ℕ → FrameBuffer → Outcome FrameBuffer
unfolding put
put_cells zero p a colour fb = done fb
put_cells (suc n) p a colour fb =
    put ((a.y + p / a.w) * fb.width + a.x + p % a.w) colour fb >>= λ fb'.
    put_cells n (p + 1) a colour fb'

unfoldable pub draw_run : ℕ → ℕ → Area → ℕ → Option FrameBuffer → Outcome (Option FrameBuffer)
unfolding put_cells
draw_run n p a colour none = fault
draw_run n p a colour (some fb) = put_cells n p a colour fb >>= λ fb'. done (some fb')

-- Pixels of `bpp` bits that number colours of the palette; a row begins at a whole byte.
unfoldable pub packed_pixel : Trle → ℕ → List ℕ → ℕ → ℕ → ℕ
packed_pixel t w bytes j i =
    let divider = 8 / t.bpp in
    let byte = byte_at bytes (j * ((w + divider - 1) / divider) + i / divider) in
    t.palette (byte / 2 ^ (8 - t.bpp - i % divider * t.bpp) % 2 ^ t.bpp)

unfoldable pub packed : ℕ → ℕ → Area → Trle → (Trle → Step) → Step
packed raw pos a t k =
    let divider = 8 / t.bpp in
    into raw pos ((a.w + divider - 1) / divider * a.h)
      (λ bytes. drawing (draw_rows a (packed_pixel t a.w bytes)) followed_by k t)

-- The tile before again, with its colour or its palette.
unfoldable pub as_before : ℕ → Area → Trle → (Trle → Step) → Step
as_before raw a t k =
    let last = t.last_type % 128 in
    let t' =
      if leb 130 t.last_type
      then record t {
        last_type = last;
        bpp = if ltb 4 last then (if ltb 16 last then 8 else 4) else (if ltb 2 last then 2 else 1);
      }
      else t in
    if t.last_type == 0
    then give_up
    else if t.last_type == 1
    then (fill a t.colour followed_by k t)
    else if t.last_type == 128
    then give_up
    else if leb t'.last_type 16
    then packed raw 0 a t' k
    else give_up

-- The length of a run: bytes are read as long as they are 255. `here` is buffer_pos, which starts
-- anew with each run, where the place in the buffer does not.
unfoldable pub run_length : ℕ → ℕ → ℕ → ℕ → ℕ → ℕ → (ℕ → ℕ → Step) → Step
run_length zero raw pos here len byte k = k (pos + 1) (len + byte)
run_length (suc f) raw pos here len byte k =
    if byte == 255 && ltb here (raw - 1)
    then into raw (pos + 1) 1 (λ b. run_length f raw (pos + 1) (here + 1) (len + byte) (host b) k)
    else k (pos + 1) (len + byte)

-- Runs until the tile's pixels are all drawn; each is one pixel long at least.
unfoldable pub plain_runs : ℕ → ℕ → ℕ → ℕ → ℕ → Area → Step
plain_runs zero raw size pos p a = succeed
plain_runs (suc f) raw size pos p a =
    if ltb p (a.w * a.h)
    then into raw pos (size + 1) (λ bytes.
      run_length raw raw (pos + size) size 1 (host (drop size bytes)) (λ pos' len.
        let n = min len (a.w * a.h - p) in
        drawing (draw_run n p a (host (take size bytes)))
        followed_by plain_runs f raw size pos' (p + n) a))
    else succeed

unfoldable pub palette_runs : ℕ → ℕ → ℕ → ℕ → Area → (ℕ → ℕ) → Step
palette_runs zero raw pos p a palette = succeed
palette_runs (suc f) raw pos p a palette =
    let draw : ℕ → ℕ → ℕ → Step = λ number pos' len.
      let n = min len (a.w * a.h - p) in
      drawing (draw_run n p a (palette (number % 128)))
      followed_by palette_runs f raw pos' (p + n) a palette in
    if ltb p (a.w * a.h)
    then into raw pos 1 (λ bytes.
      if leb 128 (host bytes)
      then into raw (pos + 1) 1 (λ b. run_length raw raw (pos + 1) 1 1 (host b) (draw (host bytes)))
      else draw (host bytes) (pos + 1) 1)
    else succeed

unfoldable pub read_palette : ℕ → ℕ → List ℕ → Trle → Trle
read_palette size n bytes t = record t {
  palette = λ i. if ltb i n then pixel_at size bytes i else t.palette i;
}

unfoldable pub trle_tile : ℕ → ℕ → Area → Trle → (Trle → Step) → Step
trle_tile raw size a t k = reading 1 (λ byte.
    let type = host byte in
    if type == 0
    then into raw 0 (a.w * a.h * size) (λ bytes. bitmap size a bytes followed_by k t)
    else if type == 1
    then into raw 0 size (λ bytes.
      fill a (host bytes) followed_by k (record t { colour = host bytes; last_type = 1 }))
    else if type == 127
    then as_before raw a t k
    else if type == 128
    then (plain_runs (a.w * a.h) raw size 0 0 a followed_by k t)
    else if type == 129
    then (palette_runs (a.w * a.h) raw 0 0 a t.palette followed_by k t)
    else if leb type 16
    then into raw 0 (type * size) (λ bytes.
      packed raw (type * size) a
        (record (read_palette size type bytes t) {
          last_type = type;
          bpp = if ltb 4 type then 4 else (if ltb 2 type then 2 else 1);
        })
        k)
    else if leb 130 type
    then into raw 0 ((type - 128) * size) (λ bytes.
      let t' = record (read_palette size (type - 128) bytes t) { last_type = type } in
      palette_runs (a.w * a.h) raw ((type - 128) * size) 0 a t'.palette followed_by k t')
    else give_up)

unfoldable pub trle_row : ℕ → ℕ → ℕ → ℕ → ℕ → ℕ → Area → Trle → (Trle → Step) → Step
trle_row raw size zero x y h a t k = k t
trle_row raw size (suc n) x y h a t k =
    trle_tile raw size (record { x = x; y = y; w = min 16 (a.x + a.w - x); h = h }) t
      (λ t'. trle_row raw size n (x + 16) y h a t' k)

unfoldable pub trle_rows : ℕ → ℕ → ℕ → ℕ → Area → Trle → Step
trle_rows raw size zero y a t = succeed
trle_rows raw size (suc n) y a t =
    trle_row raw size ((a.w + 15) / 16) a.x y (min 16 (a.y + a.h - y)) a t
      (λ t'. trle_rows raw size n (y + 16) a t')

-- The buffer has `before` bytes, and is allocated anew where they are too few.
unfoldable pub handle_trle : ℕ → (ℕ → ℕ) → ℕ → Area → Step
handle_trle before stale size a =
    let enough = 16 * 16 * size * 2 in
    trle_rows (if ltb before enough then enough else before) size ((a.h + 15) / 16) a.y a
      (record { last_type = 0; bpp = 0; colour = 0; palette = stale })
