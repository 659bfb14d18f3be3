-- ===== src/Rfb/Encodings.antt =====
-- SetFormatAndEncodings of src/rfbproto.c, built with zlib and JPEG.
pub mod Fitting
use wlvncc.Base.{
  ℕ, zero, suc, ◌+◌, ◌-◌, Bool, true, false, not, ◌&&◌, ◌||◌, List, [], ◌∷◌, ◌++◌, Option, none,
  some, length, ltb, leb, ◌==◌, if◌then◌else◌, Outcome, done, fault, ◌>>=◌,
}
use wlvncc.Base.Int.{ℤ, pos, negsuc, pos_part}
use wlvncc.Rfb.{Format, AppData, Rfb, be16, be32, write, is_supported, ◌and_then◌}

abbrev pub max_encodings : ℕ
max_encodings = 64

unfoldable pub put_before : ℕ → List (List ℕ) → List (List ℕ)
put_before c [] = (c ∷ []) ∷ []
put_before c (f ∷ fs) = (c ∷ f) ∷ fs

-- The text is cut at its commas, as the loop does it with strchr.
unfoldable pub cut_at_commas : List ℕ → List (List ℕ)
unfolding put_before
cut_at_commas [] = [] ∷ []
cut_at_commas (c ∷ cs) =
    let rest = cut_at_commas cs in if c == b',' then [] ∷ rest else put_before c rest

unfoldable pub lower : ℕ → ℕ
lower c = if leb 65 c && leb c 90 then c + 32 else c

-- strncasecmp(entry, name, strlen of the entry) == 0: no more than the entry's characters count.
unfoldable pub abbreviates : List ℕ → List ℕ → Bool
unfolding lower
abbreviates [] name = true
abbreviates (c ∷ cs) [] = false
abbreviates (c ∷ cs) (d ∷ ds) = lower c == d && abbreviates cs ds

pub data Named : Type 0 where
  raw copyrect tight hextile zlib zlibhex trle zrle zywrle ultra corre rre open_h264 unknown : Named

abbrev pub raw_name : List ℕ
raw_name = b'r' ∷ b'a' ∷ b'w' ∷ []

abbrev pub copyrect_name : List ℕ
copyrect_name = b'c' ∷ b'o' ∷ b'p' ∷ b'y' ∷ b'r' ∷ b'e' ∷ b'c' ∷ b't' ∷ []

abbrev pub tight_name : List ℕ
tight_name = b't' ∷ b'i' ∷ b'g' ∷ b'h' ∷ b't' ∷ []

abbrev pub hextile_name : List ℕ
hextile_name = b'h' ∷ b'e' ∷ b'x' ∷ b't' ∷ b'i' ∷ b'l' ∷ b'e' ∷ []

abbrev pub zlib_name : List ℕ
zlib_name = b'z' ∷ b'l' ∷ b'i' ∷ b'b' ∷ []

abbrev pub zlibhex_name : List ℕ
zlibhex_name = b'z' ∷ b'l' ∷ b'i' ∷ b'b' ∷ b'h' ∷ b'e' ∷ b'x' ∷ []

abbrev pub trle_name : List ℕ
trle_name = b't' ∷ b'r' ∷ b'l' ∷ b'e' ∷ []

abbrev pub zrle_name : List ℕ
zrle_name = b'z' ∷ b'r' ∷ b'l' ∷ b'e' ∷ []

abbrev pub zywrle_name : List ℕ
zywrle_name = b'z' ∷ b'y' ∷ b'w' ∷ b'r' ∷ b'l' ∷ b'e' ∷ []

abbrev pub ultra_name : List ℕ
ultra_name = b'u' ∷ b'l' ∷ b't' ∷ b'r' ∷ b'a' ∷ []

abbrev pub ultrazip_name : List ℕ
ultrazip_name = b'u' ∷ b'l' ∷ b't' ∷ b'r' ∷ b'a' ∷ b'z' ∷ b'i' ∷ b'p' ∷ []

abbrev pub corre_name : List ℕ
corre_name = b'c' ∷ b'o' ∷ b'r' ∷ b'r' ∷ b'e' ∷ []

abbrev pub rre_name : List ℕ
rre_name = b'r' ∷ b'r' ∷ b'e' ∷ []

abbrev pub open_h264_name : List ℕ
open_h264_name = b'o' ∷ b'p' ∷ b'e' ∷ b'n' ∷ b'-' ∷ b'h' ∷ b'2' ∷ b'6' ∷ b'4' ∷ []

-- The encoding that an entry asks for: the first whose test succeeds.
unfoldable pub named : List ℕ → Named
unfolding abbreviates
named entry =
    if abbreviates entry raw_name
    then raw
    else if abbreviates entry copyrect_name
    then copyrect
    else if abbreviates entry tight_name
    then tight
    else if abbreviates entry hextile_name
    then hextile
    else if abbreviates entry zlib_name
    then zlib
    else if abbreviates entry zlibhex_name
    then zlibhex
    else if abbreviates entry trle_name
    then trle
    else if abbreviates entry zrle_name
    then zrle
    else if abbreviates entry zywrle_name
    then zywrle
    else if abbreviates entry ultra_name || abbreviates entry ultrazip_name
    then ultra
    else if abbreviates entry corre_name
    then corre
    else if abbreviates entry rre_name
    then rre
    else if abbreviates entry open_h264_name
    then open_h264
    else unknown

-- The number of an encoding; `ultra` stands for two.
unfoldable pub codes : Named → List ℕ
codes raw = 0 ∷ []
codes copyrect = 1 ∷ []
codes tight = 7 ∷ []
codes hextile = 5 ∷ []
codes zlib = 6 ∷ []
codes zlibhex = 8 ∷ []
codes trle = 15 ∷ []
codes zrle = 16 ∷ []
codes zywrle = 17 ∷ []
codes ultra = 9 ∷ 4294901769 ∷ []
codes corre = 4 ∷ []
codes rre = 2 ∷ []
codes open_h264 = 50 ∷ []
codes unknown = []

-- The array that is filled, and what the entries call for beside their encodings.
pub record Request : Type 0 where
  pub encs : List ℕ
  pub compress_level : Bool
  pub quality_level : Bool
  pub last_rect : Bool

-- 0 to 9.
abbrev pub is_level : ℤ → Bool
is_level (pos n) = leb n 9
is_level (negsuc n) = false

unfoldable pub note_levels : AppData → Named → Request → Request
note_levels a tight r = record r {
  last_rect = true;
  compress_level = is_level a.compress_level || r.compress_level;
  quality_level = a.enable_jpeg || r.quality_level;
}
note_levels a zlib r = record r { compress_level = is_level a.compress_level || r.compress_level }
note_levels a zlibhex r = record r {
  compress_level = is_level a.compress_level || r.compress_level;
}
note_levels a zywrle r = record r { quality_level = true }
note_levels a open_h264 r = record r { quality_level = true }
note_levels a k r = r

-- encs[se->nEncodings++] = code, which no test of the bound guards: a write beyond the array is a
-- fault.
unfoldable pub put_code : ℕ → List ℕ → Outcome (List ℕ)
put_code code encs = if ltb (length encs) max_encodings then done (encs ++ code ∷ []) else fault

unfoldable pub put_codes : List ℕ → List ℕ → Outcome (List ℕ)
unfolding put_code
put_codes [] encs = done encs
put_codes (c ∷ cs) encs = put_code c encs >>= put_codes cs

unfoldable pub request_entry : AppData → List ℕ → Request → Outcome Request
unfolding named codes note_levels put_codes
request_entry a entry r = put_codes (codes (named entry)) r.encs >>= λ encs.
    done (note_levels a (named entry) (record r { encs = encs }))

-- The loop: the first entry, and others while there is room.
unfoldable pub request_entries : AppData → List (List ℕ) → Request → Outcome Request
unfolding request_entry
request_entries a [] r = done r
request_entries a (f ∷ []) r = request_entry a f r
request_entries a (f ∷ g ∷ fs) r = request_entry a f r >>= λ r'.
    elim (ltb (length r'.encs) max_encodings) [
      | true ↦ request_entries a (g ∷ fs) r'
      | false ↦ done r'
    ]

-- What follows the entries is put in only while there is room.
unfoldable pub put_if : Bool → ℕ → List ℕ → List ℕ
put_if b code encs = if ltb (length encs) max_encodings && b then encs ++ code ∷ [] else encs

unfoldable pub put_all_if : Bool → List ℕ → List ℕ → List ℕ
unfolding put_if
put_all_if b [] encs = encs
put_all_if b (c ∷ cs) encs = put_all_if b cs (put_if b c encs)

-- A level out of range becomes 5.
unfoldable pub usable_level : ℤ → ℕ
usable_level level = if is_level level then pos_part level else 5

-- The levels, the cursor, the keyboard's lights, the size of the desktop, the last rectangle, the
-- server's capabilities, xvp, extended key events and the time stamps.
unfoldable pub put_extensions : AppData → Request → List ℕ
unfolding put_if put_all_if usable_level
put_extensions a r =
    let levels =
      put_if r.quality_level (4294967264 + usable_level a.quality_level)
        (put_if r.compress_level (4294967040 + pos_part a.compress_level) r.encs) in
    let cursor =
      put_all_if a.use_remote_cursor (4294967056 ∷ 4294967057 ∷ 4294967064 ∷ []) levels in
    let desktop = put_all_if true (4294836224 ∷ 4294967073 ∷ []) cursor in
    let last = put_if r.last_rect 4294967072 desktop in
    put_all_if true
      (4294836225 ∷ 4294836226 ∷ 4294836227 ∷ 4294966987 ∷ 4294967038 ∷ 4294966296 ∷ []) last

-- The level that the client keeps.
unfoldable pub kept_level : AppData → Request → ℤ
unfolding put_if usable_level
kept_level a r =
    let encs = put_if r.compress_level (4294967040 + pos_part a.compress_level) r.encs in
    if ltb (length encs) max_encodings && r.quality_level
    then pos (usable_level a.quality_level)
    else a.quality_level

unfoldable pub set_pixel_format : Format → List ℕ
unfolding be16
set_pixel_format f =
    0 ∷ 0 ∷ 0 ∷ 0 ∷ f.bits_per_pixel ∷ f.depth ∷ f.big_endian ∷ f.true_colour ∷ be16 f.red_max
    ++ (be16 f.green_max
        ++ (be16 f.blue_max ++ (f.red_shift ∷ f.green_shift ∷ f.blue_shift ∷ f.padding)))

unfoldable pub codes_bytes : List ℕ → List ℕ
unfolding be32
codes_bytes [] = []
codes_bytes (c ∷ cs) = be32 c ++ codes_bytes cs

unfoldable pub set_encodings : List ℕ → List ℕ
unfolding be16 codes_bytes
set_encodings encs = 2 ∷ 0 ∷ be16 (length encs) ++ codes_bytes encs

abbrev pub no_request : Request
no_request = record { encs = []; compress_level = false; quality_level = false; last_rect = false }

-- The array is filled between the two messages.
unfoldable pub send_encodings : Rfb → Outcome (Option (Rfb × Bool))
unfolding cut_at_commas request_entries put_extensions kept_level set_encodings write
send_encodings r =
    if not (is_supported r.supported.client2server 2)
    then done (some (r, true))
    else (request_entries r.app_data (cut_at_commas r.app_data.encodings_string) no_request >>= λ q.
        done (
          write (set_encodings (put_extensions r.app_data q)) (record r {
            app_data = record r.app_data { quality_level = kept_level r.app_data q };
          })))

unfoldable pub set_format_and_encodings : Rfb → Outcome (Option (Rfb × Bool))
unfolding set_pixel_format send_encodings
set_format_and_encodings r =
    if not (is_supported r.supported.client2server 0)
    then done (some (r, true))
    else (elim (write (set_pixel_format r.format) r) [
      | none ↦ done none
      | some s ↦ elim (s.1) [ true ↦ send_encodings s.0 | false ↦ done (some (s.0, false)) ]
    ])
