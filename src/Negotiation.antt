-- ===== src/Negotiation.antt =====
-- src/main.c handle_shm_format, handle_format_table, handle_tranche_formats and
-- handle_dmabuf_formats_done: which pixel format the window takes of those that the compositor
-- offers; src/vnc.c vnc_client_set_pixel_format: what the server is then asked for.
pub mod Chosen
pub mod Reading
pub mod Runs
use wlvncc.Base.{
  ℕ, zero, suc, ◌-◌, ◌*◌, ◌/◌, ◌%◌, Bool, true, false, ◌&&◌, ◌||◌, List, [], ◌∷◌, Option, none,
  some, ◌==◌, ltb, leb, if◌then◌else◌, get_elem?, length, Outcome, done, fault, ◌>>=◌, deref,
}
use wlvncc.Pixels.{Formats, argb8888, xrgb8888, abgr8888, xbgr8888, drm_format_from_wl_shm}

-- DRM_FORMAT_INVALID and DRM_FORMAT_MOD_INVALID of drm_fourcc.h.
abbrev pub format_invalid : ℕ
format_invalid = 0

abbrev pub mod_invalid : ℕ
mod_invalid = 72057594037927935

-- struct format_table_entry, of 16 bytes.
pub record Entry : Type 0 where
  pub format : ℕ
  pub modifier : ℕ

abbrev pub entry_size : ℕ
entry_size = 16

-- The pointer format_table: null, MAP_FAILED, or the mapping of the file that was sent.
pub data Table : Type 0 where
  no_table failed : Table
  mapped : List Entry → Table

-- format_table_size goes with the table: it is UINT32_MAX without one, and where a mapping fails it
-- is not written.
pub record Offers : Type 0 where
  pub shm_format : ℕ
  pub dmabuf_format : ℕ
  pub table : Table
  pub table_size : ℕ

-- rfbPixelFormat, the fields that are written.
pub record PixelFormat : Type 0 where
  pub red_shift : ℕ
  pub green_shift : ℕ
  pub blue_shift : ℕ
  pub bits_per_pixel : ℕ
  pub depth : ℕ
  pub red_max : ℕ
  pub green_max : ℕ
  pub blue_max : ℕ
  pub true_colour : Bool
  pub big_endian : Bool

abbrev pub shifted : ℕ → ℕ → ℕ → PixelFormat
shifted red green blue = record {
  red_shift = red;
  green_shift = green;
  blue_shift = blue;
  bits_per_pixel = 32;
  depth = 24;
  red_max = 255;
  green_max = 255;
  blue_max = 255;
  true_colour = true;
  big_endian = false;
}

-- The mapping of a table of `entries` succeeds or fails.
unfoldable pub handle_format_table : Bool → List Entry → Offers → Offers
handle_format_table false entries o = record o { table = failed }
handle_format_table true entries o = record o {
  table = mapped entries;
  table_size = length entries * entry_size;
}

unfoldable pub handle_dmabuf_formats_done : Offers → Offers
handle_dmabuf_formats_done o = elim o.table [
  | failed ↦ o
  | no_table ↦ record o { table = no_table; table_size = 4294967295 }
  | mapped _ ↦ record o { table = no_table; table_size = 4294967295 }
]

-- A read of the table, which is null or too short for a fault.
unfoldable pub read_entry : Table → ℕ → Outcome Entry
read_entry no_table i = fault
read_entry failed i = fault
read_entry (mapped entries) i = deref (get_elem? entries i)

module _ (F : Formats) where
  unfoldable pub handle_shm_format : ℕ → Offers → Offers
  handle_shm_format format o =
      if o.shm_format == format_invalid
      then (let drm_format = drm_format_from_wl_shm F format in
          if drm_format == F.drm xrgb8888 then record o { shm_format = drm_format } else o)
      else o

  unfoldable pub choose : Entry → ℕ → ℕ
  choose e dmabuf_format =
      if (e.format == F.drm xrgb8888 || e.format == F.drm xbgr8888) && e.modifier == mod_invalid
      then e.format
      else dmabuf_format

  -- The last entry that fits is kept: the loop does not stop at the first one.
  unfoldable pub tranche_loop : Table → ℕ → List ℕ → ℕ → Outcome ℕ
  unfolding read_entry choose
  tranche_loop table max_index [] dmabuf_format = done dmabuf_format
  tranche_loop table max_index (i ∷ is) dmabuf_format =
      if leb max_index i
      then tranche_loop table max_index is dmabuf_format
      else (read_entry table i >>= λ e. tranche_loop table max_index is (choose e dmabuf_format))

  unfoldable pub scan_tranche : List ℕ → Offers → Outcome Offers
  unfolding tranche_loop
  scan_tranche indices o =
      tranche_loop o.table ((o.table_size / entry_size) % 65536) indices o.dmabuf_format >>= λ f.
      done (record o { dmabuf_format = f })

  -- The indices are 16-bit numbers, and so is the number of entries that they are compared with.
  unfoldable pub handle_tranche_formats : List ℕ → Offers → Outcome Offers
  unfolding scan_tranche
  handle_tranche_formats indices o =
      if o.dmabuf_format == format_invalid
      then elim o.table [
        | failed ↦ done o
        | no_table ↦ scan_tranche indices o
        | mapped _ ↦ scan_tranche indices o
      ]
      else done o

  -- `none` where -1 is returned.
  unfoldable pub set_pixel_format : ℕ → Option PixelFormat
  set_pixel_format format =
      if format == F.drm argb8888 || format == F.drm xrgb8888
      then some (shifted 16 8 0)
      else if format == F.drm abgr8888 || format == F.drm xbgr8888
      then some (shifted 0 8 16)
      else none
