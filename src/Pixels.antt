-- ===== src/Pixels.antt =====
-- src/pixels.c: which pixel formats of DRM, wl_shm and pixman stand for each other. The format
-- codes come from drm_fourcc.h, wayland-client.h and pixman.h; the machine is little-endian.
pub mod Conversions
pub mod Runs
use wlvncc.Base.{
  ℕ, Bool, true, false, not, List, [], ◌∷◌, Option, none, some, ◌==◌, if◌then◌else◌, Outcome, done,
  aborted, ◌>>=◌,
}
use wlvncc.Base.Masks.{has_bit}

-- The channels of a format, from the most significant one down, with their bits.
pub data Layout : Type 0 where
  argb8888 abgr8888 xrgb8888 xbgr8888 rgba8888 bgra8888 rgbx8888 bgrx8888 : Layout
  rgb888 bgr888 rgb565 bgr565 : Layout
  argb2101010 xrgb2101010 abgr2101010 xbgr2101010 : Layout
  argb1555 abgr1555 xrgb1555 xbgr1555 argb4444 abgr4444 xrgb4444 xbgr4444 : Layout

-- The codes DRM_FORMAT_*, PIXMAN_* and the two WL_SHM_FORMAT_* that the source names.
pub record Formats : Type 0 where
  pub drm : Layout → ℕ
  pub pixman : Layout → ℕ
  pub wl_shm_argb8888 : ℕ
  pub wl_shm_xrgb8888 : ℕ

-- DRM_FORMAT_BIG_ENDIAN is the bit 31.
abbrev pub big_endian : ℕ
big_endian = 2147483648

-- The cases of the switch, in their order.
abbrev pub layouts : List Layout
layouts =
    argb8888 ∷ abgr8888 ∷ xrgb8888 ∷ xbgr8888 ∷ rgba8888 ∷ bgra8888 ∷ rgbx8888 ∷ bgrx8888 ∷ rgb888
    ∷ bgr888 ∷ rgb565 ∷ bgr565 ∷ argb2101010 ∷ xrgb2101010 ∷ abgr2101010 ∷ xbgr2101010 ∷ argb1555
    ∷ abgr1555 ∷ xrgb1555 ∷ xbgr1555 ∷ argb4444 ∷ abgr4444 ∷ xrgb4444 ∷ xbgr4444 ∷ []

module _ (F : Formats) where
  unfoldable pub drm_format_to_wl_shm : ℕ → Outcome ℕ
  drm_format_to_wl_shm format =
      if has_bit format big_endian
      then aborted
      else if format == F.drm argb8888
      then done F.wl_shm_argb8888
      else if format == F.drm xrgb8888
      then done F.wl_shm_xrgb8888
      else done format

  unfoldable pub drm_format_from_wl_shm : ℕ → ℕ
  drm_format_from_wl_shm format =
      if format == F.wl_shm_argb8888
      then F.drm argb8888
      else if format == F.wl_shm_xrgb8888
      then F.drm xrgb8888
      else format

  -- The first case whose code is the format's.
  unfoldable pub switch_layout : List Layout → ℕ → Option ℕ
  switch_layout [] format = none
  switch_layout (l ∷ ls) format =
      if format == F.drm l then some (F.pixman l) else switch_layout ls format

  -- `none` where the source returns false and leaves the destination alone.
  unfoldable pub drm_format_to_pixman_fmt : ℕ → Option ℕ
  unfolding switch_layout
  drm_format_to_pixman_fmt format = switch_layout layouts format
