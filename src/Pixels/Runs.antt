-- ===== src/Pixels/Runs.antt =====
-- Pixel formats at concrete codes: the layouts numbered from 16 on, wl_shm's own codes 0 and 1.
use wlvncc.Base.{ℕ, ◌≡◌, refl, done, ◌+◌, arith}
use wlvncc.Base.Masks.{has_bit}
use wlvncc.Pixels.{Formats, drm_format_to_wl_shm, drm_format_from_wl_shm}
use wlvncc.Pixels.Conversions.{position, ShmCode, drm_format_from_wl_shm-drm_format_to_wl_shm}

abbrev pub numbered : Formats
numbered = record {
  drm = λ l. position l + 16;
  pixman = λ l. position l + 100;
  wl_shm_argb8888 = 0;
  wl_shm_xrgb8888 = 1;
}

to_wl_shm-xrgb8888 : drm_format_to_wl_shm numbered 18 ≡ done 1
unfolding drm_format_to_wl_shm position has_bit
to_wl_shm-xrgb8888 = refl

drm_format_from_wl_shm-drm_format_to_wl_shm_example :
    (w : ℕ) × (drm_format_to_wl_shm numbered 18 ≡ done w)
    × (drm_format_from_wl_shm numbered w ≡ 18)
    × ShmCode numbered 18 w
unfolding has_bit position
drm_format_from_wl_shm-drm_format_to_wl_shm_example =
    drm_format_from_wl_shm-drm_format_to_wl_shm numbered 18 (omega arith) (omega arith) refl
      (omega arith) (omega arith)
