-- ===== src/Decoding/Safety/Cursor.antt =====
-- The cursor's shape (src/cursor.c) is read to its end.
use wlvncc.Base.{
  ℕ, ◌+◌, ◌*◌, ◌/◌, ◌%◌, ◌≤◌, ◌≡◌, refl, Bool, true, false, not, ◌||◌, List, Option, none, some,
  ltb, length, ◌==◌, done,
}
use wlvncc.Rfb.{Area}
use wlvncc.Decoding.{Decoder, Step}
use wlvncc.Decoding.Cursor.{
  set_source, or_forget, x_cursor, read_source, add_mask, set_mask, got_cursor_shape,
  handle_cursor_shape,
}
use wlvncc.Decoding.Safety.{
  Safe, Sound, Safe-done, Safe-succeed, Safe-give_up, Safe-if, Safe-followed_by, Safe-reading,
}

Safe-set_source : (s : Option (List ℕ)) (b : Bool) → Safe (set_source s b)
unfolding set_source
Safe-set_source s b = Safe-done _ _ (λ d. (refl, refl, refl))

Safe-or_forget : (f : Step) → Safe f → Safe (or_forget f)
unfolding Safe or_forget set_source
Safe-or_forget f p d v = let (r, e, l, u) = p d v in go r e l u
  where
    go :
        (r : Decoder × Bool)
        → f d ≡ done r
        → length r.0.input ≤ length d.input
        → Sound r.0.frame
        → (s : Decoder × Bool) × (or_forget f d ≡ done s)
          × (length s.0.input ≤ length d.input)
          × Sound s.0.frame
    go (d', true) e l u = ((d', true), rw e refl, l, u)
    go (d', false) e l u = ((record d' { source = none }, false), rw e refl, l, u)

module _ (memory : ℕ → Bool) where
  Safe-x_cursor : (a : Area) (size : ℕ) (rgb buf : List ℕ) → Safe (x_cursor memory a size rgb buf)
  unfolding Safe x_cursor
  Safe-x_cursor a size rgb buf d v = Safe-set_source _ true d v

  Safe-read_source : (a : Area) (size encoding : ℕ) → Safe (read_source memory a size encoding)
  unfolding read_source
  Safe-read_source a size encoding =
      Safe-if (encoding == 4294967056) _ _
        (Safe-reading 6 _ (λ rgb short.
          Safe-reading ((a.w + 7) / 8 * a.h) _ (λ buf short'. Safe-x_cursor a size rgb buf)))
        (Safe-reading (a.w * a.h * size) _ (λ bytes short. Safe-set_source (some bytes) true))

  Safe-add_mask : (a : Area) (buf : List ℕ) → Safe (add_mask memory a buf)
  unfolding add_mask
  Safe-add_mask a buf = Safe-done _ _ (λ d. (refl, refl, refl))

  Safe-set_mask : (a : Area) (buf : List ℕ) → Safe (set_mask memory a buf)
  unfolding set_mask
  Safe-set_mask a buf = Safe-if (memory (a.w * a.h)) _ _ (Safe-add_mask a buf) Safe-give_up

  Safe-got_shape : (a : Area) (size : ℕ) → Safe (got_cursor_shape memory a size)
  unfolding got_cursor_shape
  Safe-got_shape a size = Safe-done _ _ (λ d. (refl, refl, refl))

  pub Safe-handle_cursor_shape :
      (a : Area) (encoding : ℕ) → Safe (handle_cursor_shape memory a encoding)
  unfolding Safe handle_cursor_shape
  Safe-handle_cursor_shape a encoding d v =
      let size = d.bits_per_pixel % 256 / 8 in
      let mask_size = (a.w + 7) / 8 * a.h in
      Safe-if (a.w * a.h == 0) _ _ Safe-succeed
        (Safe-if (not (ltb a.w 1024) || not (ltb a.h 1024)) _ _ Safe-give_up (
          Safe-if (not (memory (a.w * a.h * size)) || not (memory mask_size)) _ _
            (Safe-set_source none false)
            (Safe-followed_by _ _
              (Safe-or_forget _ (
                Safe-followed_by _ _ (Safe-read_source a size encoding)
                  (Safe-reading mask_size _ (λ buf short. Safe-set_mask a buf))))
              (Safe-got_shape a size))))
        d v
