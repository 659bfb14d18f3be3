-- ===== src/Decoding/Safety/Hextile.antt =====
-- The decoder of hextile (src/encodings/hextile.c) stays within its memory.
use native.Mathlib.Nat.{mul-le-mul}
use wlvncc.Base.{
  ℕ, zero, suc, ◌+◌, ◌-◌, ◌*◌, ◌/◌, ◌≤◌, ◌<◌, refl, List, [], ◌∷◌, length, drop, min, arith,
}
use wlvncc.Base.Masks.{has_bit}
use wlvncc.Rfb.{Area}
use wlvncc.Decoding.{buffer_size, host}
use wlvncc.Decoding.Rectangles.{
  set_background, set_foreground, fill_background, fill_foreground, hextile_coloured, hextile_plain,
  hextile_subrects, hextile_tile, hextile_row, hextile_rows, handle_hextile,
}
use wlvncc.Decoding.Safety.{
  Safe, Safe-done, Safe-succeed, Safe-if, Safe-followed_by, Safe-reading, Safe-buffering, Safe-fill,
  Safe-bitmap,
}

Safe-set_background : (colour : ℕ) → Safe (set_background colour)
unfolding set_background
Safe-set_background colour = Safe-done _ _ (λ d. (refl, refl, refl))

Safe-set_foreground : (colour : ℕ) → Safe (set_foreground colour)
unfolding set_foreground
Safe-set_foreground colour = Safe-done _ _ (λ d. (refl, refl, refl))

Safe-fill_background : (a : Area) → Safe (fill_background a)
unfolding Safe fill_background
Safe-fill_background a d v = Safe-fill a d.background d v

Safe-fill_foreground : (a : Area) → Safe (fill_foreground a)
unfolding Safe fill_foreground
Safe-fill_foreground a d v = Safe-fill a d.foreground d v

-- One byte is a number below 256.
host-one : (bytes : List ℕ) → length bytes ≤ 1 → host bytes ≤ 255
unfolding host
host-one [] h = omega arith
host-one (b ∷ []) h = omega arith
host-one (b ∷ c ∷ bs) h = absurd (omega (arith, h))

module _ (size : ℕ) (pixel : size < 32) where
  Safe-hextile_coloured :
      (n : ℕ) (a : Area) (bytes : List ℕ) → Safe (hextile_coloured size n a bytes)
  unfolding hextile_coloured
  Safe-hextile_coloured zero a bytes = Safe-succeed
  Safe-hextile_coloured (suc n) a bytes =
      Safe-followed_by _ _ (Safe-followed_by _ _ (Safe-set_foreground _) (Safe-fill_foreground _))
        (Safe-hextile_coloured n a (drop 2 (drop size bytes)))

  Safe-hextile_plain : (n : ℕ) (a : Area) (bytes : List ℕ) → Safe (hextile_plain n a bytes)
  unfolding hextile_plain
  Safe-hextile_plain zero a bytes = Safe-succeed
  Safe-hextile_plain (suc n) a bytes =
      Safe-followed_by _ _ (Safe-fill_foreground _) (Safe-hextile_plain n a (drop 2 bytes))

  counted : (n k : ℕ) → n ≤ 255 → k ≤ 33 → n * k ≤ buffer_size
  counted n k hn hk = omega (arith, mul-le-mul hn hk)

  Safe-hextile_subrects : (sub : ℕ) (a : Area) → Safe (hextile_subrects size sub a)
  unfolding hextile_subrects
  Safe-hextile_subrects sub a =
      Safe-if (has_bit sub 8) _ _
        (Safe-reading 1 _ (λ n short.
          Safe-if (has_bit sub 16) _ _
            (Safe-buffering (host n * (2 + size)) _
              (counted (host n) (2 + size) (host-one n short) (omega (arith, pixel)))
              (λ bytes short'. Safe-hextile_coloured (host n) a bytes))
            (Safe-buffering (host n * 2) _ (counted (host n) 2 (host-one n short) (omega arith))
              (λ bytes short'. Safe-hextile_plain (host n) a bytes))))
        Safe-succeed

  -- No tile is wider or higher than 16.
  small : (w h : ℕ) → w ≤ 16 → h ≤ 16 → w * h * size ≤ buffer_size
  small w h hw hh =
      let area : w * h ≤ 256 = omega (arith, mul-le-mul hw hh) in
      let narrow : size ≤ 31 = omega (arith, pixel) in omega (arith, mul-le-mul area narrow)

  Safe-hextile_tile : (a : Area) → a.w ≤ 16 → a.h ≤ 16 → Safe (hextile_tile size a)
  unfolding hextile_tile
  Safe-hextile_tile a hw hh = Safe-reading 1 _ (λ byte short.
      let sub = host byte in
      Safe-if (has_bit sub 1) _ _
        (Safe-buffering (a.w * a.h * size) _ (small a.w a.h hw hh)
          (λ bytes short'. Safe-bitmap size a bytes))
        (Safe-followed_by _ _
          (Safe-followed_by _ _
            (Safe-followed_by _ _
              (Safe-if (has_bit sub 2) _ _
                (Safe-reading size _ (λ bg short'. Safe-set_background (host bg))) Safe-succeed)
              (Safe-fill_background a))
            (Safe-if (has_bit sub 4) _ _
              (Safe-reading size _ (λ fg short'. Safe-set_foreground (host fg))) Safe-succeed))
          (Safe-hextile_subrects sub a)))

  Safe-hextile_row : (n x y h : ℕ) (a : Area) → h ≤ 16 → Safe (hextile_row size n x y h a)
  unfolding hextile_row
  Safe-hextile_row zero x y h a hh = Safe-succeed
  Safe-hextile_row (suc n) x y h a hh =
      Safe-followed_by _ _
        (Safe-hextile_tile (record { x = x; y = y; w = min 16 (a.x + a.w - x); h = h })
          (ground arith) hh)
        (Safe-hextile_row n (x + 16) y h a hh)

  Safe-hextile_rows : (n y : ℕ) (a : Area) → Safe (hextile_rows size n y a)
  unfolding hextile_rows
  Safe-hextile_rows zero y a = Safe-succeed
  Safe-hextile_rows (suc n) y a =
      Safe-followed_by _ _
        (Safe-hextile_row ((a.w + 15) / 16) a.x y (min 16 (a.y + a.h - y)) a (ground arith))
        (Safe-hextile_rows n (y + 16) a)

  pub Safe-handle_hextile : (stale : ℕ) (a : Area) → Safe (handle_hextile stale size a)
  unfolding handle_hextile
  Safe-handle_hextile stale a =
      Safe-followed_by _ _
        (Safe-followed_by _ _ (Safe-set_background 0) (Safe-set_foreground stale))
        (Safe-hextile_rows ((a.h + 15) / 16) a.y a)
