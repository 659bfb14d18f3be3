-- ===== src/Pixels/Conversions.antt =====
-- What the conversions of pixel formats keep.
use wlvncc.Base.{
  ℕ, zero, suc, ◌≡◌, ◌≢◌, refl, sym, ap, ◌∙◌, false, List, [], ◌∷◌, none, some, ◌==◌, done,
  Bool-cases, ==_iff, ==_refl, ne→==, inl, inr, arith, ◌⊎◌, get_elem?,
}
use wlvncc.Base.Masks.{has_bit}
use wlvncc.Pixels.{
  argb8888, abgr8888, xrgb8888, xbgr8888, rgba8888, bgra8888, rgbx8888, bgrx8888, rgb888, bgr888,
  rgb565, bgr565, argb2101010, xrgb2101010, abgr2101010, xbgr2101010, argb1555, abgr1555, xrgb1555,
  xbgr1555, argb4444, abgr4444, xrgb4444, xbgr4444, Layout, Formats, big_endian, layouts,
  drm_format_to_wl_shm, drm_format_from_wl_shm, switch_layout, drm_format_to_pixman_fmt,
}

-- Where each layout stands among the cases.
unfoldable pub position : Layout → ℕ
position argb8888 = 0
position abgr8888 = 1
position xrgb8888 = 2
position xbgr8888 = 3
position rgba8888 = 4
position bgra8888 = 5
position rgbx8888 = 6
position bgrx8888 = 7
position rgb888 = 8
position bgr888 = 9
position rgb565 = 10
position bgr565 = 11
position argb2101010 = 12
position xrgb2101010 = 13
position abgr2101010 = 14
position xbgr2101010 = 15
position argb1555 = 16
position abgr1555 = 17
position xrgb1555 = 18
position xbgr1555 = 19
position argb4444 = 20
position abgr4444 = 21
position xrgb4444 = 22
position xbgr4444 = 23

layouts-position : (l : Layout) → get_elem? layouts (position l) ≡ some l
unfolding position
layouts-position argb8888 = refl
layouts-position abgr8888 = refl
layouts-position xrgb8888 = refl
layouts-position xbgr8888 = refl
layouts-position rgba8888 = refl
layouts-position bgra8888 = refl
layouts-position rgbx8888 = refl
layouts-position bgrx8888 = refl
layouts-position rgb888 = refl
layouts-position bgr888 = refl
layouts-position rgb565 = refl
layouts-position bgr565 = refl
layouts-position argb2101010 = refl
layouts-position xrgb2101010 = refl
layouts-position abgr2101010 = refl
layouts-position xbgr2101010 = refl
layouts-position argb1555 = refl
layouts-position abgr1555 = refl
layouts-position xrgb1555 = refl
layouts-position xbgr1555 = refl
layouts-position argb4444 = refl
layouts-position abgr4444 = refl
layouts-position xrgb4444 = refl
layouts-position xbgr4444 = refl

module _ (F : Formats) where
  -- The code that wl_shm has for a format of DRM.
  pub ShmCode : ℕ → ℕ → Type 0
  ShmCode format w =
      (format ≡ F.drm argb8888 → w ≡ F.wl_shm_argb8888)
      × (format ≡ F.drm xrgb8888 → w ≡ F.wl_shm_xrgb8888)
      × (format ≢ F.drm argb8888 → format ≢ F.drm xrgb8888 → w ≡ format)

  -- If the codes of the two formats differ, in DRM and in wl_shm: a format without the big-endian
  -- flag, that is not one of the two codes that wl_shm has of its own, goes to wl_shm as the code of
  -- wl_shm's own if it is ARGB8888 or XRGB8888 and as itself otherwise, and comes back from wl_shm
  -- as it was.
  pub drm_format_from_wl_shm-drm_format_to_wl_shm :
      (format : ℕ)
      → F.wl_shm_argb8888 ≢ F.wl_shm_xrgb8888
      → F.drm argb8888 ≢ F.drm xrgb8888
      → has_bit format big_endian ≡ false
      → format ≢ F.wl_shm_argb8888
      → format ≢ F.wl_shm_xrgb8888
      → (w : ℕ) × (drm_format_to_wl_shm F format ≡ done w)
        × (drm_format_from_wl_shm F w ≡ format)
        × ShmCode format w
  unfolding drm_format_to_wl_shm drm_format_from_wl_shm ShmCode
  drm_format_from_wl_shm-drm_format_to_wl_shm format d dd b na nx =
      elim (Bool-cases (format == F.drm argb8888)) [
        | inl is_a ↦
            let e = (==_iff format (F.drm argb8888)).0 is_a in
            (
              F.wl_shm_argb8888,
              rw (b, is_a) refl,
              rw (==_refl F.wl_shm_argb8888) (sym e),
              (λ _. refl, λ ex. absurd (dd (sym e ∙ ex)), λ other. absurd (other e)),
            )
        | inr not_a ↦ elim (Bool-cases (format == F.drm xrgb8888)) [
          | inl is_x ↦
              let e = (==_iff format (F.drm xrgb8888)).0 is_x in
              (
                F.wl_shm_xrgb8888,
                rw (b, not_a, is_x) refl,
                rw
                    (
                      ne→== F.wl_shm_xrgb8888 F.wl_shm_argb8888 (λ e'. d (sym e')),
                      ==_refl F.wl_shm_xrgb8888,
                    )
                    (sym e),
                (λ ea. absurd (dd (sym ea ∙ e)), λ _. refl, λ _ other. absurd (other e)),
              )
          | inr not_x ↦ (
            format,
            rw (b, not_a, not_x) refl,
            rw (ne→== format F.wl_shm_argb8888 na, ne→== format F.wl_shm_xrgb8888 nx) refl,
            (
              λ ea. absurd (cc (not_a, (==_iff format (F.drm argb8888)).1 ea)),
              λ ex. absurd (cc (not_x, (==_iff format (F.drm xrgb8888)).1 ex)),
              λ _ _. refl,
            ),
          )
        ]
      ]

  -- The switch on a list of cases.
  switch_layout-cases :
      (ls : List Layout) (format : ℕ)
      → ((l : Layout) × (format ≡ F.drm l) × (switch_layout F ls format ≡ some (F.pixman l)))
        ⊎ (((i : ℕ) (l : Layout) → get_elem? ls i ≡ some l → format ≢ F.drm l)
            × (switch_layout F ls format ≡ none))
  unfolding switch_layout
  switch_layout-cases [] format = inr (λ i l e. cc, refl)
  switch_layout-cases (m ∷ ms) format = elim (Bool-cases (format == F.drm m)) [
    | inl hit ↦ inl (m, (==_iff format (F.drm m)).0 hit, rw hit refl)
    | inr miss ↦ elim (switch_layout-cases ms format) [
      | inl (l, e, found) ↦ inl (l, e, rw miss found)
      | inr (absent, e) ↦ inr (here_or_later miss absent, rw miss e)
    ]
  ]
    where
      here_or_later :
          (format == F.drm m) ≡ false
          → ((i : ℕ) (l : Layout) → get_elem? ms i ≡ some l → format ≢ F.drm l)
          → (i : ℕ) (l : Layout) → get_elem? (m ∷ ms) i ≡ some l
          → format ≢ F.drm l
      here_or_later miss absent zero l e =
          λ same. let ml : m ≡ l = cc in ground (arith, ==_refl (F.drm m), ap F.drm ml)
      here_or_later miss absent (suc i) l e = absent i l e

  -- The conversion to pixman knows exactly the 24 layouts: the code of one gives the code of the
  -- same layout, every other number gives nothing.
  drm_format_to_pixman_fmt-cases :
      (format : ℕ)
      → ((l : Layout) × (format ≡ F.drm l)
          × (drm_format_to_pixman_fmt F format ≡ some (F.pixman l)))
        ⊎ (((l : Layout) → format ≢ F.drm l) × (drm_format_to_pixman_fmt F format ≡ none))
  unfolding drm_format_to_pixman_fmt
  drm_format_to_pixman_fmt-cases format = elim (switch_layout-cases layouts format) [
    | inl found ↦ inl found
    | inr (absent, e) ↦ inr (λ l. absent (position l) l (layouts-position l), e)
  ]
