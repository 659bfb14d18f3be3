-- ===== src/Negotiation/Chosen.antt =====
-- The format that is chosen is one that the server can be asked for.
use wlvncc.Base.{
  ℕ, ◌≡◌, refl, subst, Bool, true, false, ◌&&◌, ◌||◌, List, [], ◌∷◌, some, ◌==◌, leb, Outcome, done,
  ◌>>=◌, >>=-eq-done, done-injective, Bool-cases, both_true, inl, inr, ◌⊎◌,
}
use wlvncc.Pixels.{Formats, argb8888, xrgb8888, abgr8888, xbgr8888, drm_format_from_wl_shm}
use wlvncc.Negotiation.{
  Entry, Table, no_table, failed, mapped, Offers, PixelFormat, shifted, format_invalid, mod_invalid,
  read_entry, handle_shm_format, choose, tranche_loop, scan_tranche, handle_tranche_formats,
  handle_format_table, handle_dmabuf_formats_done, set_pixel_format,
}

-- What the compositor sends.
pub data Event : Type 0 where
  shm_format : ℕ → Event
  format_table : Bool → List Entry → Event
  tranche_formats : List ℕ → Event
  formats_done : Event

module _ (F : Formats) where
  unfoldable pub handle : Event → Offers → Outcome Offers
  handle (shm_format format) o = done (handle_shm_format F format o)
  handle (format_table succeeds entries) o = done (handle_format_table succeeds entries o)
  handle (tranche_formats indices) o = handle_tranche_formats F indices o
  handle formats_done o = done (handle_dmabuf_formats_done o)

  unfoldable pub handle_all : List Event → Offers → Outcome Offers
  unfolding handle
  handle_all [] o = done o
  handle_all (e ∷ es) o = handle e o >>= handle_all es

  -- No format yet, or one that vnc_client_set_pixel_format takes.
  unfoldable pub IsAccepted : ℕ → Type 0
  IsAccepted f = (f ≡ format_invalid) ⊎ ((pf : PixelFormat) × (set_pixel_format F f ≡ some pf))

  xrgb8888-IsAccepted : (f : ℕ) → (f == F.drm xrgb8888) ≡ true → IsAccepted f
  unfolding IsAccepted set_pixel_format
  xrgb8888-IsAccepted f e = elim (Bool-cases (f == F.drm argb8888)) [
    | inl a ↦ inr (shifted 16 8 0, rw a refl)
    | inr n ↦ inr (shifted 16 8 0, rw (n, e) refl)
  ]

  xbgr8888-IsAccepted : (f : ℕ) → (f == F.drm xbgr8888) ≡ true → IsAccepted f
  unfolding IsAccepted set_pixel_format
  xbgr8888-IsAccepted f e = elim (Bool-cases (f == F.drm argb8888 || f == F.drm xrgb8888)) [
    | inl a ↦ inr (shifted 16 8 0, rw a refl)
    | inr n ↦ elim (Bool-cases (f == F.drm abgr8888)) [
      | inl b ↦ inr (shifted 0 8 16, rw (n, b) refl)
      | inr m ↦ inr (shifted 0 8 16, rw (n, m, e) refl)
    ]
  ]

  either : (a b : Bool) → (a || b) ≡ true → (a ≡ true) ⊎ (b ≡ true)
  either true b e = inl refl
  either false b e = inr e

  choose-IsAccepted : (e : Entry) (d : ℕ) → IsAccepted d → IsAccepted (choose F e d)
  unfolding choose
  choose-IsAccepted e d acc =
      let is_x = e.format == F.drm xrgb8888 || e.format == F.drm xbgr8888 in
      elim (Bool-cases (is_x && e.modifier == mod_invalid)) [
        | inr other ↦ rw other acc
        | inl fits ↦
            rw fits
              (elim (either (e.format == F.drm xrgb8888) (e.format == F.drm xbgr8888)
                (both_true {a = is_x} {b = e.modifier == mod_invalid} fits).0) [
                  | inl x ↦ xrgb8888-IsAccepted e.format x
                  | inr x ↦ xbgr8888-IsAccepted e.format x
                ])
      ]

  tranche_loop-IsAccepted :
      (t : Table) (max_index : ℕ) (is : List ℕ) (d : ℕ) {f : ℕ}
      → tranche_loop F t max_index is d ≡ done f
      → IsAccepted d
      → IsAccepted f
  unfolding tranche_loop
  tranche_loop-IsAccepted t max_index [] d e acc = subst IsAccepted (done-injective e) acc
  tranche_loop-IsAccepted t max_index (i ∷ is) d e acc = elim (Bool-cases (leb max_index i)) [
    | inl past ↦ tranche_loop-IsAccepted t max_index is d (rw past at e) acc
    | inr within ↦
        let (x, read, rest) = >>=-eq-done (read_entry t i) _ (rw within at e) in
        tranche_loop-IsAccepted t max_index is (choose F x d) rest (choose-IsAccepted x d acc)
  ]

  -- Both formats of the offers.
  unfoldable pub AllAccepted : Offers → Type 0
  AllAccepted o = IsAccepted o.shm_format × IsAccepted o.dmabuf_format

  handle_shm_format-AllAccepted :
      (format : ℕ) (o : Offers) → AllAccepted o → AllAccepted (handle_shm_format F format o)
  unfolding handle_shm_format AllAccepted
  handle_shm_format-AllAccepted format o acc = elim (Bool-cases (o.shm_format == format_invalid)) [
    | inr known ↦ rw known acc
    | inl open_yet ↦ elim (Bool-cases (drm_format_from_wl_shm F format == F.drm xrgb8888)) [
      | inl x ↦ rw (open_yet, x) (xrgb8888-IsAccepted _ x, acc.1)
      | inr other ↦ rw (open_yet, other) acc
    ]
  ]

  scan_tranche-AllAccepted :
      (indices : List ℕ) (o o' : Offers)
      → scan_tranche F indices o ≡ done o'
      → AllAccepted o
      → AllAccepted o'
  unfolding scan_tranche AllAccepted
  scan_tranche-AllAccepted indices o o' e acc =
      let (f, run, end) = >>=-eq-done (tranche_loop F o.table _ indices o.dmabuf_format) _ e in
      subst (λ (q : Offers). IsAccepted q.shm_format × IsAccepted q.dmabuf_format)
        (done-injective end)
        (acc.0, tranche_loop-IsAccepted o.table _ indices o.dmabuf_format run acc.1)

  handle_tranche_formats-AllAccepted :
      (indices : List ℕ) (o o' : Offers)
      → handle_tranche_formats F indices o ≡ done o'
      → AllAccepted o
      → AllAccepted o'
  unfolding handle_tranche_formats
  handle_tranche_formats-AllAccepted indices o o' e acc =
      elim (Bool-cases (o.dmabuf_format == format_invalid)) [
        | inr known ↦ subst AllAccepted (done-injective (rw known at e)) acc
        | inl open_yet ↦ by_table o.table (rw open_yet at e)
      ]
    where
      by_table :
          (t : Table)
          → (elim t as (λ (x : Table). Outcome Offers) [
            | failed ↦ done o
            | no_table ↦ scan_tranche F indices o
            | mapped _ ↦ scan_tranche F indices o
          ])
            ≡ done o'
          → AllAccepted o'
      by_table failed h = subst AllAccepted (done-injective h) acc
      by_table no_table h = scan_tranche-AllAccepted indices o o' h acc
      by_table (mapped entries) h = scan_tranche-AllAccepted indices o o' h acc

  handle_format_table-AllAccepted :
      (b : Bool) (entries : List Entry) (o : Offers)
      → AllAccepted o
      → AllAccepted (handle_format_table b entries o)
  unfolding handle_format_table AllAccepted
  handle_format_table-AllAccepted true entries o acc = acc
  handle_format_table-AllAccepted false entries o acc = acc

  handle_dmabuf_formats_done-AllAccepted :
      (o : Offers) → AllAccepted o → AllAccepted (handle_dmabuf_formats_done o)
  unfolding handle_dmabuf_formats_done AllAccepted
  handle_dmabuf_formats_done-AllAccepted o acc = by_table o.table
    where
      by_table :
          (t : Table)
          → AllAccepted (elim t as (λ (x : Table). Offers) [
            | failed ↦ o
            | no_table ↦ record o { table = no_table; table_size = 4294967295 }
            | mapped _ ↦ record o { table = no_table; table_size = 4294967295 }
          ])
      by_table failed = acc
      by_table no_table = acc
      by_table (mapped entries) = acc

  handle-AllAccepted :
      (e : Event) (o o' : Offers) → handle e o ≡ done o' → AllAccepted o → AllAccepted o'
  unfolding handle
  handle-AllAccepted (shm_format format) o o' h acc =
      subst AllAccepted (done-injective h) (handle_shm_format-AllAccepted format o acc)
  handle-AllAccepted (format_table b entries) o o' h acc =
      subst AllAccepted (done-injective h) (handle_format_table-AllAccepted b entries o acc)
  handle-AllAccepted (tranche_formats indices) o o' h acc =
      handle_tranche_formats-AllAccepted indices o o' h acc
  handle-AllAccepted formats_done o o' h acc =
      subst AllAccepted (done-injective h) (handle_dmabuf_formats_done-AllAccepted o acc)

  -- From formats that are not yet chosen or accepted, after any events of the compositor that are
  -- handled to their end, both formats are: the server can be asked for what was chosen.
  pub handle_all-AllAccepted :
      (es : List Event) (o o' : Offers) → handle_all es o ≡ done o' → AllAccepted o → AllAccepted o'
  unfolding handle_all
  handle_all-AllAccepted [] o o' h acc = subst AllAccepted (done-injective h) acc
  handle_all-AllAccepted (e ∷ es) o o' h acc =
      let (o1, first, rest) = >>=-eq-done (handle e o) (handle_all es) h in
      handle_all-AllAccepted es o1 o' rest (handle-AllAccepted e o o1 first acc)
