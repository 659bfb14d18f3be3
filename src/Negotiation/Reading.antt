-- ===== src/Negotiation/Reading.antt =====
-- A tranche reads the format table within its bounds.
use wlvncc.Base.{
  ℕ, zero, suc, ◌*◌, ◌/◌, ◌%◌, ◌<◌, ◌≤◌, ◌≡◌, refl, true, List, [], ◌∷◌, some, ◌==◌, leb, get_elem?,
  length, done, Bool-cases, inl, inr, arith,
}
use wlvncc.Pixels.{Formats}
use wlvncc.Negotiation.{
  Entry, mapped, Offers, format_invalid, entry_size, read_entry, choose, tranche_loop, scan_tranche,
  handle_tranche_formats, handle_format_table,
}

module _ (F : Formats) where
  get_elem?-within :
      (entries : List Entry) (i : ℕ)
      → i < length entries
      → (e : Entry) × (get_elem? entries i ≡ some e)
  get_elem?-within [] i h = absurd (omega (arith, h))
  get_elem?-within (e ∷ es) zero h = (e, refl)
  get_elem?-within (e ∷ es) (suc i) h = get_elem?-within es i (omega (arith, h))

  tranche_loop-returns :
      (entries : List Entry) (max_index : ℕ) (is : List ℕ) (d : ℕ)
      → max_index ≤ length entries
      → (f : ℕ) × (tranche_loop F (mapped entries) max_index is d ≡ done f)
  unfolding tranche_loop read_entry
  tranche_loop-returns entries max_index [] d h = (d, refl)
  tranche_loop-returns entries max_index (i ∷ is) d h = elim (Bool-cases (leb max_index i)) [
    | inl past ↦ let (f, e) = tranche_loop-returns entries max_index is d h in (f, rw past e)
    | inr within ↦
        let (x, there) = get_elem?-within entries i (ground (arith, within, h)) in
        let (f, e) = tranche_loop-returns entries max_index is (choose F x d) h in
        (f, rw (within, there) e)
  ]

  -- After a format table has been mapped, whatever indices a tranche names, also past its end, the
  -- event is handled without a read outside the table.
  pub handle_tranche_formats-returns :
      (entries : List Entry) (indices : List ℕ) (o : Offers)
      → (o' : Offers) × (handle_tranche_formats F indices (handle_format_table true entries o)
          ≡ done o')
  unfolding handle_tranche_formats handle_format_table scan_tranche
  handle_tranche_formats-returns entries indices o =
      elim (Bool-cases (o.dmabuf_format == format_invalid)) [
        | inr known ↦ (handle_format_table true entries o, rw known refl)
        | inl open_yet ↦
            let (f, e) =
              tranche_loop-returns entries (length entries * entry_size / entry_size % 65536)
                indices o.dmabuf_format (omega arith) in
            (
              record o {
                table = mapped entries;
                table_size = length entries * entry_size;
                dmabuf_format = f;
              },
              rw (open_yet, e) refl,
            )
      ]
