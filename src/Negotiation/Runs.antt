-- ===== src/Negotiation/Runs.antt =====
-- A compositor that offers XRGB8888 in shared memory and two dmabuf formats.
use wlvncc.Base.{◌≡◌, refl, true, List, [], ◌∷◌, done, inl}
use wlvncc.Pixels.{drm_format_from_wl_shm}
use wlvncc.Pixels.Conversions.{position}
use wlvncc.Pixels.Runs.{numbered}
use wlvncc.Negotiation.{
  Entry, no_table, Offers, mod_invalid, handle_shm_format, choose, handle_tranche_formats,
  handle_format_table, handle_dmabuf_formats_done, read_entry,
}
use wlvncc.Negotiation.Chosen.{
  Event, shm_format, format_table, tranche_formats, formats_done, handle_all, IsAccepted,
  AllAccepted, handle_all-AllAccepted,
}
use wlvncc.Negotiation.Reading.{handle_tranche_formats-returns}

abbrev start : Offers
start = record { shm_format = 0; dmabuf_format = 0; table = no_table; table_size = 4294967295 }

-- The codes 18 and 19 are XRGB8888 and XBGR8888.
abbrev entries : List Entry
entries =
    record { format = 18; modifier = 7 }
    ∷ record { format = 18; modifier = mod_invalid }
    ∷ record { format = 19; modifier = mod_invalid }
    ∷ []

abbrev events : List Event
events =
    shm_format 0
    ∷ shm_format 1
    ∷ format_table true entries
    ∷ tranche_formats (0 ∷ 1 ∷ 9 ∷ [])
    ∷ tranche_formats (2 ∷ [])
    ∷ formats_done
    ∷ []

abbrev agreed : Offers
agreed = record { shm_format = 18; dmabuf_format = 18; table = no_table; table_size = 4294967295 }

start-AllAccepted : AllAccepted numbered start
unfolding AllAccepted IsAccepted
start-AllAccepted = (inl refl, inl refl)

handle_all-AllAccepted_example : AllAccepted numbered agreed
unfolding handle_all handle_shm_format drm_format_from_wl_shm handle_format_table
    handle_tranche_formats handle_dmabuf_formats_done position choose read_entry
handle_all-AllAccepted_example =
    handle_all-AllAccepted numbered events start agreed refl start-AllAccepted

handle_tranche_formats-returns_example :
    (o' : Offers) × (handle_tranche_formats numbered
        (0 ∷ 9 ∷ 2 ∷ [])
        (handle_format_table true entries start)
      ≡ done o')
handle_tranche_formats-returns_example =
    handle_tranche_formats-returns numbered entries (0 ∷ 9 ∷ 2 ∷ []) start
