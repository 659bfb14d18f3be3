-- ===== src/Window/Allocated.antt =====
-- on_vnc_client_alloc_fb: the first buffers of a window.
use wlvncc.Base.{
  ℕ, ◌*◌, ◌<◌, ltb, false, [], ◌∷◌, Option, done, ◌≤◌, ◌≡◌, refl, sym, subst, ◌∙◌, Bool, none, some,
  arith,
}
use wlvncc.Pixels.{Formats, drm_format_to_pixman_fmt}
use wlvncc.Pixman.{Pixman, PixmanLaws, Image, region_max}
use wlvncc.Buffer.{Buffer, BufferType, created_buffer}
use wlvncc.VncClient.{VncClient, get_stride}
use wlvncc.Window.{Window, on_vnc_client_alloc_fb}
use wlvncc.Window.Mirror.{Inside, IsMirror, TextureShows, AllFound}
use wlvncc.Window.Transfer.{Mirrors}
use wlvncc.Window.History.{last_attached}
use wlvncc.Window.Screen.{OnScreen, OnScreen-nothing_attached}

module _ (F : Formats) (P : Pixman) (have_egl : Bool) (L : PixmanLaws P) where
  -- A fresh buffer is damaged all over.
  created_buffer-IsMirror :
      (c : VncClient P) (type : BufferType) (stride format f : ℕ) (pixels : Image)
      → c.width ≤ region_max
      → c.height ≤ region_max
      → drm_format_to_pixman_fmt F format ≡ some f
      → IsMirror F P c (created_buffer P type c.width c.height stride format pixels)
  unfolding created_buffer Inside
  created_buffer-IsMirror c type stride format f pixels w h known = record {
    same_width = refl;
    same_height = refl;
    known = (f, known);
    shows = λ x y inside clean.
        let e = sym (L.has-init_rect c.width c.height x y w h) ∙ clean in ground (arith, e, inside);
  }

  -- The first allocation, where each buffer can be made, the framebuffer has fewer than 2^31 bytes
  -- and there is memory for it: it goes through, and whatever the fresh memory holds, the buffers
  -- mirror the framebuffer, so that the updates that follow are shown. It needs a size that fits a
  -- region, a format that pixman knows, and a window that has neither a texture nor an attached
  -- buffer.
  pub on_vnc_client_alloc_fb-Mirrors :
      (c : VncClient P) (w : Window P) (type : BufferType) (stride format f : ℕ)
      (create : ℕ → ℕ → ℕ → Option (Buffer P)) (malloc : ℕ → Option Image) (pixels : ℕ → Image)
      (fb : Image)
      → c.width ≤ region_max
      → c.height ≤ region_max
      → drm_format_to_pixman_fmt F format ≡ some f
      → w.texture ≡ none
      → last_attached w.requests ≡ none
      → ((i : ℕ)
          → create i c.width c.height
            ≡ some (created_buffer P type c.width c.height stride format (pixels i)))
      → c.height * get_stride P c < 2147483648
      → malloc (c.height * get_stride P c) ≡ some fb
      → (c' : VncClient P) × (w' : Window P) × (on_vnc_client_alloc_fb P create malloc c w
          ≡ done (c', w'))
        × (c'.frame_buffer ≡ fb)
        × Mirrors F P have_egl c' w'
        × OnScreen F P have_egl c' w'
  unfolding on_vnc_client_alloc_fb AllFound TextureShows OnScreen
  on_vnc_client_alloc_fb-Mirrors c w type stride format f create malloc pixels fb wf hf known
        no_texture no_attach made small memory =
      (
        c',
        w',
        returns,
        refl,
        record {
          buffers = (found 0, (found 1, (found 2, tt)));
          three = refl;
          back = omega arith;
          texture = subst (TextureShows F P c') (sym no_texture) tt;
          unused = λ e. no_texture;
        },
        OnScreen-nothing_attached F P have_egl c' w' no_attach,
      )
    where
      c' : VncClient P
      c' = record c { frame_buffer = fb }

      b : ℕ → Option (Buffer P)
      b i = create i c.width c.height

      w' : Window P
      w' = record w { buffers = b 0 ∷ b 1 ∷ b 2 ∷ []; back_buffer = 0 }

      returns : on_vnc_client_alloc_fb P create malloc c w ≡ done (c', w')
      returns =
          let e : ltb 2147483647 (c.height * get_stride P c) ≡ false = ground (arith, small) in
          rw (e, memory) refl

      found : (i : ℕ) → (q : Buffer P) × (create i c.width c.height ≡ some q) × IsMirror F P c' q
      found i = (
        created_buffer P type c.width c.height stride format (pixels i),
        made i,
        created_buffer-IsMirror c' type stride format f (pixels i) wf hf known,
      )
