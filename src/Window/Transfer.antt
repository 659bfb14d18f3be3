-- ===== src/Window/Transfer.antt =====
-- The transfer of the framebuffer into a buffer, by the renderer that is in use.
use wlvncc.Base.{
  ◌<◌, ◌≡◌, refl, Bool, false, Option, none, some, length, done, Bool-cases, inl, inr,
}
use wlvncc.Pixels.{Formats}
use wlvncc.Pixman.{Pixman, PixmanLaws, Image}
use wlvncc.Buffer.{Buffer}
use wlvncc.VncClient.{VncClient}
use wlvncc.Renderer.{Gl, GlLaws, render_image_egl}
use wlvncc.Window.{Window, put_buffer, source_of, transfer_image}
use wlvncc.Window.Mirror.{IsMirror, TextureShows, Painted, AllFound}
use wlvncc.Window.Drawing.{Drawn, render_image-Drawn, render_image_egl-Drawn}

module _ (F : Formats) (P : Pixman) (have_egl : Bool) where
  -- The window's three buffers, and the texture where there is one, mirror the framebuffer.
  pub record Mirrors (c : VncClient P) (w : Window P) : Type 0 where
    pub buffers : AllFound F P (IsMirror F P c) w.buffers
    pub three : length w.buffers ≡ 3
    pub back : w.back_buffer < 3
    pub texture : TextureShows F P c w.texture
    pub unused : have_egl ≡ false → w.texture ≡ none

  module _ (L : PixmanLaws P) (G : Gl) (K : GlLaws G) where
    -- What the transfer leaves: the drawn buffer in the back buffer's place, and the texture.
    pub record Handover (c' : VncClient P) (b : Buffer P) (w : Window P) : Type 0 where
      pub drawn : Buffer P
      pub texture : Option Image
      pub transferred :
          transfer_image P F G have_egl c' b w
          ≡ done (put_buffer P (record w { texture = texture }) drawn)
      pub is_drawn : Drawn F P L c' drawn
      pub texture_shows : TextureShows F P c' texture
      pub unused : have_egl ≡ false → texture ≡ none

    pub transfer_image-Handover :
        (c c' : VncClient P) (b : Buffer P) (w : Window P)
        → Painted F P c c'
        → TextureShows F P c w.texture
        → (have_egl ≡ false → w.texture ≡ none)
        → IsMirror F P c' b
        → Handover c' b w
    unfolding transfer_image TextureShows put_buffer
    transfer_image-Handover c c' b w p t u m = elim (Bool-cases have_egl) [
      | inl egl ↦
          let d = render_image_egl-Drawn F P L G K c c' b w.texture p t m in
          record {
            drawn = (render_image_egl F P G b (source_of P F c' b) w.texture).0;
            texture = some (render_image_egl F P G b (source_of P F c' b) w.texture).1;
            transferred = rw egl refl;
            is_drawn = d.0;
            texture_shows = d.1;
            unused = λ e. cc;
          }
      | inr shm ↦
          let (b', e, d) = render_image-Drawn F P L c' b m in
          record {
            drawn = b';
            texture = none;
            transferred = rw (shm, e, u shm) refl;
            is_drawn = d;
            texture_shows = tt;
            unused = λ e. refl;
          }
    ]
