-- ===== src/Window/Drawing.antt =====
-- Drawing makes a buffer show the framebuffer, by either renderer.
use wlvncc.Base.{
  ℕ, ◌≡◌, refl, sym, ◌∙◌, List, [], ◌∷◌, Option, none, some, if◌then◌else◌, done, Bool-cases, inl,
  inr, arith,
}
use wlvncc.Pixels.{Formats}
use wlvncc.Pixman.{Pixman, PixmanLaws, Image, Box, box_has, boxes_have, region_has}
use wlvncc.Buffer.{Buffer}
use wlvncc.VncClient.{VncClient}
use wlvncc.Renderer.{
  Gl, GlLaws, Source, render_image, render_image_egl, upload, import_image_with_damage,
}
use wlvncc.Window.{source_of}
use wlvncc.Window.Mirror.{Inside, Shows, IsMirror, TextureShows, Painted}

module _ (F : Formats) (P : Pixman) (L : PixmanLaws P) where
  -- What drawing leaves.
  pub record Drawn (c : VncClient P) (b' : Buffer P) : Type 0 where
    pub mirror : IsMirror F P c b'
    pub all_shown : Shows F P c b'.pixels

  -- A buffer that shows all of the framebuffer mirrors it.
  pub Drawn-intro :
      (c : VncClient P) (b b' : Buffer P)
      → IsMirror F P c b
      → b'.width ≡ b.width
      → b'.height ≡ b.height
      → b'.format ≡ b.format
      → Shows F P c b'.pixels
      → Drawn c b'
  unfolding Shows
  Drawn-intro c b b' m w h f s = record {
    mirror = record {
      same_width = w ∙ m.same_width;
      same_height = h ∙ m.same_height;
      known = rw f m.known;
      shows = λ x y inside clean. s x y inside;
    };
    all_shown = s;
  }

  pub render_image-Drawn :
      (c : VncClient P) (b : Buffer P)
      → IsMirror F P c b
      → (b' : Buffer P) × (render_image F P b (source_of P F c b) ≡ done b') × Drawn c b'
  unfolding render_image source_of Shows Inside
  render_image-Drawn c b m =
      let (f, known) = m.known in
      (drawn, rw known refl, Drawn-intro c b drawn m refl refl refl shown)
    where
      drawn : Buffer P
      drawn = record b {
        pixels = P.image_composite b.damage c.frame_buffer b.pixels b.width b.height;
        damage = P.region_init;
      }

      shown :
          (x y : ℕ)
          → Inside F P c x y
          → P.image_composite b.damage c.frame_buffer b.pixels b.width b.height x y
            ≡ c.frame_buffer x y
      shown x y inside = elim (Bool-cases (region_has P b.damage x y)) [
        | inl dirty ↦ rw (L.composite_lem, m.same_width, m.same_height, dirty, inside) refl
        | inr clean ↦ rw (L.composite_lem, clean) (m.shows x y inside clean)
      ]

  module _ (G : Gl) (K : GlLaws G) where
    import_image_with_damage_lem :
        (bs : List Box) (src tex : Image) (x y : ℕ)
        → import_image_with_damage F P G bs src tex x y
          ≡ (if boxes_have bs x y then src x y else tex x y)
    unfolding import_image_with_damage
    import_image_with_damage_lem [] src tex x y = refl
    import_image_with_damage_lem (b ∷ bs) src tex x y =
        import_image_with_damage_lem bs src (G.tex_sub_image b src tex) x y
        ∙ rw K.tex_sub_image_lem (ground (arith))

    -- The texture shows the framebuffer after the upload.
    upload-Shows :
        (c c' : VncClient P) (src : Source F P) (texture : Option Image)
        → Painted F P c c'
        → TextureShows F P c texture
        → src.width ≡ c'.width
        → src.height ≡ c'.height
        → src.pixels ≡ c'.frame_buffer
        → src.damage ≡ c'.damage
        → Shows F P c' (upload F P G src texture)
    unfolding upload Shows TextureShows Inside
    upload-Shows c c' src none p t w h px d x y inside =
        rw (w, h, px) (K.tex_image_lem c'.width c'.height c'.frame_buffer x y inside)
    upload-Shows c c' src (some tex) p t w h px d x y inside =
        rw (px, d)
          (import_image_with_damage_lem (P.region_rectangles c'.damage) c'.frame_buffer tex x y
            ∙ elim (Bool-cases (region_has P c'.damage x y)) [
              | inl dirty ↦ rw dirty refl
              | inr clean ↦ rw clean (
                  t x y (rw (← p.same_width, ← p.same_height) inside)
                  ∙ sym (p.kept x y inside clean))
            ])

    pub render_image_egl-Drawn :
        (c c' : VncClient P) (b : Buffer P) (texture : Option Image)
        → Painted F P c c'
        → TextureShows F P c texture
        → IsMirror F P c' b
        → let r = render_image_egl F P G b (source_of P F c' b) texture in
          Drawn c' r.0 × Shows F P c' r.1
    unfolding render_image_egl source_of Shows Inside
    render_image_egl-Drawn c c' b texture p t m =
        let up = upload-Shows c c' (source_of P F c' b) texture p t refl refl refl refl in
        (Drawn-intro c' b _ m refl refl refl (drawn up), up)
      where
        drawn :
            {tex : Image}
            → Shows F P c' tex
            → Shows F P c' (G.draw (P.region_extents b.damage) c'.width c'.height tex b.pixels)
        drawn {tex} up x y inside =
            rw (K.draw_lem, inside)
              (elim (Bool-cases (region_has P b.damage x y)) [
                | inl dirty ↦ rw (L.has-extents b.damage x y dirty) (up x y inside)
                | inr clean ↦ elim (Bool-cases (box_has (P.region_extents b.damage) x y)) [
                  | inl near ↦ rw near (up x y inside)
                  | inr far ↦ rw far (m.shows x y inside clean)
                ]
              ])
