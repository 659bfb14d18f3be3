-- ===== src/Renderer.antt =====
-- src/renderer.c and the drawing of src/renderer-egl.c: how the framebuffer gets into a buffer,
-- by pixman or by a texture of the graphics card.
use wlvncc.Base.{
  ℕ, ◌≡◌, true, ◌&&◌, List, [], ◌∷◌, Option, none, some, if◌then◌else◌, ltb, Outcome, done, ◌>>=◌,
  assert_found,
}
use wlvncc.Pixels.{Formats, drm_format_to_pixman_fmt}
use wlvncc.Pixman.{Pixman, Image, Box, box_has}
use wlvncc.Buffer.{Buffer}
use wlvncc.VncClient.{AvFrame}

-- What the program has OpenGL do.
pub record Gl : Type 0 where
  -- glTexImage2D: width, height and the pixels.
  pub tex_image : ℕ → ℕ → Image → Image
  -- glTexSubImage2D: the box, the pixels and the old texture.
  pub tex_sub_image : Box → Image → Image → Image
  -- gl_draw of a texture on a viewport at the origin: scissors, width, height, texture and target.
  pub draw : Box → ℕ → ℕ → Image → Image → Image
  -- gl_draw of a video frame on its viewport.
  pub draw_frame : Box → AvFrame → Image → Image

-- Of a texture as large as its viewport, the draw copies what is within the scissors.
pub record GlLaws (G : Gl) : Type 0 where
  pub tex_image_lem :
      (width height : ℕ) (src : Image) (x y : ℕ)
      → (ltb x width && ltb y height) ≡ true
      → G.tex_image width height src x y ≡ src x y
  pub tex_sub_image_lem :
      (box : Box) (src tex : Image) (x y : ℕ)
      → G.tex_sub_image box src tex x y ≡ (if box_has box x y then src x y else tex x y)
  pub draw_lem :
      (scissor : Box) (width height : ℕ) (tex dst : Image) (x y : ℕ)
      → G.draw scissor width height tex dst x y
        ≡ (if box_has scissor x y && (ltb x width && ltb y height) then tex x y else dst x y)

module _ (F : Formats) (P : Pixman) where
  -- struct image.
  pub record Source : Type 0 where
    pub width : ℕ
    pub height : ℕ
    pub stride : ℕ
    pub format : ℕ
    pub pixels : Image
    pub damage : P.Region

  -- Source and destination have one format where the program calls this, so that the copy changes
  -- no pixel's bits.
  unfoldable pub render_image : Buffer P → Source → Outcome (Buffer P)
  render_image dst src = do
    dst_fmt ← assert_found (drm_format_to_pixman_fmt F dst.format)
    src_fmt ← assert_found (drm_format_to_pixman_fmt F src.format)
    done (record dst {
      pixels = P.image_composite dst.damage src.pixels dst.pixels dst.width dst.height;
      damage = P.region_init;
    })

  module _ (G : Gl) where
    unfoldable pub import_image_with_damage : List Box → Image → Image → Image
    import_image_with_damage [] src tex = tex
    import_image_with_damage (b ∷ bs) src tex =
        import_image_with_damage bs src (G.tex_sub_image b src tex)

    -- The first image makes the texture, the next ones are written into it.
    unfoldable pub upload : Source → Option Image → Image
    unfolding import_image_with_damage
    upload src none = G.tex_image src.width src.height src.pixels
    upload src (some tex) = import_image_with_damage (P.region_rectangles src.damage) src.pixels tex

    unfoldable pub render_image_egl : Buffer P → Source → Option Image → Buffer P × Image
    unfolding upload
    render_image_egl dst src texture =
        let tex = upload src texture in
        (
          record dst {
            pixels = G.draw (P.region_extents dst.damage) src.width src.height tex dst.pixels;
            damage = P.region_init;
          },
          tex,
        )

    unfoldable pub draw_frames : Box → List AvFrame → Image → Image
    draw_frames scissor [] dst = dst
    draw_frames scissor (f ∷ fs) dst = draw_frames scissor fs (G.draw_frame scissor f dst)

    unfoldable pub render_av_frames_egl : Buffer P → List AvFrame → Buffer P
    unfolding draw_frames
    render_av_frames_egl dst frames = record dst {
      pixels = draw_frames (P.region_extents dst.damage) frames dst.pixels;
      damage = P.region_init;
    }
