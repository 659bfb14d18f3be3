-- ===== src/Window/History.antt =====
-- Any number of updates of the framebuffer, one after the other: the callbacks of src/vnc.c as
-- HandleFramebufferUpdate (src/rfbproto.c) calls them for rectangles of pixels.
use wlvncc.Base.{
  ℕ, ◌+◌, ◌≤◌, ◌≡◌, refl, sym, ◌∙◌, Bool, false, List, [], ◌∷◌, Option, none, some, both_false, All,
  Outcome, done, ◌>>=◌,
}
use wlvncc.Pixels.{Formats}
use wlvncc.Pixman.{Pixman, PixmanLaws, Image, rect, box_has, region_has, region_max}
use wlvncc.VncClient.{VncClient, start_update, clear_av_frames, update_box, finish_update, set_fb}
use wlvncc.Renderer.{Gl}
use wlvncc.Window.{Window, Request, attach, on_vnc_client_update_fb}
use wlvncc.Window.Mirror.{Painted}

-- A rectangle that the server sends, and what its decoder makes of the framebuffer. The decoders of
-- subrectangles test these against the framebuffer alone, so that they may draw beside the rectangle.
pub record Paint : Type 0 where
  pub x : ℕ
  pub y : ℕ
  pub width : ℕ
  pub height : ℕ
  pub draws : Image → Image

unfoldable pub painted : Paint → Image → Image
painted p fb = p.draws fb

-- The rectangle's coordinates are within those of a region, and what is drawn is within the
-- rectangle.
unfoldable pub Fits : Paint → Type 0
Fits p =
    (p.x + p.width ≤ region_max)
    × (p.y + p.height ≤ region_max)
    × ((fb : Image) (x y : ℕ)
        → box_has (rect p.x p.y p.width p.height) x y ≡ false
        → p.draws fb x y ≡ fb x y)

-- The buffer that was attached last.
unfoldable pub last_attached : List Request → Option ℕ
last_attached [] = none
last_attached (attach i ∷ qs) = elim (last_attached qs) [ none ↦ some i | some j ↦ some j ]
last_attached (q ∷ qs) = last_attached qs

module _ (P : Pixman) where
  unfoldable pub handle_rect : Paint → VncClient P → VncClient P
  unfolding painted
  handle_rect p c = update_box P p.x p.y p.width p.height (set_fb P c (painted p c.frame_buffer))

  unfoldable pub handle_rects : List Paint → VncClient P → VncClient P
  unfolding handle_rect
  handle_rects [] c = c
  handle_rects (p ∷ ps) c = handle_rects ps (handle_rect p c)

  module _ (F : Formats) (G : Gl) (have_egl : Bool) where
    unfoldable pub framebuffer_update :
        List Paint → VncClient P → Window P → Outcome (VncClient P × Window P)
    unfolding handle_rects
    framebuffer_update ps c w =
        finish_update P (on_vnc_client_update_fb P F G have_egl)
          (handle_rects ps (start_update P c)) w

    unfoldable pub framebuffer_updates :
        List (List Paint) → VncClient P → Window P → Outcome (VncClient P × Window P)
    unfolding framebuffer_update
    framebuffer_updates [] c w = done (c, w)
    framebuffer_updates (ps ∷ us) c w =
        framebuffer_update ps c w >>= λ s. framebuffer_updates us s.0 s.1

  module _ (F : Formats) (L : PixmanLaws P) where
    -- What a run of rectangles keeps.
    record Kept (c c' : VncClient P) : Type 0 where
      size : (c'.width ≡ c.width) × (c'.height ≡ c.height)
      no_frames : c'.av_frames ≡ c.av_frames
      flag : c'.current_rect_is_av_frame ≡ false
      outside :
          (x y : ℕ)
          → region_has P c'.damage x y ≡ false
          → (c'.frame_buffer x y ≡ c.frame_buffer x y) × (region_has P c.damage x y ≡ false)

    handle_rect-Kept :
        (p : Paint) (c : VncClient P)
        → Fits p
        → c.current_rect_is_av_frame ≡ false
        → Kept c (handle_rect p c)
    unfolding handle_rect update_box set_fb Fits painted
    handle_rect-Kept p c fits flag = rw flag (record {
      size = (refl, refl);
      no_frames = refl;
      flag = refl;
      outside = λ x y clean.
          let e =
            sym (L.has-union_rect c.damage p.x p.y p.width p.height x y fits.0 fits.1) ∙ clean in
          let both = both_false e in (fits.2 c.frame_buffer x y both.1, both.0);
    })

    handle_rects-Kept :
        (ps : List Paint) (c : VncClient P)
        → All Fits ps
        → c.current_rect_is_av_frame ≡ false
        → Kept c (handle_rects ps c)
    unfolding handle_rects
    handle_rects-Kept [] c fits flag = record {
      size = (refl, refl);
      no_frames = refl;
      flag = flag;
      outside = λ x y clean. (refl, clean);
    }
    handle_rects-Kept (p ∷ ps) c fits flag =
        let k1 = handle_rect-Kept p c fits.0 flag in
        let k2 = handle_rects-Kept ps (handle_rect p c) fits.1 k1.flag in
        record {
          size = (k2.size.0 ∙ k1.size.0, k2.size.1 ∙ k1.size.1);
          no_frames = k2.no_frames ∙ k1.no_frames;
          flag = k2.flag;
          outside = λ x y clean.
              let (same2, clean1) = k2.outside x y clean in
              let (same1, clean0) = k1.outside x y clean1 in (same2 ∙ same1, clean0);
        }

    -- The client that finish_update hands to the window.
    unfoldable pub finished : List Paint → VncClient P → VncClient P
    finished ps c = record (handle_rects ps (start_update P c)) { is_updating = false }

    pub finished-Painted :
        (ps : List Paint) (c : VncClient P)
        → All Fits ps
        → c.current_rect_is_av_frame ≡ false
        → Painted F P c (finished ps c)
          × ((finished ps c).av_frames ≡ [])
          × ((finished ps c).current_rect_is_av_frame ≡ false)
    unfolding finished start_update clear_av_frames
    finished-Painted ps c fits flag =
        let k = handle_rects-Kept ps (start_update P c) fits flag in
        (
          record {
            same_width = k.size.0;
            same_height = k.size.1;
            kept = λ x y inside clean. (k.outside x y clean).0;
          },
          k.no_frames,
          k.flag,
        )
