-- ===== src/Window.antt =====
-- src/main.c: the window's three buffers. An update of the framebuffer is copied into the back
-- buffer, which is attached to the surface, and the next of the three becomes the back buffer. The
-- window is there: its creation at the first allocation is not part of the model.
pub mod Mirror
pub mod Drawing
pub mod Transfer
pub mod Updates
pub mod History
pub mod Screen
pub mod Allocated
pub mod Boxes
pub mod Runs
use wlvncc.Base.{
  ltb, ℕ, zero, suc, ◌+◌, ◌-◌, ◌%◌, ◌*◌, Bool, true, false, not, ◌&&◌, List, [], ◌∷◌, ◌++◌, Option,
  none, some, ◌==◌, if◌then◌else◌, get_elem?, set, Outcome, done, aborted, fault, ◌>>=◌, ◌>>◌,
  assert, deref,
}
use wlvncc.Pixels.{Formats}
use wlvncc.Pixman.{Pixman, Image, Box}
use wlvncc.Buffer.{Buffer, BufferType, wl_shm, dmabuf, created_buffer}
use wlvncc.VncClient.{VncClient, AvFrame, get_stride}
use wlvncc.Renderer.{Gl, Source, render_image, render_image_egl, render_av_frames_egl}

-- The requests to the compositor, in their order. A buffer is named by its place in the window.
pub data Request : Type 0 where
  attach_background : Request
  attach : ℕ → Request
  damage_buffer : ℕ → ℕ → ℕ → ℕ → Request
  commit_background commit : Request

module _ (P : Pixman) where
  -- back_buffer is the place in `buffers` that the pointer back_buffer points to; a buffer is `none`
  -- where its creation failed. The texture is a static variable of renderer-egl.c.
  pub record Window : Type 0 where
    pub buffers : List (Option (Buffer P))
    pub back_buffer : ℕ
    pub buffer_index : ℕ
    pub texture : Option Image
    pub requests : List Request

  unfoldable pub request : Window → Request → Window
  request w q = record w { requests = w.requests ++ (q ∷ []) }

  -- A buffer of the window, read through its pointer.
  unfoldable pub buffer_at : List (Option (Buffer P)) → ℕ → Outcome (Buffer P)
  buffer_at bs i = elim (get_elem? bs i) [ none ↦ fault | some b ↦ deref b ]

  unfoldable pub put_buffer : Window → Buffer P → Window
  put_buffer w b = record w { buffers = set w.buffers w.back_buffer (some b) }

  unfoldable pub attached : Buffer P → Buffer P
  attached b = record b { is_attached = true }

  unfoldable pub window_attach : Window → Outcome Window
  unfolding request put_buffer buffer_at attached
  window_attach w = do
    b ← buffer_at w.buffers w.back_buffer
    done (request (put_buffer (request w attach_background) (attached b)) (attach w.back_buffer))

  unfoldable pub window_commit : Window → Window
  unfolding request
  window_commit w = request (request w commit_background) commit

  unfoldable pub window_swap : Window → Window
  window_swap w = let i = (w.buffer_index + 1) % 3 in record w { buffer_index = i; back_buffer = i }

  unfoldable pub union_frames : P.Region → List AvFrame → P.Region
  union_frames r [] = r
  union_frames r (f ∷ fs) = union_frames (P.region_union_rect r f.x f.y f.width f.height) fs

  unfoldable pub get_frame_damage : VncClient P → P.Region
  unfolding union_frames
  get_frame_damage c = union_frames c.damage c.av_frames

  unfoldable pub more_damage : P.Region → Buffer P → Buffer P
  more_damage r b = record b { damage = P.region_union b.damage r }

  unfoldable pub apply_buffer_damage :
      P.Region → List (Option (Buffer P)) → Outcome (List (Option (Buffer P)))
  unfolding more_damage
  apply_buffer_damage r [] = done []
  apply_buffer_damage r (b ∷ bs) = do
    b' ← deref b
    bs' ← apply_buffer_damage r bs
    done (some (more_damage r b') ∷ bs')

  unfoldable pub damage_requests : List Box → List Request
  damage_requests [] = []
  damage_requests (b ∷ bs) =
      damage_buffer b.x1 b.y1 (b.x2 - b.x1) (b.y2 - b.y1) ∷ damage_requests bs

  unfoldable pub window_damage_region : P.Region → Window → Window
  unfolding damage_requests
  window_damage_region r w = record w {
    requests = w.requests ++ damage_requests (P.region_rectangles r);
  }

  unfoldable pub source_of : (F : Formats) → VncClient P → Buffer P → Source F P
  source_of F c b = record {
    width = c.width;
    height = c.height;
    stride = get_stride P c;
    format = b.format;
    pixels = c.frame_buffer;
    damage = c.damage;
  }

  module _ (F : Formats) (G : Gl) (have_egl : Bool) where
    unfoldable pub transfer_image : VncClient P → Buffer P → Window → Outcome Window
    unfolding source_of put_buffer
    transfer_image c b w =
        if have_egl
        then (let (b', tex) = render_image_egl F P G b (source_of F c b) w.texture in
            done (put_buffer (record w { texture = some tex }) b'))
        else (do b' ← render_image F P b (source_of F c b); done (put_buffer w b'))

    unfoldable pub transfer_frames : VncClient P → Buffer P → Window → Outcome Window
    unfolding put_buffer
    transfer_frames c b w =
        if have_egl then done (put_buffer w (render_av_frames_egl F P G b c.av_frames)) else aborted

    unfoldable pub window_transfer_pixels : VncClient P → Window → Outcome Window
    unfolding transfer_image transfer_frames buffer_at
    window_transfer_pixels c w = do
      b ← buffer_at w.buffers w.back_buffer
      elim c.av_frames [ [] ↦ transfer_image c b w | _ ∷ _ ↦ transfer_frames c b w ]

    unfoldable pub has_news : VncClient P → Bool
    has_news c = elim c.av_frames [ [] ↦ P.region_not_empty c.damage | _ ∷ _ ↦ true ]

    unfoldable pub show_update : VncClient P → Window → Outcome Window
    unfolding window_attach get_frame_damage apply_buffer_damage window_damage_region
        window_transfer_pixels window_commit window_swap
    show_update c w = do
      w1 ← window_attach w
      let r = get_frame_damage c
      bs ← apply_buffer_damage r w1.buffers
      w2 ← window_transfer_pixels c (window_damage_region r (record w1 { buffers = bs }))
      done (window_swap (window_commit w2))

    unfoldable pub on_vnc_client_update_fb : VncClient P → Window → Outcome Window
    unfolding has_news show_update
    on_vnc_client_update_fb c w = if has_news c then show_update c w else done w

  -- For a window that is there: the three results of buffer_create_shm, or buffer_create_dmabuf,
  -- replace the buffers, and fresh memory the framebuffer; neither the index of the buffer nor the
  -- texture is reset. The number of bytes is an int, whose overflow is undefined; `malloc` tells what
  -- fresh memory of so many bytes holds.
  unfoldable pub on_vnc_client_alloc_fb :
      (ℕ → ℕ → ℕ → Option (Buffer P))
      → (ℕ → Option Image)
      → VncClient P
      → Window
      → Outcome (VncClient P × Window)
  unfolding get_stride
  on_vnc_client_alloc_fb create malloc c w =
      let b : ℕ → Option (Buffer P) = λ i. create i c.width c.height in
      let size = c.height * get_stride P c in
      if ltb 2147483647 size then fault else elim (malloc size) [
        | none ↦ aborted
        | some fb ↦ done (
          record c { frame_buffer = fb },
          record w { buffers = b 0 ∷ b 1 ∷ b 2 ∷ []; back_buffer = 0 },
        )
      ]
