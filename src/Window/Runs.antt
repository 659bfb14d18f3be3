-- ===== src/Window/Runs.antt =====
-- Concrete runs of the window: a framebuffer of 4 by 3 pixels, drawn by pixman.
use wlvncc.Base.{
  ℕ, ◌≡◌, refl, false, List, [], ◌∷◌, Option, none, some, Outcome, done, arith, get_elem?, All, sym,
  ◌∙◌, subst, done-injective, if◌then◌else◌,
}
use wlvncc.Pixels.{drm_format_to_pixman_fmt, switch_layout}
use wlvncc.Pixels.Runs.{numbered}
use wlvncc.Pixels.Conversions.{position}
use wlvncc.Pixman.{Image, rect, box_has}
use wlvncc.Buffer.{Buffer, wl_shm, created_buffer}
use wlvncc.Renderer.{render_image}
use wlvncc.VncClient.{
  VncClient, get_stride, no_pts, finish_update, update_box, set_fb, start_update,
}
use wlvncc.Window.{Window, on_vnc_client_alloc_fb, on_vnc_client_update_fb}
use wlvncc.Window.Boxes.{boxes, boxes_laws, copying, copying_laws}
use wlvncc.Window.Transfer.{Mirrors}
use wlvncc.Window.History.{Paint, last_attached, framebuffer_updates, Fits}
use wlvncc.Window.Screen.{OnScreen, framebuffer_updates-OnScreen}
use wlvncc.Window.Allocated.{on_vnc_client_alloc_fb-Mirrors}

-- Fresh memory, and the client and window before the first allocation.
abbrev noise : Image
noise = λ x y. 9

abbrev client : VncClient boxes
client = record {
  width = 4;
  height = 3;
  bits_per_pixel = 32;
  frame_buffer = noise;
  has_open_h264 = false;
  current_rect_is_av_frame = false;
  av_frames = [];
  pts = no_pts;
  damage = [];
  handler_lock = false;
  is_updating = false;
}

abbrev created : Window boxes
created = record {
  buffers = none ∷ none ∷ none ∷ [];
  back_buffer = 0;
  buffer_index = 0;
  texture = none;
  requests = [];
}

abbrev fresh : Buffer boxes
fresh = record {
  type = wl_shm;
  width = 4;
  height = 3;
  stride = 16;
  format = 16;
  is_attached = false;
  please_clean_up = false;
  damage = record { x1 = 0; y1 = 0; x2 = 4; y2 = 3 } ∷ [];
  pixels = noise;
}

abbrev create : ℕ → ℕ → ℕ → Option (Buffer boxes)
create i width height = some (record fresh { width = width; height = height })

abbrev malloc : ℕ → Option Image
malloc size = some noise

on_vnc_client_alloc_fb-Mirrors_example :
    (c' : VncClient boxes) × (w' : Window boxes) × (on_vnc_client_alloc_fb boxes create malloc
        client created
      ≡ done (c', w'))
    × (c'.frame_buffer ≡ noise)
    × Mirrors numbered boxes false c' w'
    × OnScreen numbered boxes false c' w'
unfolding drm_format_to_pixman_fmt switch_layout created_buffer last_attached position get_stride
on_vnc_client_alloc_fb-Mirrors_example =
    on_vnc_client_alloc_fb-Mirrors numbered boxes false boxes_laws client created wl_shm 16 16 100
      create malloc (λ i. noise) noise (omega arith) (omega arith) refl refl refl (λ i. refl)
      (omega arith) refl

-- The first update paints everything, the second one a pixel, the third nothing.
abbrev updates : List (List Paint)
updates =
    (record {
      x = 0;
      y = 0;
      width = 4;
      height = 3;
      draws = λ fb x y. if box_has (rect 0 0 4 3) x y then 1 else fb x y;
    }
      ∷ [])
    ∷ (record {
      x = 2;
      y = 1;
      width = 1;
      height = 1;
      draws = λ fb x y. if box_has (rect 2 1 1 1) x y then 2 else fb x y;
    }
        ∷ [])
    ∷ []
    ∷ []

abbrev allocated_client : VncClient boxes
allocated_client = record client { frame_buffer = noise }

abbrev allocated_window : Window boxes
allocated_window = record created {
  buffers = some fresh ∷ some fresh ∷ some fresh ∷ [];
  back_buffer = 0;
}

allocated_runs :
    on_vnc_client_alloc_fb boxes create malloc client created
    ≡ done (allocated_client, allocated_window)
unfolding on_vnc_client_alloc_fb get_stride
allocated_runs = refl

first_run :
    Mirrors numbered boxes false allocated_client allocated_window
    × OnScreen numbered boxes false allocated_client allocated_window
unfolding on_vnc_client_alloc_fb drm_format_to_pixman_fmt switch_layout created_buffer last_attached
    position get_stride
first_run =
    let (c', w', e, fb, m, o) =
      on_vnc_client_alloc_fb-Mirrors numbered boxes false boxes_laws client created wl_shm 16 16 100
        create malloc (λ i. noise) noise (omega arith) (omega arith) refl refl refl (λ i. refl)
        (omega arith) refl in
    let same : (c', w') ≡ (allocated_client, allocated_window) =
      done-injective (sym e ∙ allocated_runs) in
    subst (λ s. Mirrors numbered boxes false s.0 s.1 × OnScreen numbered boxes false s.0 s.1) same
      (m, o)

updates-Fits : All (All Fits) updates
unfolding Fits
updates-Fits = (
  ((omega arith, omega arith, λ fb x y e. rw e refl), tt),
  (((omega arith, omega arith, λ fb x y e. rw e refl), tt), (tt, tt)),
)

framebuffer_updates-OnScreen_example :
    (c' : VncClient boxes) × (w' : Window boxes) × (framebuffer_updates boxes numbered copying false
        updates allocated_client allocated_window
      ≡ done (c', w'))
    × Mirrors numbered boxes false c' w'
    × OnScreen numbered boxes false c' w'
framebuffer_updates-OnScreen_example =
    framebuffer_updates-OnScreen numbered boxes false boxes_laws copying copying_laws updates
      allocated_client allocated_window updates-Fits refl first_run.0 first_run.1

-- The pixel (x, y) that the compositor shows after the run.
shown_pixel : Outcome (VncClient boxes × Window boxes) → ℕ → ℕ → Option ℕ
shown_pixel (done s) x y = elim (last_attached s.1.requests) [
  | none ↦ none
  | some i ↦ elim (get_elem? s.1.buffers i) [ some (some b) ↦ some (b.pixels x y) | _ ↦ none ]
]
shown_pixel _ x y = none

-- After the run the buffer on screen has the second update's pixel and the first one's others.
shown_pixel-updates :
    let end =
      framebuffer_updates boxes numbered copying false updates allocated_client allocated_window in
    (shown_pixel end 2 1 ≡ some 2) × (shown_pixel end 0 2 ≡ some 1)
unfolding shown_pixel framebuffer_updates finish_update on_vnc_client_update_fb update_box set_fb
    start_update on_vnc_client_alloc_fb render_image drm_format_to_pixman_fmt position last_attached
shown_pixel-updates = (refl, refl)
