-- ===== src/VncClient.antt =====
-- src/vnc.c, include/vnc.h: what one framebuffer update leaves for the window (the damage and the
-- video frames), and the lock around the handler of messages.
pub mod Process
pub mod Returning
pub mod Runs
pub mod Keys
use wlvncc.Base.{
  ℕ, zero, suc, ◌+◌, ◌-◌, ◌*◌, ◌/◌, Bool, true, false, not, List, [], ◌∷◌, ◌++◌, Option, none, some,
  ◌==◌, ltb, if◌then◌else◌, length, Outcome, done, aborted, ◌>>=◌, ◌>>◌, assert,
}
use wlvncc.Pixman.{Pixman, Image}

-- UINT64_MAX.
abbrev pub no_pts : ℕ
no_pts = 18446744073709551615

abbrev pub max_av_frames : ℕ
max_av_frames = 64

abbrev pub encoding_open_h264 : ℕ
encoding_open_h264 = 50

-- A decoded picture and where it goes.
pub record AvFrame : Type 0 where
  pub frame : Image
  pub x : ℕ
  pub y : ℕ
  pub width : ℕ
  pub height : ℕ

module _ (P : Pixman) where
  -- The framebuffer is rfbClient's and the window's at once: both hold the same pointer.
  pub record VncClient : Type 0 where
    pub width : ℕ
    pub height : ℕ
    pub bits_per_pixel : ℕ
    pub frame_buffer : Image
    pub has_open_h264 : Bool
    pub current_rect_is_av_frame : Bool
    pub av_frames : List AvFrame
    pub pts : ℕ
    pub damage : P.Region
    pub handler_lock : Bool
    pub is_updating : Bool

  unfoldable pub update_box : ℕ → ℕ → ℕ → ℕ → VncClient → VncClient
  update_box x y width height c =
      if c.current_rect_is_av_frame
      then record c { current_rect_is_av_frame = false }
      else record c { damage = P.region_union_rect c.damage x y width height }

  unfoldable pub clear_av_frames : VncClient → VncClient
  clear_av_frames c = record c { av_frames = [] }

  unfoldable pub start_update : VncClient → VncClient
  unfolding clear_av_frames
  start_update c = record (clear_av_frames (record c { pts = no_pts; damage = P.region_init })) {
    is_updating = true;
  }

  unfoldable pub cancel_update : VncClient → VncClient
  cancel_update c = record c { is_updating = false }

  -- The window's part of the state is what update_fb works on.
  unfoldable pub finish_update {ℓ} :
      {W : Type ℓ} → (VncClient → W → Outcome W) → VncClient → W → Outcome (VncClient × W)
  finish_update update_fb c w =
      let c' = record c { is_updating = false } in do w' ← update_fb c' w; done (c', w')

  append_frame : Image → ℕ → ℕ → ℕ → ℕ → VncClient → VncClient
  append_frame frame x y width height c = record c {
    av_frames =
        c.av_frames
        ++ (record { frame = frame; x = x; y = y; width = width; height = height } ∷ []);
    current_rect_is_av_frame = true;
  }

  decode_into : Option Image → Bool → ℕ → ℕ → ℕ → ℕ → VncClient → Outcome (VncClient × Bool)
  unfolding append_frame
  decode_into none allocated x y width height c = done (c, false)
  decode_into (some frame) allocated x y width height c =
      if ltb (length c.av_frames) max_av_frames
      then (if allocated
          then done (append_frame frame x y width height c, true)
          else done (c, false))
      else aborted

  -- A rectangle of video. `created` and `decoded` are what open_h264_create and
  -- open_h264_decode_rect give, `allocated` whether calloc succeeds; the result says whether the
  -- rectangle was handled.
  unfoldable pub handle_open_h264_rect :
      ℕ → Bool → Option Image → Bool → ℕ → ℕ → ℕ → ℕ → VncClient → Outcome (VncClient × Bool)
  unfolding append_frame decode_into
  handle_open_h264_rect encoding created decoded allocated x y width height c =
      if not (encoding == encoding_open_h264)
      then done (c, false)
      else if c.has_open_h264
      then decode_into decoded allocated x y width height c
      else if created
      then decode_into decoded allocated x y width height (record c { has_open_h264 = true })
      else done (c, false)

  unfoldable pub lock_handler : VncClient → VncClient × Bool
  lock_handler c = if c.handler_lock then (c, false) else (record c { handler_lock = true }, true)

  unfoldable pub unlock_handler : VncClient → Outcome VncClient
  unlock_handler c = if c.handler_lock then done (record c { handler_lock = false }) else aborted

  unfoldable pub get_stride : VncClient → ℕ
  get_stride c = c.width * c.bits_per_pixel / 8

  unfoldable pub set_fb : VncClient → Image → VncClient
  set_fb c fb = record c { frame_buffer = fb }
