-- ===== src/Buffer.antt =====
-- src/buffer.c, include/buffer.h: the memory that is shared with the compositor.
pub mod Creation
pub mod Runs
use wlvncc.Base.{ℕ, Bool, false}
use wlvncc.Pixman.{Pixman, Image}

pub data BufferType : Type 0 where
  wl_shm dmabuf : BufferType

module _ (P : Pixman) where
  pub record Buffer : Type 0 where
    pub type : BufferType
    pub width : ℕ
    pub height : ℕ
    pub stride : ℕ
    pub format : ℕ
    pub is_attached : Bool
    pub please_clean_up : Bool
    pub damage : P.Region
    pub pixels : Image

  -- What the successful path of buffer_create_shm or buffer_create_dmabuf returns: all of the buffer
  -- is damaged. `pixels` is what the fresh memory holds; a dmabuf leaves the stride alone.
  unfoldable pub created_buffer : BufferType → ℕ → ℕ → ℕ → ℕ → Image → Buffer
  created_buffer type width height stride format pixels = record {
    type = type;
    width = width;
    height = height;
    stride = stride;
    format = format;
    is_attached = false;
    please_clean_up = false;
    damage = P.region_init_rect 0 0 width height;
    pixels = pixels;
  }
