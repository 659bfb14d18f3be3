-- ===== src/Buffer/Runs.antt =====
-- The paths of creation and destruction at concrete results of the calls.
use wlvncc.Base.{◌+◌, ◌≡◌, refl, true, false, List, [], ◌∷◌, ◌++◌, if◌then◌else◌}
use wlvncc.Buffer.{wl_shm, dmabuf}
use wlvncc.Buffer.Creation.{
  buffer_params, mapping, take, mapped, ShmCalls, DmabufCalls, buffer_create_shm,
  buffer_create_dmabuf, Life, buffer_destroy, buffer_release, map_pixels, make_pool,
  make_shm_buffer, after, Act, give, buffer_struct, file_descriptor, shm_pool, wl_buffer,
}
use wlvncc.Buffer.Creation.Lives.{
  shm, here, next, attached, released, destroyed, buffer_life-balance,
}
use wlvncc.Buffer.Creation.Balance.{
  takes, gives, held, fails_last, buffer_create_shm-balance, buffer_create_dmabuf-balance,
}

-- The pool cannot be created.
abbrev no_pool : ShmCalls
no_pool = record {
  calloc = true;
  shm_alloc_fd = true;
  mmap = mapped;
  create_pool = false;
  create_buffer = true;
}

-- The last call fails.
abbrev no_buffer : DmabufCalls
no_buffer = record {
  calloc = true;
  bo_create = true;
  create_params = true;
  get_fd = true;
  create_immed = false;
}

buffer_create_shm-balance_example :
    takes mapping (buffer_create_shm no_pool).0
    ≡ gives mapping (buffer_create_shm no_pool).0
      + (if (buffer_create_shm no_pool).1 then takes mapping (held wl_shm) else 0)
buffer_create_shm-balance_example = buffer_create_shm-balance no_pool mapping (λ e. cc)

buffer_create_dmabuf-balance_example :
    gives buffer_params (buffer_create_dmabuf no_buffer).0
      + (if (buffer_create_dmabuf no_buffer).1 then takes buffer_params (held dmabuf) else 0)
    ≡ takes buffer_params (buffer_create_dmabuf no_buffer).0
      + (if fails_last no_buffer then takes buffer_params (take buffer_params ∷ []) else 0)
buffer_create_dmabuf-balance_example = buffer_create_dmabuf-balance no_buffer buffer_params

-- Every call of both creations goes through.
abbrev all_shm : ShmCalls
all_shm = record {
  calloc = true;
  shm_alloc_fd = true;
  mmap = mapped;
  create_pool = true;
  create_buffer = true;
}

abbrev mapped_acts : List Act
mapped_acts =
    take buffer_struct
    ∷ take file_descriptor
    ∷ take mapping
    ∷ take shm_pool
    ∷ take wl_buffer
    ∷ give shm_pool
    ∷ give file_descriptor
    ∷ []

-- The buffer is attached, released and destroyed.
abbrev gone : Life
gone = record {
  type = wl_shm;
  is_live = false;
  is_attached = false;
  please_clean_up = false;
  acts = mapped_acts ++ (give wl_buffer ∷ give mapping ∷ give buffer_struct ∷ []);
}

buffer_life-balance_example :
    takes mapping gone.acts
    ≡ gives mapping gone.acts + (if gone.is_live then takes mapping (held gone.type) else 0)
unfolding buffer_create_shm map_pixels make_pool make_shm_buffer after buffer_release buffer_destroy
buffer_life-balance_example =
    buffer_life-balance wl_shm mapped_acts gone mapping (shm all_shm (λ e. cc) refl)
      (next (next (next here (attached refl)) (released refl)) (destroyed refl))
