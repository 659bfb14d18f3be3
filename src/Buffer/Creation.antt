-- ===== src/Buffer/Creation.antt =====
-- buffer_create_shm, buffer_create_dmabuf, buffer_destroy and buffer_release: what they take and
-- give back, on every path. A call of the outside is given by whether it succeeds; the asserted
-- globals are there, and the pointer given to buffer_destroy is not null.
pub mod Balance
pub mod Lives
use wlvncc.Base.{
  ℕ, zero, suc, ◌+◌, Bool, true, false, not, ◌&&◌, List, [], ◌∷◌, ◌++◌, if◌then◌else◌, Outcome,
  done, aborted, fault, ◌>>=◌,
}
use wlvncc.Buffer.{BufferType, wl_shm, dmabuf}

pub data Resource : Type 0 where
  buffer_struct file_descriptor mapping shm_pool wl_buffer gbm_bo buffer_params : Resource

pub data Act : Type 0 where
  take give : Resource → Act

-- mmap returns MAP_FAILED, which is not null, when it fails; `null` is the value the source tests.
pub data Mmap : Type 0 where
  mapped map_failed null : Mmap

pub record ShmCalls : Type 0 where
  pub calloc : Bool
  pub shm_alloc_fd : Bool
  pub mmap : Mmap
  pub create_pool : Bool
  pub create_buffer : Bool

pub record DmabufCalls : Type 0 where
  pub calloc : Bool
  pub bo_create : Bool
  pub create_params : Bool
  pub get_fd : Bool
  pub create_immed : Bool

-- The acts, and whether a buffer is returned.
abbrev pub Made : Type 0
Made = List Act × Bool

-- The labels shm_failure and pool_failure, mmap_failure and failure, each falling into the next.
abbrev pub failure : List Act
failure = give buffer_struct ∷ []

abbrev pub mmap_failure : List Act
mmap_failure = give file_descriptor ∷ failure

abbrev pub pool_failure : List Act
pool_failure = give mapping ∷ mmap_failure

-- The pool is destroyed whether or not it gave a buffer.
unfoldable pub make_shm_buffer : ShmCalls → Made
make_shm_buffer c =
    if c.create_buffer
    then (take wl_buffer ∷ give shm_pool ∷ give file_descriptor ∷ [], true)
    else (give shm_pool ∷ pool_failure, false)

unfoldable pub after : List Act → Made → Made
after acts m = (acts ++ m.0, m.1)

unfoldable pub make_pool : ShmCalls → Made
unfolding make_shm_buffer after
make_pool c =
    if c.create_pool then after (take shm_pool ∷ []) (make_shm_buffer c) else (pool_failure, false)

unfoldable pub map_pixels : ShmCalls → Made
unfolding make_pool after
map_pixels c = elim c.mmap [
  | mapped ↦ after (take mapping ∷ []) (make_pool c)
  | map_failed ↦ make_pool c
  | null ↦ (mmap_failure, false)
]

unfoldable pub buffer_create_shm : ShmCalls → Made
unfolding map_pixels after
buffer_create_shm c =
    if not c.calloc
    then ([], false)
    else if c.shm_alloc_fd
    then after (take buffer_struct ∷ take file_descriptor ∷ []) (map_pixels c)
    else (take buffer_struct ∷ failure, false)

-- The labels buffer_failure and fd_failure, params_failure and bo_failure.
abbrev pub bo_failure : List Act
bo_failure = give buffer_struct ∷ []

abbrev pub params_failure : List Act
params_failure = give gbm_bo ∷ bo_failure

abbrev pub fd_failure : List Act
fd_failure = give buffer_params ∷ params_failure

-- The params are destroyed and the descriptor closed before the result is tested.
unfoldable pub make_dmabuf_buffer : DmabufCalls → Made
make_dmabuf_buffer c =
    if c.create_immed
    then (take wl_buffer ∷ give buffer_params ∷ give file_descriptor ∷ [], true)
    else (give buffer_params ∷ give file_descriptor ∷ fd_failure, false)

unfoldable pub export_fd : DmabufCalls → Made
unfolding make_dmabuf_buffer after
export_fd c =
    if c.get_fd
    then after (take file_descriptor ∷ []) (make_dmabuf_buffer c)
    else (fd_failure, false)

unfoldable pub make_params : DmabufCalls → Made
unfolding export_fd after
make_params c =
    if c.create_params
    then after (take buffer_params ∷ []) (export_fd c)
    else (params_failure, false)

unfoldable pub buffer_create_dmabuf : DmabufCalls → Made
unfolding make_params after
buffer_create_dmabuf c =
    if not c.calloc
    then ([], false)
    else if c.bo_create
    then after (take buffer_struct ∷ take gbm_bo ∷ []) (make_params c)
    else (take buffer_struct ∷ bo_failure, false)

-- The memory of a buffer by its type.
abbrev pub memory : BufferType → Resource
memory wl_shm = mapping
memory dmabuf = gbm_bo

-- One buffer's life: `is_live` until the struct is freed.
pub record Life : Type 0 where
  pub type : BufferType
  pub is_live : Bool
  pub is_attached : Bool
  pub please_clean_up : Bool
  pub acts : List Act

-- An attached buffer is marked, and destroyed all the same. A struct that is gone cannot be read.
unfoldable pub buffer_destroy : Life → Outcome Life
buffer_destroy b =
    if b.is_live
    then done (record b {
      is_live = false;
      please_clean_up = if b.is_attached then true else b.please_clean_up;
      acts = b.acts ++ (give wl_buffer ∷ give (memory b.type) ∷ give buffer_struct ∷ []);
    })
    else fault

unfoldable pub buffer_release : Life → Outcome Life
unfolding buffer_destroy
buffer_release b =
    if b.is_live
    then (if b.please_clean_up
        then buffer_destroy (record b { is_attached = false })
        else done (record b { is_attached = false }))
    else fault
