-- ===== src/Buffer/Creation/Balance.antt =====
-- What the creation of a buffer keeps, and what its destruction gives back.
use wlvncc.Base.{
  ℕ, ◌+◌, ◌≡◌, ◌≢◌, refl, ap, ◌∙◌, Bool, true, false, not, ◌&&◌, List, [], ◌∷◌, ◌++◌, ◌==◌,
  if◌then◌else◌, done, arith,
}
use wlvncc.Buffer.{BufferType, wl_shm, dmabuf}
use wlvncc.Buffer.Creation.{
  Resource, buffer_struct, file_descriptor, mapping, shm_pool, wl_buffer, gbm_bo, buffer_params,
  Act, take, give, Mmap, mapped, map_failed, null, ShmCalls, DmabufCalls, make_shm_buffer,
  make_pool, map_pixels, after, buffer_create_shm, make_dmabuf_buffer, export_fd, make_params,
  buffer_create_dmabuf, Life, memory, buffer_destroy,
}

-- A number for each resource.
abbrev number : Resource → ℕ
number buffer_struct = 0
number file_descriptor = 1
number mapping = 2
number shm_pool = 3
number wl_buffer = 4
number gbm_bo = 5
number buffer_params = 6

abbrev is_same : Resource → Resource → Bool
is_same r s = number r == number s

abbrev pub takes : Resource → List Act → ℕ
takes r [] = 0
takes r (take s ∷ acts) = (if is_same r s then 1 else 0) + takes r acts
takes r (give s ∷ acts) = takes r acts

abbrev pub gives : Resource → List Act → ℕ
gives r [] = 0
gives r (give s ∷ acts) = (if is_same r s then 1 else 0) + gives r acts
gives r (take s ∷ acts) = gives r acts

-- What a buffer of shared memory, and a dmabuf, holds.
abbrev pub held : BufferType → List Act
held wl_shm = take buffer_struct ∷ take mapping ∷ take wl_buffer ∷ []
held dmabuf = take buffer_struct ∷ take gbm_bo ∷ take wl_buffer ∷ []

shm_paths :
    (calloc fd : Bool) (mmap : Mmap) (pool buffer : Bool) (r : Resource)
    → mmap ≢ map_failed
    → let m = buffer_create_shm (record {
      calloc = calloc;
      shm_alloc_fd = fd;
      mmap = mmap;
      create_pool = pool;
      create_buffer = buffer;
    }) in
      takes r m.0 ≡ gives r m.0 + (if m.1 then takes r (held wl_shm) else 0)
unfolding buffer_create_shm map_pixels make_pool make_shm_buffer after
shm_paths false fd mmap pool buffer r h = refl
shm_paths true false mmap pool buffer r h = omega arith
shm_paths true true map_failed pool buffer r h = absurd (h refl)
shm_paths true true null pool buffer r h = omega arith
shm_paths true true mapped false buffer r h = omega arith
shm_paths true true mapped true false r h = omega arith
shm_paths true true mapped true true r h = omega arith

-- Where mmap does not return MAP_FAILED: a buffer that is returned holds its struct, its mapping
-- and its wl_buffer, and a failure on any path gives back all that was taken.
pub buffer_create_shm-balance :
    (c : ShmCalls) (r : Resource)
    → c.mmap ≢ map_failed
    → let m = buffer_create_shm c in
      takes r m.0 ≡ gives r m.0 + (if m.1 then takes r (held wl_shm) else 0)
buffer_create_shm-balance c r h =
    shm_paths c.calloc c.shm_alloc_fd c.mmap c.create_pool c.create_buffer r h

-- Whether the creation fails at its last call, for which the params are gone already.
abbrev pub fails_last : DmabufCalls → Bool
fails_last c = ((c.calloc && c.bo_create) && (c.create_params && c.get_fd)) && not c.create_immed

dmabuf_paths :
    (calloc bo params fd immed : Bool) (r : Resource)
    → let c : DmabufCalls = record {
      calloc = calloc;
      bo_create = bo;
      create_params = params;
      get_fd = fd;
      create_immed = immed;
    } in
      let m = buffer_create_dmabuf c in
      gives r m.0 + (if m.1 then takes r (held dmabuf) else 0)
      ≡ takes r m.0 + (if fails_last c then takes r (take buffer_params ∷ []) else 0)
unfolding buffer_create_dmabuf make_params export_fd make_dmabuf_buffer after
dmabuf_paths false bo params fd immed r = refl
dmabuf_paths true false params fd immed r = omega arith
dmabuf_paths true true false fd immed r = omega arith
dmabuf_paths true true true false immed r = omega arith
dmabuf_paths true true true true false r = omega arith
dmabuf_paths true true true true true r = omega arith

-- On every path a dmabuf that is returned holds its struct, its bo and its wl_buffer, and a failure
-- gives back all that was taken, but for one: where only the last call fails, the params are
-- destroyed once more than they were created.
pub buffer_create_dmabuf-balance :
    (c : DmabufCalls) (r : Resource)
    → let m = buffer_create_dmabuf c in
      gives r m.0 + (if m.1 then takes r (held dmabuf) else 0)
      ≡ takes r m.0 + (if fails_last c then takes r (take buffer_params ∷ []) else 0)
buffer_create_dmabuf-balance c r =
    dmabuf_paths c.calloc c.bo_create c.create_params c.get_fd c.create_immed r

gives-append :
    (r : Resource) (acts bs : List Act) → gives r (acts ++ bs) ≡ gives r acts + gives r bs
gives-append r [] bs = omega arith
gives-append r (give s ∷ acts) bs = omega (arith, gives-append r acts bs)
gives-append r (take s ∷ acts) bs = gives-append r acts bs

takes-append :
    (r : Resource) (acts bs : List Act) → takes r (acts ++ bs) ≡ takes r acts + takes r bs
takes-append r [] bs = omega arith
takes-append r (take s ∷ acts) bs = omega (arith, takes-append r acts bs)
takes-append r (give s ∷ acts) bs = takes-append r acts bs

destroyed_holds :
    (type : BufferType) (r : Resource)
    → let acts = give wl_buffer ∷ give (memory type) ∷ give buffer_struct ∷ [] in
      (gives r acts ≡ takes r (held type)) × (takes r acts ≡ 0)
destroyed_holds wl_shm r = (omega arith, refl)
destroyed_holds dmabuf r = (omega arith, refl)

-- Destroying a live buffer returns, gives back what its creation left held, each thing once, and
-- takes nothing; the struct is gone afterwards, also where the buffer is still attached.
pub buffer_destroy_lem :
    (b : Life) (r : Resource)
    → b.is_live ≡ true
    → (b' : Life) × (buffer_destroy b ≡ done b')
      × (gives r b'.acts ≡ gives r b.acts + takes r (held b.type))
      × (takes r b'.acts ≡ takes r b.acts)
      × (b'.is_live ≡ false)
unfolding buffer_destroy
buffer_destroy_lem b r live =
    let (g, t) = destroyed_holds b.type r in
    (
      record b {
        is_live = false;
        please_clean_up = if b.is_attached then true else b.please_clean_up;
        acts = b.acts ++ (give wl_buffer ∷ give (memory b.type) ∷ give buffer_struct ∷ []);
      },
      rw live refl,
      gives-append r b.acts _ ∙ ap (λ n. gives r b.acts + n) g,
      omega (
        arith,
        t,
        takes-append r b.acts (give wl_buffer ∷ give (memory b.type) ∷ give buffer_struct ∷ []),
      ),
      refl,
    )
