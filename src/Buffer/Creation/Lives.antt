-- ===== src/Buffer/Creation/Lives.antt =====
-- src/buffer.c: a buffer from its creation on, attached, released and destroyed in any order.
use wlvncc.Base.{
  ◌+◌, ◌≡◌, ◌≢◌, refl, sym, ap, subst, Bool, true, false, List, ◌∙◌, if◌then◌else◌, done, fault,
  done-injective, Bool-cases, inl, inr, arith,
}
use wlvncc.Buffer.{BufferType, wl_shm, dmabuf}
use wlvncc.Buffer.Creation.{
  Resource, Act, map_failed, ShmCalls, DmabufCalls, buffer_create_shm, buffer_create_dmabuf, Life,
  buffer_destroy, buffer_release, make_params, export_fd, make_dmabuf_buffer, after,
}
use wlvncc.Buffer.Creation.Balance.{
  takes, gives, held, buffer_create_shm-balance, buffer_create_dmabuf-balance, fails_last,
  buffer_destroy_lem,
}

-- A buffer that was made, on whatever path, with the acts of its creation.
pub data Created : BufferType → List Act → Type 0 where
  shm :
      {acts : List Act} (c : ShmCalls)
      → c.mmap ≢ map_failed
      → buffer_create_shm c ≡ (acts, true)
      → Created wl_shm acts
  bo :
      {acts : List Act} (c : DmabufCalls)
      → buffer_create_dmabuf c ≡ (acts, true)
      → Created dmabuf acts

abbrev pub newborn : BufferType → List Act → Life
newborn type acts = record {
  type = type;
  is_live = true;
  is_attached = false;
  please_clean_up = false;
  acts = acts;
}

-- The window attaches a buffer that is there; the compositor's release and the program's
-- destruction may come at any time.
pub data Step : Life → Life → Type 0 where
  attached : {b : Life} → b.is_live ≡ true → Step b (record b { is_attached = true })
  released : {b b' : Life} → buffer_release b ≡ done b' → Step b b'
  destroyed : {b b' : Life} → buffer_destroy b ≡ done b' → Step b b'

pub data Reach (b : Life) : Life → Type 0 where
  here : Reach b b
  next : {c d : Life} → Reach b c → Step c d → Reach b d

Balanced : Resource → Life → Type 0
Balanced r b = takes r b.acts ≡ gives r b.acts + (if b.is_live then takes r (held b.type) else 0)

destroy_gone : (b : Life) → b.is_live ≡ false → buffer_destroy b ≡ fault
unfolding buffer_destroy
destroy_gone b dead = rw dead refl

release_marked :
    (b : Life)
    → b.is_live ≡ true
    → b.please_clean_up ≡ true
    → buffer_release b ≡ buffer_destroy (record b { is_attached = false })
unfolding buffer_release buffer_destroy
release_marked b live please = rw (live, please) refl

release_unmarked :
    (b : Life)
    → b.is_live ≡ true
    → b.please_clean_up ≡ false
    → buffer_release b ≡ done (record b { is_attached = false })
unfolding buffer_release
release_unmarked b live kept = rw (live, kept) refl

buffer_destroy-Balanced :
    (r : Resource) (b b' : Life) → buffer_destroy b ≡ done b' → Balanced r b → Balanced r b'
unfolding Balanced
buffer_destroy-Balanced r b b' e v = elim (Bool-cases b.is_live) [
  | inl live ↦
      let (c, e1, g, t, gone) = buffer_destroy_lem b r live in
      subst (Balanced r) (done-injective (sym e1 ∙ e)) (rw gone (omega (arith, g, t, rw live at v)))
  | inr dead ↦ let e1 = sym (destroy_gone b dead) ∙ e in cc
]

buffer_release-Balanced :
    (r : Resource) (b b' : Life) → buffer_release b ≡ done b' → Balanced r b → Balanced r b'
unfolding buffer_release
buffer_release-Balanced r b b' e v = elim (Bool-cases b.is_live) [
  | inl live ↦ elim (Bool-cases b.please_clean_up) [
    | inl please ↦
        buffer_destroy-Balanced r (record b { is_attached = false }) b'
          (sym (release_marked b live please) ∙ e) (unattached r b v)
    | inr kept ↦
        subst (Balanced r) (done-injective (sym (release_unmarked b live kept) ∙ e))
          (unattached r b v)
  ]
  | inr dead ↦ cc (rw dead at e)
]
  where
    unattached :
        (r : Resource) (b : Life) → Balanced r b → Balanced r (record b { is_attached = false })
    unattached r b v = unfold Balanced in v

Reach-Balanced : {b c : Life} (r : Resource) → Balanced r b → Reach b c → Balanced r c
unfolding Balanced
Reach-Balanced r v here = v
Reach-Balanced r v (next reach (attached live)) = Reach-Balanced r v reach
Reach-Balanced r v (next reach (released e)) =
    buffer_release-Balanced r _ _ e (Reach-Balanced r v reach)
Reach-Balanced r v (next reach (destroyed e)) =
    buffer_destroy-Balanced r _ _ e (Reach-Balanced r v reach)

-- A creation that fails returns no buffer.
fails_last_none :
    (calloc gbm params fd immed : Bool)
    → let c : DmabufCalls = record {
      calloc = calloc;
      bo_create = gbm;
      create_params = params;
      get_fd = fd;
      create_immed = immed;
    } in
      (buffer_create_dmabuf c).1 ≡ true → fails_last c ≡ false
unfolding buffer_create_dmabuf make_params export_fd make_dmabuf_buffer after
fails_last_none true true true true true h = refl
fails_last_none true true true true false h = cc
fails_last_none true true true false immed h = refl
fails_last_none true true false fd immed h = refl
fails_last_none true false params fd immed h = refl
fails_last_none false gbm params fd immed h = refl

Created-held :
    {type : BufferType} {acts : List Act} (r : Resource)
    → Created type acts
    → takes r acts ≡ gives r acts + takes r (held type)
Created-held r (shm c mapped e) = let whole = buffer_create_shm-balance c r mapped in rw e at whole
Created-held r (bo c e) =
    let whole = buffer_create_dmabuf-balance c r in
    let not_last =
      fails_last_none c.calloc c.bo_create c.create_params c.get_fd c.create_immed
        (ap (λ q. q.1) e) in
    omega (arith, rw (e, not_last) at whole)

-- Whatever way it was made, where mmap does not return MAP_FAILED, and however it is attached,
-- released and destroyed afterwards: as long as the calls go through, a buffer that is there holds
-- its struct, its memory and its wl_buffer, and nothing else, and one that is gone has given back
-- all that was taken for it, each thing once.
pub buffer_life-balance :
    (type : BufferType) (acts : List Act) (b : Life) (r : Resource)
    → Created type acts
    → Reach (newborn type acts) b
    → takes r b.acts ≡ gives r b.acts + (if b.is_live then takes r (held b.type) else 0)
unfolding Balanced
buffer_life-balance type acts b r made = Reach-Balanced r (Created-held r made)
