-- ===== src/Window/Mirror.antt =====
-- When a buffer of the window mirrors the framebuffer, and that drawing makes it so.
use wlvncc.Base.{
  ℕ, zero, suc, ◌<◌, ◌≡◌, refl, sym, ap, ◌∙◌, true, false, ◌&&◌, List, [], ◌∷◌, Option, none, some,
  ltb, both_false, get_elem?, set, length, All, done, arith,
}
use wlvncc.Pixels.{Formats, drm_format_to_pixman_fmt}
use wlvncc.Pixman.{Pixman, PixmanLaws, Image, region_has}
use wlvncc.Buffer.{Buffer}
use wlvncc.VncClient.{VncClient}
use wlvncc.Window.{more_damage, apply_buffer_damage}

module _ (F : Formats) (P : Pixman) where
  unfoldable pub Inside : VncClient P → ℕ → ℕ → Type 0
  Inside c x y = (ltb x c.width && ltb y c.height) ≡ true

  -- The image shows the framebuffer.
  unfoldable pub Shows : VncClient P → Image → Type 0
  Shows c image = (x y : ℕ) → Inside c x y → image x y ≡ c.frame_buffer x y

  -- The buffer has the framebuffer's size and a format that pixman knows, and where it is not
  -- damaged it shows the framebuffer.
  pub record IsMirror (c : VncClient P) (b : Buffer P) : Type 0 where
    pub same_width : b.width ≡ c.width
    pub same_height : b.height ≡ c.height
    pub known : (f : ℕ) × (drm_format_to_pixman_fmt F b.format ≡ some f)
    pub shows :
        (x y : ℕ)
        → Inside c x y
        → region_has P b.damage x y ≡ false
        → b.pixels x y ≡ c.frame_buffer x y

  -- A texture, once there is one, shows the framebuffer.
  unfoldable pub TextureShows : VncClient P → Option Image → Type 0
  TextureShows c none = Unit {0}
  TextureShows c (some tex) = Shows c tex

  -- The update left the size alone, and outside the damage the framebuffer.
  pub record Painted (c c' : VncClient P) : Type 0 where
    pub same_width : c'.width ≡ c.width
    pub same_height : c'.height ≡ c.height
    pub kept :
        (x y : ℕ)
        → Inside c' x y
        → region_has P c'.damage x y ≡ false
        → c'.frame_buffer x y ≡ c.frame_buffer x y

  -- Every buffer is there and has the property.
  unfoldable pub AllFound : (Buffer P → Type 0) → List (Option (Buffer P)) → Type 0
  AllFound Q = All (λ o. (b : Buffer P) × (o ≡ some b) × Q b)

  pub get_elem?-AllFound :
      (Q : Buffer P → Type 0) (bs : List (Option (Buffer P))) (i : ℕ)
      → AllFound Q bs
      → i < length bs
      → (b : Buffer P) × (get_elem? bs i ≡ some (some b)) × Q b
  unfolding AllFound
  get_elem?-AllFound Q [] i all h = absurd (omega (arith, h))
  get_elem?-AllFound Q (o ∷ bs) zero all h = let (b, e, q) = all.0 in (b, ap some e, q)
  get_elem?-AllFound Q (o ∷ bs) (suc i) all h = get_elem?-AllFound Q bs i all.1 (omega (arith, h))

  pub set-AllFound :
      (Q : Buffer P → Type 0) (bs : List (Option (Buffer P))) (i : ℕ) (b : Buffer P)
      → AllFound Q bs
      → Q b
      → AllFound Q (set bs i (some b))
  unfolding AllFound
  set-AllFound Q [] i b all q = all
  set-AllFound Q (o ∷ bs) zero b all q = ((b, refl, q), all.1)
  set-AllFound Q (o ∷ bs) (suc i) b all q = (all.0, set-AllFound Q bs i b all.1 q)

  pub map-AllFound :
      (Q R : Buffer P → Type 0) (bs : List (Option (Buffer P)))
      → ((b : Buffer P) → Q b → R b)
      → AllFound Q bs
      → AllFound R bs
  unfolding AllFound
  map-AllFound Q R [] f all = tt
  map-AllFound Q R (o ∷ bs) f all =
      let (b, e, q) = all.0 in ((b, e, f b q), map-AllFound Q R bs f all.1)

  pub apply_buffer_damage-AllFound :
      (Q R : Buffer P → Type 0) (r : P.Region) (bs : List (Option (Buffer P)))
      → ((b : Buffer P) → Q b → R (more_damage P r b))
      → AllFound Q bs
      → (bs' : List (Option (Buffer P))) × (apply_buffer_damage P r bs ≡ done bs')
        × AllFound R bs'
        × (length bs' ≡ length bs)
  unfolding AllFound apply_buffer_damage
  apply_buffer_damage-AllFound Q R r [] f all = ([], refl, tt, refl)
  apply_buffer_damage-AllFound Q R r (o ∷ bs) f all =
      let (b, e, q) = all.0 in
      let (bs', e', all', l) = apply_buffer_damage-AllFound Q R r bs f all.1 in
      (some (more_damage P r b) ∷ bs', rw (e, e') refl, ((_, refl, f b q), all'), omega (arith, l))

  module _ (L : PixmanLaws P) where
    pub more_damage-IsMirror :
        (c c' : VncClient P) (b : Buffer P)
        → Painted c c'
        → IsMirror c b
        → IsMirror c' (more_damage P c'.damage b)
    unfolding more_damage Inside
    more_damage-IsMirror c c' b p m = record {
      same_width = m.same_width ∙ sym p.same_width;
      same_height = m.same_height ∙ sym p.same_height;
      known = m.known;
      shows = λ x y inside clean.
          let both = both_false (sym (L.has-union b.damage c'.damage x y) ∙ clean) in
          m.shows x y (rw (← p.same_width, ← p.same_height) inside) both.0
          ∙ sym (p.kept x y inside both.1);
    }
