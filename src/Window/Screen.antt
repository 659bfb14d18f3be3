-- ===== src/Window/Screen.antt =====
-- What the compositor has to show: the buffer that was attached last, over any number of updates.
use wlvncc.Base.{
  ℕ, ◌≡◌, refl, sym, ap, ◌∙◌, subst, Bool, false, List, [], ◌∷◌, ◌++◌, Option, none, some,
  get_elem?, All, done, Bool-cases, inl, inr,
}
use wlvncc.Pixels.{Formats}
use wlvncc.Pixman.{Pixman, PixmanLaws, Image, Box}
use wlvncc.Buffer.{Buffer}
use wlvncc.VncClient.{VncClient, finish_update}
use wlvncc.Renderer.{Gl, GlLaws}
use wlvncc.Window.{
  Window, Request, attach_background, attach, commit_background, commit, damage_buffer,
  damage_requests, has_news, on_vnc_client_update_fb,
}
use wlvncc.Window.Mirror.{Inside, Shows, IsMirror, TextureShows, Painted, map-AllFound}
use wlvncc.Window.Transfer.{Mirrors}
use wlvncc.Window.Updates.{Showed, show_update-Showed}
use wlvncc.Window.History.{
  Paint, Fits, last_attached, framebuffer_update, framebuffer_updates, finished, finished-Painted,
}

-- The last attach of two runs of requests.
later : Option ℕ → Option ℕ → Option ℕ
later first none = first
later first (some i) = some i

later_assoc : (a b c : Option ℕ) → later a (later b c) ≡ later (later a b) c
unfolding later
later_assoc a b none = refl
later_assoc a b (some i) = refl

later-none : (o : Option ℕ) → later none o ≡ o
unfolding later
later-none none = refl
later-none (some i) = refl

last_attached-append :
    (qs rs : List Request) → last_attached (qs ++ rs) ≡ later (last_attached qs) (last_attached rs)
unfolding last_attached later
last_attached-append [] rs = sym (later-none (last_attached rs))
last_attached-append (attach i ∷ qs) rs =
    ap (later (some i)) (last_attached-append qs rs)
    ∙ later_assoc (some i) (last_attached qs) (last_attached rs)
last_attached-append (attach_background ∷ qs) rs = last_attached-append qs rs
last_attached-append (damage_buffer x y w h ∷ qs) rs = last_attached-append qs rs
last_attached-append (commit_background ∷ qs) rs = last_attached-append qs rs
last_attached-append (commit ∷ qs) rs = last_attached-append qs rs

last_attached-damage_requests :
    (P : Pixman) (bs : List Box) → last_attached (damage_requests P bs) ≡ none
unfolding last_attached damage_requests
last_attached-damage_requests P [] = refl
last_attached-damage_requests P (b ∷ bs) = last_attached-damage_requests P bs

last_attached-update :
    (qs ds : List Request) (i : ℕ)
    → last_attached ds ≡ none
    → last_attached
        (qs ++ (attach_background ∷ attach i ∷ []) ++ ds ++ (commit_background ∷ commit ∷ []))
      ≡ some i
unfolding last_attached later
last_attached-update qs ds i e =
    last_attached-append (qs ++ (attach_background ∷ attach i ∷ []) ++ ds)
      (commit_background ∷ commit ∷ [])
    ∙ last_attached-append (qs ++ (attach_background ∷ attach i ∷ [])) ds
    ∙ rw e (last_attached-append qs (attach_background ∷ attach i ∷ []))

module _ (F : Formats) (P : Pixman) (have_egl : Bool) where
  ShownBy : VncClient P → Window P → Option ℕ → Type 0
  ShownBy c w none = Unit {0}
  ShownBy c w (some i) =
      (b : Buffer P) × (get_elem? w.buffers i ≡ some (some b)) × Shows F P c b.pixels

  -- The buffer that was attached last, once there is one, shows all of the framebuffer.
  unfoldable pub OnScreen : VncClient P → Window P → Type 0
  unfolding ShownBy
  OnScreen c w = ShownBy c w (last_attached w.requests)

  pub OnScreen-nothing_attached :
      (c : VncClient P) (w : Window P) → last_attached w.requests ≡ none → OnScreen c w
  unfolding OnScreen ShownBy
  OnScreen-nothing_attached c w e = subst (ShownBy c w) (sym e) tt

  module _ (L : PixmanLaws P) (G : Gl) (K : GlLaws G) where
    -- Without damage the framebuffer is as before.
    Shows-no_damage :
        (c c' : VncClient P) (image : Image)
        → Painted F P c c'
        → P.region_not_empty c'.damage ≡ false
        → Shows F P c image
        → Shows F P c' image
    unfolding Shows Inside
    Shows-no_damage c c' image p e s x y inside =
        s x y (rw (← p.same_width, ← p.same_height) inside)
        ∙ sym (p.kept x y inside (L.has-empty c'.damage x y e))

    IsMirror-no_damage :
        (c c' : VncClient P) (b : Buffer P)
        → Painted F P c c'
        → P.region_not_empty c'.damage ≡ false
        → IsMirror F P c b
        → IsMirror F P c' b
    unfolding Inside
    IsMirror-no_damage c c' b p e m = record {
      same_width = m.same_width ∙ sym p.same_width;
      same_height = m.same_height ∙ sym p.same_height;
      known = m.known;
      shows = λ x y inside clean.
          m.shows x y (rw (← p.same_width, ← p.same_height) inside) clean
          ∙ sym (p.kept x y inside (L.has-empty c'.damage x y e));
    }

    TextureShows-no_damage :
        (c c' : VncClient P) (texture : Option Image)
        → Painted F P c c'
        → P.region_not_empty c'.damage ≡ false
        → TextureShows F P c texture
        → TextureShows F P c' texture
    unfolding TextureShows
    TextureShows-no_damage c c' none p e t = tt
    TextureShows-no_damage c c' (some tex) p e t = Shows-no_damage c c' tex p e t

    ShownBy-no_damage :
        (c c' : VncClient P) (w : Window P) (o : Option ℕ)
        → Painted F P c c'
        → P.region_not_empty c'.damage ≡ false
        → ShownBy c w o
        → ShownBy c' w o
    unfolding ShownBy
    ShownBy-no_damage c c' w none p e s = tt
    ShownBy-no_damage c c' w (some i) p e (b, here, shown) =
        (b, here, Shows-no_damage c c' b.pixels p e shown)

    Showed-OnScreen :
        (c' : VncClient P) (w w' : Window P) → Showed F P have_egl L G K c' w w' → OnScreen c' w'
    unfolding OnScreen ShownBy
    Showed-OnScreen c' w w' s =
        subst (ShownBy c' w') (sym attached_last) (s.buffer, s.in_place, s.all_shown)
      where
        attached_last : last_attached w'.requests ≡ some w.back_buffer
        attached_last =
            ap last_attached s.requests
            ∙ last_attached-update w.requests (damage_requests P (P.region_rectangles c'.damage))
                w.back_buffer (last_attached-damage_requests P (P.region_rectangles c'.damage))

    has_news-damage :
        (c : VncClient P)
        → c.av_frames ≡ []
        → has_news P F G have_egl c ≡ false
        → P.region_not_empty c.damage ≡ false
    unfolding has_news
    has_news-damage c none_av e = rw none_av at e

    update_fb-OnScreen :
        (c c' : VncClient P) (w : Window P)
        → Mirrors F P have_egl c w
        → OnScreen c w
        → Painted F P c c'
        → c'.av_frames ≡ []
        → (w' : Window P) × (on_vnc_client_update_fb P F G have_egl c' w ≡ done w')
          × Mirrors F P have_egl c' w'
          × OnScreen c' w'
    unfolding on_vnc_client_update_fb OnScreen
    update_fb-OnScreen c c' w v s p none_av = elim (Bool-cases (has_news P F G have_egl c')) [
      | inl news ↦
          let (w', e, d) = show_update-Showed F P have_egl L G K c c' w v p none_av in
          (w', rw news e, d.mirrors, Showed-OnScreen c' w w' d)
      | inr still ↦
          let e : P.region_not_empty c'.damage ≡ false = has_news-damage c' none_av still in
          (
            w,
            rw still refl,
            record {
              buffers =
                  map-AllFound F P (IsMirror F P c) (IsMirror F P c') w.buffers
                    (λ b m. IsMirror-no_damage c c' b p e m) v.buffers;
              three = v.three;
              back = v.back;
              texture = TextureShows-no_damage c c' w.texture p e v.texture;
              unused = v.unused;
            },
            ShownBy-no_damage c c' w (last_attached w.requests) p e s,
          )
    ]

    framebuffer_update-run :
        (ps : List Paint) (c : VncClient P) (w w1 : Window P)
        → on_vnc_client_update_fb P F G have_egl (finished P F L ps c) w ≡ done w1
        → framebuffer_update P F G have_egl ps c w ≡ done (finished P F L ps c, w1)
    unfolding framebuffer_update finish_update finished
    framebuffer_update-run ps c w w1 e = rw e refl

    -- From three buffers that mirror the framebuffer, any number of updates is shown, of rectangles
    -- that fit a region and whose decoders draw within the rectangle that is announced: no call
    -- fails, the buffers mirror the framebuffer that results, and the buffer that was attached last
    -- shows all of it, with either renderer.
    pub framebuffer_updates-OnScreen :
        (us : List (List Paint)) (c : VncClient P) (w : Window P)
        → All (All Fits) us
        → c.current_rect_is_av_frame ≡ false
        → Mirrors F P have_egl c w
        → OnScreen c w
        → (c' : VncClient P) × (w' : Window P) × (framebuffer_updates P F G have_egl us c w
            ≡ done (c', w'))
          × Mirrors F P have_egl c' w'
          × OnScreen c' w'
    unfolding framebuffer_updates
    framebuffer_updates-OnScreen [] c w fits flag v s = (c, w, refl, v, s)
    framebuffer_updates-OnScreen (ps ∷ us) c w fits flag v s =
        let (p, none_av, flag1) = finished-Painted P F L ps c fits.0 flag in
        let (w1, e1, v1, s1) = update_fb-OnScreen c (finished P F L ps c) w v s p none_av in
        let (c2, w2, e2, v2, s2) =
          framebuffer_updates-OnScreen us (finished P F L ps c) w1 fits.1 flag1 v1 s1 in
        (c2, w2, rw (framebuffer_update-run ps c w w1 e1, e2) refl, v2, s2)
