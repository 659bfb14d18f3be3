-- ===== src/Window/Updates.antt =====
-- One update of the framebuffer, from the server's rectangles to the commit of a buffer.
use mathlib.Core.List.{append_assoc}
use wlvncc.Base.{
  ℕ, zero, suc, ◌<◌, ◌++◌, ◌≡◌, refl, sym, ap, ◌∙◌, subst, Bool, false, List, [], ◌∷◌, Option, none,
  some, get_elem?, set, length, length-set, done, arith,
}
use wlvncc.Pixels.{Formats}
use wlvncc.Pixman.{Pixman, PixmanLaws}
use wlvncc.Buffer.{Buffer}
use wlvncc.VncClient.{VncClient}
use wlvncc.Renderer.{Gl, GlLaws}
use wlvncc.Window.{
  Window, buffer_at, put_buffer, attached, request, window_attach, window_commit, window_swap,
  union_frames, get_frame_damage, apply_buffer_damage, window_damage_region, transfer_image,
  window_transfer_pixels, show_update, damage_requests, Request, attach_background, attach,
  commit_background, commit,
}
use wlvncc.Window.Mirror.{
  Shows, IsMirror, TextureShows, Painted, AllFound, get_elem?-AllFound, set-AllFound,
  apply_buffer_damage-AllFound, more_damage-IsMirror,
}
use wlvncc.Window.Transfer.{Mirrors, transfer_image-Handover}

module _ (F : Formats) (P : Pixman) (have_egl : Bool) where
  module _ (L : PixmanLaws P) (G : Gl) (K : GlLaws G) where
    -- What showing an update comes to: the framebuffer mirrored, and all of it in the buffer that
    -- was attached, between the requests that the compositor needs.
    pub record Showed (c' : VncClient P) (w w' : Window P) : Type 0 where
      pub mirrors : Mirrors F P have_egl c' w'
      pub buffer : Buffer P
      pub in_place : get_elem? w'.buffers w.back_buffer ≡ some (some buffer)
      pub all_shown : Shows F P c' buffer.pixels
      pub requests :
          w'.requests
          ≡ w.requests
            ++ (attach_background ∷ attach w.back_buffer ∷ [])
            ++ damage_requests P (P.region_rectangles c'.damage)
            ++ (commit_background ∷ commit ∷ [])

    get_elem?-set :
        (bs : List (Option (Buffer P))) (i : ℕ) (o : Option (Buffer P))
        → i < length bs
        → get_elem? (set bs i o) i ≡ some o
    get_elem?-set [] i o h = absurd (omega (arith, h))
    get_elem?-set (b ∷ bs) zero o h = refl
    get_elem?-set (b ∷ bs) (suc i) o h = get_elem?-set bs i o (omega (arith, h))

    attached-IsMirror :
        (c : VncClient P) (b : Buffer P) → IsMirror F P c b → IsMirror F P c (attached P b)
    unfolding attached
    attached-IsMirror c b m = record {
      same_width = m.same_width;
      same_height = m.same_height;
      known = m.known;
      shows = m.shows;
    }

    -- How the calls go where nothing stops them.
    window_attach-run :
        (w : Window P) (b : Buffer P)
        → get_elem? w.buffers w.back_buffer ≡ some (some b)
        → window_attach P w
          ≡ done (
              request P
                (put_buffer P (request P w attach_background) (attached P b))
                (attach w.back_buffer))
    unfolding window_attach buffer_at
    window_attach-run w b e = rw (buffer_at, e) refl

    window_transfer_pixels-run :
        (c : VncClient P) (w w' : Window P) (b : Buffer P)
        → c.av_frames ≡ []
        → get_elem? w.buffers w.back_buffer ≡ some (some b)
        → transfer_image P F G have_egl c b w ≡ done w'
        → window_transfer_pixels P F G have_egl c w ≡ done w'
    unfolding window_transfer_pixels buffer_at
    window_transfer_pixels-run c w w' b none_av e t = rw (buffer_at, e, none_av) t

    show_update-run :
        (c : VncClient P) (w w1 w3 : Window P) (bs : List (Option (Buffer P)))
        → get_frame_damage P c ≡ c.damage
        → window_attach P w ≡ done w1
        → apply_buffer_damage P c.damage w1.buffers ≡ done bs
        → window_transfer_pixels P F G have_egl c
            (window_damage_region P c.damage (record w1 { buffers = bs }))
          ≡ done w3
        → show_update P F G have_egl c w ≡ done (window_swap P (window_commit P w3))
    unfolding show_update
    show_update-run c w w1 w3 bs r e1 e2 e3 =
        let e2' = subst (λ d. apply_buffer_damage P d w1.buffers ≡ done bs) (sym r) e2 in
        let e3' =
          subst
            (λ d.
              window_transfer_pixels P F G have_egl c
                (window_damage_region P d (record w1 { buffers = bs }))
              ≡ done w3)
            (sym r) e3 in
        rw (e1, e2', e3') refl

    get_frame_damage-no_frames :
        (c : VncClient P) → c.av_frames ≡ [] → get_frame_damage P c ≡ c.damage
    unfolding get_frame_damage union_frames
    get_frame_damage-no_frames c e = rw e refl

    window_attach-Mirrors :
        (c : VncClient P) (w : Window P)
        → Mirrors F P have_egl c w
        → (w1 : Window P) × (window_attach P w ≡ done w1)
          × Mirrors F P have_egl c w1
          × (w1.back_buffer ≡ w.back_buffer)
          × (w1.requests ≡ (w.requests ++ (attach_background ∷ attach w.back_buffer ∷ [])))
    unfolding request put_buffer
    window_attach-Mirrors c w v =
        let (b, e, m) =
          get_elem?-AllFound F P (IsMirror F P c) w.buffers w.back_buffer v.buffers
            (omega (arith, v.three, v.back)) in
        (
          request P (put_buffer P (request P w attach_background) (attached P b))
              (attach w.back_buffer),
          window_attach-run w b e,
          record {
            buffers =
                set-AllFound F P (IsMirror F P c) w.buffers w.back_buffer (attached P b) v.buffers
                  (attached-IsMirror c b m);
            three = length-set w.buffers w.back_buffer (some (attached P b)) ∙ v.three;
            back = v.back;
            texture = v.texture;
            unused = v.unused;
          },
          refl,
          append_assoc w.requests _ _,
        )

    -- After the damage is handed out: the buffers mirror the new framebuffer, the texture the old.
    record IsReady (c c' : VncClient P) (w : Window P) : Type 0 where
      buffers : AllFound F P (IsMirror F P c') w.buffers
      three : length w.buffers ≡ 3
      back : w.back_buffer < 3
      texture : TextureShows F P c w.texture
      unused : have_egl ≡ false → w.texture ≡ none

    apply_buffer_damage-IsReady :
        (c c' : VncClient P) (w : Window P)
        → Mirrors F P have_egl c w
        → Painted F P c c'
        → (bs : List (Option (Buffer P))) × (apply_buffer_damage P c'.damage w.buffers ≡ done bs)
          × IsReady c c' (window_damage_region P c'.damage (record w { buffers = bs }))
    unfolding window_damage_region
    apply_buffer_damage-IsReady c c' w v p =
        let (bs, e, all, l) =
          apply_buffer_damage-AllFound F P (IsMirror F P c) (IsMirror F P c') c'.damage w.buffers
            (λ b m. more_damage-IsMirror F P L c c' b p m) v.buffers in
        (
          bs,
          e,
          record {
            buffers = all;
            three = l ∙ v.three;
            back = v.back;
            texture = v.texture;
            unused = v.unused;
          },
        )

    window_transfer_pixels-Mirrors :
        (c c' : VncClient P) (w : Window P)
        → Painted F P c c'
        → c'.av_frames ≡ []
        → IsReady c c' w
        → (w' : Window P) × (b : Buffer P) × (window_transfer_pixels P F G have_egl c' w ≡ done w')
          × Mirrors F P have_egl c' w'
          × (get_elem? w'.buffers w.back_buffer ≡ some (some b))
          × Shows F P c' b.pixels
          × (w'.requests ≡ w.requests)
    unfolding put_buffer
    window_transfer_pixels-Mirrors c c' w p none_av v =
        let inside : w.back_buffer < length w.buffers = omega (arith, v.three, v.back) in
        let (b, e, m) =
          get_elem?-AllFound F P (IsMirror F P c') w.buffers w.back_buffer v.buffers inside in
        let t = transfer_image-Handover F P have_egl L G K c c' b w p v.texture v.unused m in
        (
          put_buffer P (record w { texture = t.texture }) t.drawn,
          t.drawn,
          window_transfer_pixels-run c' w _ b none_av e t.transferred,
          record {
            buffers =
                set-AllFound F P (IsMirror F P c') w.buffers w.back_buffer t.drawn v.buffers
                  t.is_drawn.mirror;
            three = length-set w.buffers w.back_buffer (some t.drawn) ∙ v.three;
            back = v.back;
            texture = t.texture_shows;
            unused = t.unused;
          },
          get_elem?-set w.buffers w.back_buffer (some t.drawn) inside,
          t.is_drawn.all_shown,
          refl,
        )

    -- An update without video frames is shown: from buffers that mirror the old framebuffer, the
    -- call returns, and leaves what Showed says.
    pub show_update-Showed :
        (c c' : VncClient P) (w : Window P)
        → Mirrors F P have_egl c w
        → Painted F P c c'
        → c'.av_frames ≡ []
        → (w' : Window P) × (show_update P F G have_egl c' w ≡ done w') × Showed c' w w'
    unfolding window_damage_region window_commit window_swap request
    show_update-Showed c c' w v p none_av =
        let (w1, e1, v1, back1, q1) = window_attach-Mirrors c w v in
        let (bs, e2, v2) = apply_buffer_damage-IsReady c c' w1 v1 p in
        let (w3, b, e3, v3, here, shown, q3) =
          window_transfer_pixels-Mirrors c c'
            (window_damage_region P c'.damage (record w1 { buffers = bs })) p none_av v2 in
        (
          window_swap P (window_commit P w3),
          show_update-run c' w w1 w3 bs (get_frame_damage-no_frames c' none_av) e1 e2 e3,
          record {
            mirrors = record {
              buffers = v3.buffers;
              three = v3.three;
              back = ground arith;
              texture = v3.texture;
              unused = v3.unused;
            };
            buffer = b;
            in_place = subst (λ i. get_elem? w3.buffers i ≡ some (some b)) back1 here;
            all_shown = shown;
            requests =
                append_assoc w3.requests (commit_background ∷ []) (commit ∷ [])
                ∙ ap (λ q. q ++ (commit_background ∷ commit ∷ [])) (q3 ∙ ap (λ q. q ++ damages) q1);
          },
        )
      where
        damages : List Request
        damages = damage_requests P (P.region_rectangles c'.damage)

        attaches : List Request
        attaches = attach_background ∷ attach w.back_buffer ∷ []
