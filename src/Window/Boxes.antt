-- ===== src/Window/Boxes.antt =====
-- A pixman whose regions are lists of boxes, and a graphics card that copies pixel by pixel.
use wlvncc.Base.{
  ℕ, ◌≡◌, refl, ap, ◌∙◌, max, Bool, true, false, ◌&&◌, ◌||◌, List, [], ◌∷◌, ◌++◌, ltb,
  if◌then◌else◌, arith, Bool-cases, inl, inr,
}
use wlvncc.Pixman.{Pixman, PixmanLaws, Box, rect, box_has, boxes_have}
use wlvncc.Renderer.{Gl, GlLaws}

abbrev is_cons {ℓ} : {A : Type ℓ} → List A → Bool
is_cons [] = false
is_cons (x ∷ xs) = true

-- A box from the origin that holds all the boxes.
abbrev extents : List Box → Box
extents [] = record { x1 = 0; y1 = 0; x2 = 0; y2 = 0 }
extents (b ∷ bs) = record {
  x1 = 0;
  y1 = 0;
  x2 = max b.x2 (extents bs).x2;
  y2 = max b.y2 (extents bs).y2;
}

abbrev pub boxes : Pixman
boxes = record {
  Region = List Box;
  region_init = [];
  region_init_rect = λ x y width height. rect x y width height ∷ [];
  region_union = λ r s. r ++ s;
  region_union_rect = λ r x y width height. r ++ (rect x y width height ∷ []);
  region_not_empty = is_cons;
  region_rectangles = λ r. r;
  region_extents = extents;
  image_composite = λ clip src dst width height x y.
      if boxes_have clip x y && (ltb x width && ltb y height) then src x y else dst x y;
}

abbrev pub copying : Gl
copying = record {
  tex_image = λ width height src. src;
  tex_sub_image = λ box src tex x y. if box_has box x y then src x y else tex x y;
  draw = λ scissor width height tex dst x y.
      if box_has scissor x y && (ltb x width && ltb y height) then tex x y else dst x y;
  draw_frame = λ scissor f dst x y.
      if box_has scissor x y && box_has (rect f.x f.y f.width f.height) x y
      then f.frame x y
      else dst x y;
}

boxes_have-append :
    (bs cs : List Box) (x y : ℕ)
    → boxes_have (bs ++ cs) x y ≡ (boxes_have bs x y || boxes_have cs x y)
boxes_have-append [] cs x y = refl
boxes_have-append (b ∷ bs) cs x y = ground (arith, boxes_have-append bs cs x y)

or_false : (b : Bool) → (b || false) ≡ b
or_false true = refl
or_false false = refl

boxes_have-extents :
    (bs : List Box) (x y : ℕ) → boxes_have bs x y ≡ true → box_has (extents bs) x y ≡ true
boxes_have-extents [] x y e = cc
boxes_have-extents (b ∷ bs) x y e = elim (Bool-cases (box_has b x y)) [
  | inl here ↦ ground (arith, here)
  | inr past ↦ let there = boxes_have-extents bs x y (rw past at e) in ground (arith, there)
]

not_cons : (bs : List Box) (x y : ℕ) → is_cons bs ≡ false → boxes_have bs x y ≡ false
not_cons [] x y e = refl
not_cons (b ∷ bs) x y e = cc

pub boxes_laws : PixmanLaws boxes
boxes_laws = record {
  has-init = λ x y. refl;
  has-init_rect = λ width height x y w h. or_false (box_has (rect 0 0 width height) x y);
  has-union = boxes_have-append;
  has-union_rect = λ r x y width height a b w h.
      boxes_have-append r _ a b
      ∙ ap (λ c. boxes_have r a b || c) (or_false (box_has (rect x y width height) a b));
  has-empty = λ r x y e. not_cons r x y e;
  has-extents = boxes_have-extents;
  composite_lem = λ clip src dst width height x y. refl;
}

pub copying_laws : GlLaws copying
copying_laws = record {
  tex_image_lem = λ width height src x y e. refl;
  tex_sub_image_lem = λ box src tex x y. refl;
  draw_lem = λ scissor width height tex dst x y. refl;
}
