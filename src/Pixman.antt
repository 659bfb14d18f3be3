-- ===== src/Pixman.antt =====
-- What the program uses of libpixman: regions as sets of points, and the copy of an image under a
-- clip region. A region keeps its coordinates in 16 bits.
use wlvncc.Base.{
  ℕ, ◌+◌, ◌≤◌, ◌≡◌, Bool, true, false, ◌&&◌, ◌||◌, List, [], ◌∷◌, ltb, leb, if◌then◌else◌,
}

-- struct pixman_box16: x1 and y1 are in the box, x2 and y2 are not.
pub record Box : Type 0 where
  pub x1 : ℕ
  pub y1 : ℕ
  pub x2 : ℕ
  pub y2 : ℕ

abbrev pub box_has : Box → ℕ → ℕ → Bool
box_has b x y = (leb b.x1 x && ltb x b.x2) && (leb b.y1 y && ltb y b.y2)

abbrev pub rect : ℕ → ℕ → ℕ → ℕ → Box
rect x y width height = record { x1 = x; y1 = y; x2 = x + width; y2 = y + height }

abbrev pub boxes_have : List Box → ℕ → ℕ → Bool
boxes_have [] x y = false
boxes_have (b ∷ bs) x y = box_has b x y || boxes_have bs x y

-- Pixels by column and row.
abbrev pub Image : Type 0
Image = ℕ → ℕ → ℕ

-- INT16_MAX.
abbrev pub region_max : ℕ
region_max = 32767

pub record Pixman : Type 1 where
  pub Region : Type 0
  -- pixman_region_init and pixman_region_clear, pixman_region_init_rect.
  pub region_init : Region
  pub region_init_rect : ℕ → ℕ → ℕ → ℕ → Region
  pub region_union : Region → Region → Region
  pub region_union_rect : Region → ℕ → ℕ → ℕ → ℕ → Region
  pub region_not_empty : Region → Bool
  pub region_rectangles : Region → List Box
  -- The least box that holds the region.
  pub region_extents : Region → Box
  -- PIXMAN_OP_SRC: clip, source, destination, width and height.
  pub image_composite : Region → Image → Image → ℕ → ℕ → Image

module _ (P : Pixman) where
  abbrev pub region_has : P.Region → ℕ → ℕ → Bool
  region_has r x y = boxes_have (P.region_rectangles r) x y

  -- What the documentation of pixman says of these calls.
  pub record PixmanLaws : Type 0 where
    pub has-init : (x y : ℕ) → region_has P.region_init x y ≡ false
    pub has-init_rect :
        (width height x y : ℕ)
        → width ≤ region_max
        → height ≤ region_max
        → region_has (P.region_init_rect 0 0 width height) x y ≡ box_has (rect 0 0 width height) x y
    pub has-union :
        (r s : P.Region) (x y : ℕ)
        → region_has (P.region_union r s) x y ≡ (region_has r x y || region_has s x y)
    pub has-union_rect :
        (r : P.Region) (x y width height a b : ℕ)
        → x + width ≤ region_max
        → y + height ≤ region_max
        → region_has (P.region_union_rect r x y width height) a b
          ≡ (region_has r a b || box_has (rect x y width height) a b)
    pub has-empty :
        (r : P.Region) (x y : ℕ) → P.region_not_empty r ≡ false → region_has r x y ≡ false
    pub has-extents :
        (r : P.Region) (x y : ℕ) → region_has r x y ≡ true → box_has (P.region_extents r) x y ≡ true
    pub composite_lem :
        (clip : P.Region) (src dst : Image) (width height x y : ℕ)
        → P.image_composite clip src dst width height x y
          ≡ (if region_has clip x y && (ltb x width && ltb y height) then src x y else dst x y)
