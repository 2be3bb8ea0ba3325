-- ===== src/View/Allocate.antt =====
-- `allocate_children`: a rectangle is divided among the children of a view.
use spacedisplay.Common.{
  ℕ, zero, suc, ◌+◌, ◌*◌, ◌/◌, Bool, ◌&&◌, ◌||◌, not, Option, none, some, List, [], ◌∷◌, ◌++◌, map,
  ltb, if◌then◌else◌, pop_back, back, push_back,
}
use spacedisplay.Common.Int.{ℤ, pos, pos_part, neg_part, ◌+ℤ◌, ◌-ℤ◌, ◌==ℤ◌, ltb_ℤ, scale, quotient}
use spacedisplay.View.{Rect, Item}

abbrev pub min_child_pixel_area : ℕ
min_child_pixel_area = 50

unfoldable pub total_size : List Item → ℤ
total_size [] = pos 0
total_size (c ∷ cs) = c.size +ℤ total_size cs

-- `set_child_rect`.
unfoldable pub set_child_rect : Rect → Item → Item
set_child_rect rect c = record c {
  draw_area =
      if ltb_ℤ rect.w (pos 1) || ltb_ℤ rect.h (pos 1)
      then record rect { w = pos 0; h = pos 0 }
      else rect;
}

-- A child that is too small to be shown.
unfoldable pub hide : Item → Item
hide c = let area = c.draw_area in record c { draw_area = record area { w = pos 0; h = pos 0 } }

-- The children behind the second up to the first that is too small, and the others.
unfoldable pub split_small : ℤ → List Item → List Item × List Item
split_small min_size [] = ([], [])
split_small min_size (c ∷ cs) =
    let (shown, hidden) = split_small min_size cs in
    if ltb_ℤ c.size min_size then ([], c ∷ cs) else (c ∷ shown, hidden)

abbrev pub magnitude : ℤ → ℕ
magnitude a = pos_part a + neg_part a

-- Whether a child in the first bin brings the sums of both closer.
abbrev pub improves : ℤ → ℤ → ℤ → Bool
improves sum1 sum2 size =
    ltb (magnitude (sum2 -ℤ sum1 -ℤ (size +ℤ size))) (magnitude (sum2 -ℤ sum1))

-- The children behind the first one in two bins, and the sums of sizes.
pub record Bins : Type 0 where
  pub bin1 : List Item
  pub bin2 : List Item
  pub sum1 : ℤ
  pub sum2 : ℤ

unfoldable pub split_bins : ℤ → ℤ → List Item → Bins
split_bins sum1 sum2 [] = record { bin1 = []; bin2 = []; sum1 = sum1; sum2 = sum2 }
split_bins sum1 sum2 (c ∷ cs) =
    let b = split_bins (sum1 +ℤ c.size) (sum2 -ℤ c.size) cs in
    if improves sum1 sum2 c.size
    then record b { bin1 = c ∷ b.bin1 }
    else record { bin1 = []; bin2 = c ∷ cs; sum1 = sum1; sum2 = sum2 }

-- The two parts of the rectangle, where the first bin is `part` of it wide or high.
abbrev pub first_part : Bool → ℤ → Rect → Rect
first_part div_x part rect = if div_x then record rect { w = part } else record rect { h = part }

abbrev pub second_part : Bool → ℤ → Rect → Rect
second_part div_x part rect =
    if div_x
    then record rect { x = rect.x +ℤ part; w = rect.w -ℤ part }
    else record rect { y = rect.y +ℤ part; h = rect.h -ℤ part }

-- `midW1` or `midH1`. The rectangle is at least one pixel wide and high.
unfoldable pub middle : Bool → Rect → ℤ → ℤ → Option ℤ
unfolding quotient
middle div_x rect sum1 sum2 =
    let side = if div_x then rect.w else rect.h in
    let none_known = sum1 ==ℤ pos 0 && sum2 ==ℤ pos 0 in
    let s1 = if none_known then pos 1 else sum1 in
    let s2 = if none_known then pos 1 else sum2 in quotient (scale s1 (pos_part side)) (s1 +ℤ s2)

-- The first bin gets its part of the rectangle.
unfoldable pub place_first :
    (List Item → Rect → Option (List Item)) → Rect → Item → List Item → Option (List Item)
unfolding set_child_rect
place_first allocate rect c [] = some (set_child_rect rect c ∷ [])
place_first allocate rect c (d ∷ cs) = allocate (c ∷ d ∷ cs) rect

-- The second bin gets the rest. When it is empty the last child is placed again.
unfoldable pub place_second :
    (List Item → Rect → Option (List Item)) → Rect → List Item → List Item → Option (List Item)
unfolding set_child_rect
place_second allocate rect first [] = some (elim first [
  | [] ↦ []
  | c ∷ cs ↦ push_back (pop_back (c ∷ cs)) (set_child_rect rect (back c cs))
])
place_second allocate rect first (c ∷ []) = some (first ++ set_child_rect rect c ∷ [])
place_second allocate rect first (c ∷ d ∷ cs) = elim (allocate (c ∷ d ∷ cs) rect) [
  | none ↦ none
  | some second ↦ some (first ++ second)
]

-- The rectangle is divided between the bins.
unfoldable pub place_bins :
    (List Item → Rect → Option (List Item)) → Rect → Item → Bins → Option (List Item)
unfolding middle place_first place_second
place_bins allocate rect c b =
    let div_x = not (ltb_ℤ rect.w rect.h) in
    elim (middle div_x rect b.sum1 b.sum2) [
      | none ↦ none
      | some part ↦ elim (place_first allocate (first_part div_x part rect) c b.bin1) [
        | none ↦ none
        | some first ↦ place_second allocate (second_part div_x part rect) first b.bin2
      ]
    ]

abbrev pub is_too_small : Rect → Bool
is_too_small rect = ltb_ℤ rect.h (pos 1) || ltb_ℤ rect.w (pos 1)

-- What the children must have of `total_size` to be shown. The area is that of a rectangle that is
-- not too small, and the quotient of numbers is rounded down.
abbrev pub min_size : Rect → List Item → ℤ
min_size rect cs =
    scale (total_size cs) (min_child_pixel_area / (pos_part rect.h * pos_part rect.w))

-- `none` when the fuel or a division fails.
unfoldable pub allocate_children : ℕ → List Item → Rect → Option (List Item)
unfolding total_size set_child_rect hide split_small split_bins place_bins
allocate_children zero cs rect = none
allocate_children (suc fuel) [] rect = some []
allocate_children (suc fuel) (c ∷ []) rect =
    if is_too_small rect then some (c ∷ []) else some (set_child_rect rect c ∷ [])
allocate_children (suc fuel) (c ∷ d ∷ cs) rect =
    let (shown, hidden) = split_small (min_size rect (c ∷ d ∷ cs)) cs in
    let b = split_bins c.size (total_size (d ∷ shown)) (d ∷ shown) in
    let placed = place_bins (allocate_children fuel) rect c b in
    if is_too_small rect
    then some (c ∷ d ∷ cs)
    else elim placed [ none ↦ none | some out ↦ some (out ++ map hide hidden) ]
