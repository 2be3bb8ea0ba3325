-- ===== src/Examples/Views.antt =====
-- Views of a directory, and the rectangles that its children get.
use spacedisplay.Common.{
  ℕ, ◌≡◌, refl, inl, inr, ◌⊎◌, false, none, some, List, [], ◌∷◌, arith, codes, Bool-cases, ◌==◌,
}
use spacedisplay.Common.Int.{pos, ◌-ℤ◌}
use spacedisplay.View.{Rect, Item}
use spacedisplay.View.Allocate.{allocate_children}
use spacedisplay.View.Division.{IsDivided}
use spacedisplay.View.Placement.{allocate_children-IsDivided}
use spacedisplay.View.Tree.{
  directory, Fields, View, view, nil, cons, fields_of, children_of, allocate_view, get_hovered_view,
  contains,
}
use spacedisplay.View.Rebuild.{ViewOptions, create_view, no_rect}
use spacedisplay.View.Hover.{Within, IsUnder, NoneUnder, get_hovered_view_lem}
use spacedisplay.View.Layout.{IsLaidOut}
use spacedisplay.View.Create.{AreSized, create_view-IsLaidOut}
use spacedisplay.Examples.Database.{entries}

abbrev screen : Rect
screen = record { x = pos 0; y = pos 0; w = pos 100; h = pos 50 }

abbrev item : ℕ → Item
item size = record { size = pos size; draw_area = no_rect }

abbrev three_items : List Item
three_items = item 60 ∷ item 30 ∷ item 10 ∷ []

allocate_children-IsDivided_example :
    (out : List Item) × (allocate_children 4 three_items screen ≡ some out)
    × IsDivided screen three_items out
allocate_children-IsDivided_example =
    allocate_children-IsDivided 4 three_items screen (omega arith)
      (omega arith, (omega arith, (omega arith, tt))) (refl, (refl, (refl, tt)))

abbrev fields : Rect → ℕ → Fields
fields area size = record {
  draw_area = area;
  size = pos size;
  id = 1;
  name = codes "a";
  entry_type = directory;
}

-- A directory with two files.
abbrev new_tree : View
new_tree =
    view (fields no_rect 9)
      (cons (view (fields no_rect 6) nil) (cons (view (fields no_rect 3) nil) nil))

-- The first file has the left half of the screen.
abbrev tree : View
tree = view (fields screen 9) (
    cons (view (fields (record screen { w = pos 50 }) 6) nil)
      (cons (view (fields no_rect 3) nil) nil))

get_hovered_view_lem_example :
    ((contains (fields_of tree).draw_area (pos 10) (pos 20) ≡ false)
      × (get_hovered_view tree (pos 10) (pos 20) ≡ none))
    ⊎ ((u : View) × (get_hovered_view tree (pos 10) (pos 20) ≡ some u)
        × (Within u tree
            × IsUnder (pos 10) (pos 20) u
            × NoneUnder (pos 10) (pos 20) (children_of u)))
get_hovered_view_lem_example = get_hovered_view_lem (pos 10) (pos 20) tree

hovers_first :
    get_hovered_view tree (pos 10) (pos 20)
    ≡ some (view (fields (record screen { w = pos 50 }) 6) nil)
unfolding get_hovered_view contains ◌-ℤ◌
hovers_first = refl

entries-AreSized : AreSized entries
entries-AreSized e = elim (Bool-cases (e == 0)) [
  | inl t ↦ rw t (omega arith)
  | inr t ↦ elim (Bool-cases (e == 1)) [
    | inl u ↦ rw (t, u) (omega arith)
    | inr u ↦ rw (t, u) (omega arith)
  ]
]

abbrev options : ViewOptions
options = record { nest_level = 2; min_size = pos 0; unknown_space = pos 5; free_space = pos 10 }

create_view-IsLaidOut_example :
    (u : View) × (allocate_view (create_view entries 0 options 0).0 no_rect screen (pos 15)
      ≡ some u)
    × IsLaidOut (pos 15) u
create_view-IsLaidOut_example =
    create_view-IsLaidOut entries 0 options 0 no_rect screen (pos 15) entries-AreSized (omega arith)
      (omega arith)
