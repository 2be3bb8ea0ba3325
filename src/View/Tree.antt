-- ===== src/View/Tree.antt =====
-- The tree of views, as `allocate_view`, `getHoveredView`, `getClosestView` and `getPath` go
-- through it. A view's parent is the view that holds it among its children.
use spacedisplay.Common.{
  ℕ, zero, suc, Bool, true, false, ◌&&◌, ◌||◌, not, Option, none, some, List, [], ◌∷◌, ◌==◌, length,
  if◌then◌else◌, back, pop_back, Str, str_eq,
}
use spacedisplay.Common.Int.{ℤ, pos, ◌+ℤ◌, ◌-ℤ◌, ltb_ℤ}
use spacedisplay.FilePath.{Host, separator, Result, ok, err, FilePath, add_dir, add_file}
use spacedisplay.View.{Rect, Item}
use spacedisplay.View.Allocate.{allocate_children}

pub data EntryType : Type 0 where
  directory file available_space unknown_space : EntryType

pub record Fields : Type 0 where
  pub draw_area : Rect
  pub size : ℤ
  pub id : ℕ
  pub name : Str
  pub entry_type : EntryType

mutual
  pub data View : Type 0 where
    view : (fields : Fields) (children : Views) → View

  pub data Views : Type 0 where
    nil : Views
    cons : View → Views → Views

abbrev pub fields_of : View → Fields
fields_of (view f vs) = f

abbrev pub children_of : View → Views
children_of (view f vs) = vs

-- The children as `allocate_children` sees them.
unfoldable pub items : Views → List Item
items nil = []
items (cons (view f ws) vs) = record { size = f.size; draw_area = f.draw_area } ∷ items vs

-- The part of a view below its title.
abbrev pub below_title : Rect → ℤ → Rect
below_title rect title_height = record {
  x = rect.x +ℤ pos 2;
  y = rect.y +ℤ (title_height +ℤ pos 2);
  w = rect.w -ℤ pos 4;
  h = rect.h -ℤ (title_height +ℤ pos 2 +ℤ pos 2);
}

abbrev pub is_leaf : Views → Bool
is_leaf nil = true
is_leaf (cons v vs) = false

-- `allocate_view` of a view whose `drawArea` is `area` at the call, and its calls for the children,
-- each with the rectangle that it has been given. `none` when `allocate_children` gives none.
unfoldable mutual
  unfolding items allocate_children

  pub allocate_view : View → Rect → Rect → ℤ → Option View
  allocate_view (view f vs) area rect title_height =
      let cs = items vs in
      let placed = allocate_children (suc (length cs)) cs (below_title rect title_height) in
      if is_leaf vs || (ltb_ℤ rect.h title_height || ltb_ℤ rect.w (pos 1))
      then some (view (record f { draw_area = area }) vs)
      else elim placed [
        | none ↦ none
        | some out ↦ elim (allocate_views vs out title_height) [
          | none ↦ none
          | some ws ↦ some (view (record f { draw_area = rect }) ws)
        ]
      ]

  pub allocate_views : Views → List Item → ℤ → Option Views
  allocate_views nil out title_height = some nil
  allocate_views (cons v vs) [] title_height = none
  allocate_views (cons v vs) (c ∷ out) title_height =
      let rest = allocate_views vs out title_height in
      elim (allocate_view v c.draw_area c.draw_area title_height) [
        | none ↦ none
        | some u ↦ elim rest [ none ↦ none | some us ↦ some (cons u us) ]
      ]

-- The test of `getHoveredView`.
unfoldable pub contains : Rect → ℤ → ℤ → Bool
contains area mouse_x mouse_y =
    not (ltb_ℤ mouse_x area.x)
    && (not (ltb_ℤ mouse_y area.y)
        && (not (ltb_ℤ area.w (mouse_x -ℤ area.x)) && not (ltb_ℤ area.h (mouse_y -ℤ area.y))))

-- `getHoveredView`: the first child that answers, or else the view itself.
unfoldable mutual
  unfolding contains

  pub get_hovered_view : View → ℤ → ℤ → Option View
  get_hovered_view (view f vs) mouse_x mouse_y =
      let child = hovered_child vs mouse_x mouse_y in
      if contains f.draw_area mouse_x mouse_y
      then elim child [ none ↦ some (view f vs) | some u ↦ some u ]
      else none

  pub hovered_child : Views → ℤ → ℤ → Option View
  hovered_child nil mouse_x mouse_y = none
  hovered_child (cons v vs) mouse_x mouse_y =
      let rest = hovered_child vs mouse_x mouse_y in
      elim (get_hovered_view v mouse_x mouse_y) [ none ↦ rest | some u ↦ some u ]

-- A child that is big enough, by its name.
unfoldable pub find_view : Str → Views → Option View
find_view part nil = none
find_view part (cons (view f ws) vs) =
    let area = f.draw_area in
    if ltb_ℤ (pos 10) area.w && ltb_ℤ (pos 10) area.h && str_eq f.name part
    then some (view f ws)
    else find_view part vs

abbrev pub without_separator : Host → Str → Str
without_separator host part = if back 0 part == separator host then pop_back part else part

-- `getClosestView` for the parts of a path. `max_depth` bounds how far down it goes.
unfoldable pub get_closest_view : Host → View → List Str → ℕ → View
unfolding find_view
get_closest_view host v [] max_depth = v
get_closest_view host v (part ∷ parts) zero = v
get_closest_view host v (part ∷ parts) (suc max_depth) =
    elim (find_view (without_separator host part) (children_of v)) [
      | none ↦ v
      | some u ↦ get_closest_view host u parts max_depth
    ]

-- One step of `getPath`.
unfoldable pub add_view : Host → EntryType → Str → FilePath → Result FilePath
add_view host directory name path = add_dir host path name 0
add_view host _ name path = add_file host path name 0

-- `getPath`, for the views below the root that lead down to the view, the last of which is itself.
unfoldable pub get_path : Host → List View → FilePath → Result FilePath
unfolding add_view
get_path host [] root = ok root
get_path host (v ∷ vs) root =
    elim (add_view host (fields_of v).entry_type (fields_of v).name root) [
      | err ↦ err
      | ok p ↦ get_path host vs p
    ]
