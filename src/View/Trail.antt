-- ===== src/View/Trail.antt =====
-- The views between the root and the view under the mouse.
use spacedisplay.Common.{
  ◌≡◌, refl, sym, ◌∙◌, ap, inl, inr, Option, none, some, List, [], ◌∷◌, back, Bool-cases,
  Option-cases, if◌then◌else◌,
}
use spacedisplay.Common.Int.{ℤ}
use spacedisplay.View.Hover.{hovered_child-none, hovered_child-some}
use spacedisplay.View.Tree.{View, view, Views, nil, cons, contains, get_hovered_view, hovered_child}

-- The chain of parents of what `getHoveredView` answers: the views below the root, down to the
-- answer.
unfoldable mutual
  unfolding contains

  pub hovered_trail : View → ℤ → ℤ → Option (List View)
  hovered_trail (view f vs) mouse_x mouse_y =
      let child = trail_below vs mouse_x mouse_y in
      if contains f.draw_area mouse_x mouse_y
      then elim child [ none ↦ some [] | some t ↦ some t ]
      else none

  pub trail_below : Views → ℤ → ℤ → Option (List View)
  trail_below nil mouse_x mouse_y = none
  trail_below (cons v vs) mouse_x mouse_y =
      let rest = trail_below vs mouse_x mouse_y in
      elim (hovered_trail v mouse_x mouse_y) [ none ↦ rest | some t ↦ some (v ∷ t) ]

-- The view where a trail ends, or nothing.
abbrev pub end_of : View → Option (List View) → Option View
end_of v none = none
end_of v (some t) = some (back v t)

module _ (u : View) (vs : Views) (x y : ℤ) where
  trail_below-none : hovered_trail u x y ≡ none → trail_below (cons u vs) x y ≡ trail_below vs x y
  unfolding trail_below
  trail_below-none e =
      ap (λ (o : Option (List View)). elim o [ none ↦ trail_below vs x y | some t ↦ some (u ∷ t) ])
        e

  trail_below-some :
      (t : List View) → hovered_trail u x y ≡ some t → trail_below (cons u vs) x y ≡ some (u ∷ t)
  unfolding trail_below
  trail_below-some t e =
      ap (λ (o : Option (List View)). elim o [ none ↦ trail_below vs x y | some t ↦ some (u ∷ t) ])
        e

mutual
  unfolding get_hovered_view hovered_child hovered_trail trail_below

  hovered_trail-end : (v : View) (x y : ℤ) → get_hovered_view v x y ≡ end_of v (hovered_trail v x y)
  hovered_trail-end (view f vs) x y = elim (Bool-cases (contains f.draw_area x y)) [
    | inr out ↦ rw (get_hovered_view, hovered_trail, out) refl
    | inl under ↦ elim (Option-cases (trail_below vs x y)) [
      | inl e ↦
          rw (get_hovered_view, hovered_trail, under, trail_below-end (view f vs) vs x y, e) refl
      | inr (t, e) ↦
          rw (get_hovered_view, hovered_trail, under, trail_below-end (view f vs) vs x y, e) refl
    ]
  ]

  trail_below-end :
      (v : View) (vs : Views) (x y : ℤ) → hovered_child vs x y ≡ end_of v (trail_below vs x y)
  trail_below-end v nil x y = refl
  trail_below-end v (cons u vs) x y = elim (Option-cases (hovered_trail u x y)) [
    | inl e ↦
        hovered_child-none u vs x y (hovered_trail-end u x y ∙ ap (end_of u) e)
        ∙ trail_below-end v vs x y
        ∙ sym (ap (end_of v) (trail_below-none u vs x y e))
    | inr (t, e) ↦
        hovered_child-some u (back u t) vs x y (hovered_trail-end u x y ∙ ap (end_of u) e)
        ∙ sym (ap (end_of v) (trail_below-some u vs x y t e))
  ]

-- `getHoveredView` answers with the view where the trail ends.
pub get_hovered_view-trail :
    (v : View) (x y : ℤ) → get_hovered_view v x y ≡ end_of v (hovered_trail v x y)
get_hovered_view-trail v x y = hovered_trail-end v x y
