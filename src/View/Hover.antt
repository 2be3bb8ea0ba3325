-- ===== src/View/Hover.antt =====
-- The view under the mouse.
use spacedisplay.Common.{
  ◌≡◌, refl, ap, ◌∙◌, inl, inr, ◌⊎◌, true, false, Option, none, some, Bool-cases,
}
use spacedisplay.Common.Int.{ℤ}
use spacedisplay.View.Tree.{
  View, view, Views, nil, cons, Fields, fields_of, children_of, contains, get_hovered_view,
  hovered_child,
}

-- A view of the tree, at any depth.
mutual
  pub data Within (u : View) : View → Type 0 where
    here : Within u u
    below : {f : Fields} {vs : Views} → WithinAny u vs → Within u (view f vs)

  pub data WithinAny (u : View) : Views → Type 0 where
    first : {v : View} {vs : Views} → Within u v → WithinAny u (cons v vs)
    next : {v : View} {vs : Views} → WithinAny u vs → WithinAny u (cons v vs)

-- A child under the mouse.
abbrev pub IsUnder : ℤ → ℤ → View → Type 0
IsUnder x y v = contains (fields_of v).draw_area x y ≡ true

-- None of the views is under the mouse.
abbrev pub NoneUnder : ℤ → ℤ → Views → Type 0
NoneUnder x y nil = Unit {0}
NoneUnder x y (cons v vs) = (contains (fields_of v).draw_area x y ≡ false) × NoneUnder x y vs

abbrev pub Found : ℤ → ℤ → View → View → Type 0
Found x y v u = Within u v × IsUnder x y u × NoneUnder x y (children_of u)

abbrev FoundAny : ℤ → ℤ → Views → View → Type 0
FoundAny x y vs u = WithinAny u vs × IsUnder x y u × NoneUnder x y (children_of u)

pub hovered_child-none :
    (v : View) (vs : Views) (x y : ℤ)
    → get_hovered_view v x y ≡ none
    → hovered_child (cons v vs) x y ≡ hovered_child vs x y
unfolding hovered_child
hovered_child-none v vs x y e =
    ap (λ (o : Option View). elim o [ none ↦ hovered_child vs x y | some u ↦ some u ]) e

pub hovered_child-some :
    (v u : View) (vs : Views) (x y : ℤ)
    → get_hovered_view v x y ≡ some u
    → hovered_child (cons v vs) x y ≡ some u
unfolding hovered_child
hovered_child-some v u vs x y e =
    ap (λ (o : Option View). elim o [ none ↦ hovered_child vs x y | some u ↦ some u ]) e

mutual
  unfolding get_hovered_view hovered_child

  get_hovered_view-Found :
      (x y : ℤ) (v : View)
      → ((contains (fields_of v).draw_area x y ≡ false) × (get_hovered_view v x y ≡ none))
        ⊎ ((u : View) × (get_hovered_view v x y ≡ some u) × Found x y v u)
  get_hovered_view-Found x y (view f vs) = elim (Bool-cases (contains f.draw_area x y)) [
    | inr out ↦ inl (out, rw (get_hovered_view, out) refl)
    | inl under ↦ elim (hovered_child-Found x y vs) [
      | inl (free, e) ↦ inr (view f vs, rw (get_hovered_view, under, e) refl, (here, under, free))
      | inr (u, e, (w, i, n)) ↦ inr (u, rw (get_hovered_view, under, e) refl, (below w, i, n))
    ]
  ]

  hovered_child-Found :
      (x y : ℤ) (vs : Views)
      → (NoneUnder x y vs × (hovered_child vs x y ≡ none))
        ⊎ ((u : View) × (hovered_child vs x y ≡ some u) × FoundAny x y vs u)
  hovered_child-Found x y nil = inl (tt, refl)
  hovered_child-Found x y (cons v vs) = elim (get_hovered_view-Found x y v) [
    | inr (u, e, (w, i, n)) ↦ inr (u, hovered_child-some v u vs x y e, (first w, i, n))
    | inl (out, e) ↦ elim (hovered_child-Found x y vs) [
      | inl (free, g) ↦ inl ((out, free), hovered_child-none v vs x y e ∙ g)
      | inr (u, g, (w, i, n)) ↦ inr (u, hovered_child-none v vs x y e ∙ g, (next w, i, n))
    ]
  ]

-- The mouse is outside the view, and the answer is null; or the answer is a view of the tree that
-- is under the mouse and none of whose children is.
pub get_hovered_view_lem :
    (x y : ℤ) (v : View)
    → ((contains (fields_of v).draw_area x y ≡ false) × (get_hovered_view v x y ≡ none))
      ⊎ ((u : View) × (get_hovered_view v x y ≡ some u)
          × (Within u v × IsUnder x y u × NoneUnder x y (children_of u)))
get_hovered_view_lem x y v = get_hovered_view-Found x y v
