-- ===== src/View/Layout.antt =====
-- `allocate_view` lays out a whole tree of views.
use spacedisplay.Common.{
  suc, ◌≡◌, refl, sym, ap, ◌∙◌, ◌⊎◌, inl, inr, Bool, true, false, ◌||◌, Option, none, some, List,
  [], ◌∷◌, map, length, arith, All, Bool-cases,
}
use spacedisplay.Common.Int.{ℤ, pos, ◌≤ℤ◌, ltb_ℤ}
use spacedisplay.View.{Rect, Item}
use spacedisplay.View.Allocate.{allocate_children}
use spacedisplay.View.Division.{IsHidden, IsInside, Pairwise, IsSized, size_of}
use spacedisplay.View.Placement.{allocate_children-IsDivided}
use spacedisplay.View.Combine.{IsHidden-IsDivided}
use spacedisplay.View.Tree.{
  View, view, Views, nil, cons, Fields, fields_of, children_of, items, below_title, is_leaf,
  allocate_view, allocate_views,
}

-- Views that are new: none has a rectangle or a negative size.
abbrev pub AreNew : Views → Type 0
AreNew nil = Unit {0}
AreNew (cons (view f ws) vs) = ((f.draw_area.w ≡ pos 0) × (pos 0 ≤ℤ f.size)) × AreNew ws × AreNew vs

-- The children of a view lie below its title and do not overlap, but for those that are hidden.
abbrev pub IsShared : ℤ → Rect → Views → Type 0
IsShared title_height area vs =
    All (IsInside (below_title area title_height)) (items vs) × Pairwise (items vs)

-- The same at every depth.
abbrev pub AreLaidOut : ℤ → Views → Type 0
AreLaidOut title_height nil = Unit {0}
AreLaidOut title_height (cons (view f ws) vs) =
    (IsShared title_height f.draw_area ws × AreLaidOut title_height ws) × AreLaidOut title_height vs

abbrev pub IsLaidOut : ℤ → View → Type 0
IsLaidOut title_height (view f vs) =
    IsShared title_height f.draw_area vs × AreLaidOut title_height vs

items-AreNew : (vs : Views) → AreNew vs → All IsHidden (items vs) × All IsSized (items vs)
unfolding items
items-AreNew nil n = (tt, tt)
items-AreNew (cons (view f ws) vs) ((w, s), n, m) =
    let (h, k) = items-AreNew vs m in ((w, h), (s, k))

AreNew-IsShared : (t : ℤ) (area : Rect) (vs : Views) → AreNew vs → IsShared t area vs
AreNew-IsShared t area vs n =
    let v = IsHidden-IsDivided (below_title area t) (items vs) (items-AreNew vs n).0 in
    (v.inside, v.apart)

AreNew-AreLaidOut : (t : ℤ) (vs : Views) → AreNew vs → AreLaidOut t vs
AreNew-AreLaidOut t nil n = tt
AreNew-AreLaidOut t (cons (view f ws) vs) (h, n, m) =
    ((AreNew-IsShared t f.draw_area ws n, AreNew-AreLaidOut t ws n), AreNew-AreLaidOut t vs m)

abbrev stays : Views → Rect → ℤ → Bool
stays vs rect t = is_leaf vs || (ltb_ℤ rect.h t || ltb_ℤ rect.w (pos 1))

abbrev placed : Views → Rect → ℤ → Option (List Item)
placed vs rect t = allocate_children (suc (length (items vs))) (items vs) (below_title rect t)

allocate_view-stays :
    (f : Fields) (vs : Views) (area rect : Rect) (t : ℤ)
    → stays vs rect t ≡ true
    → allocate_view (view f vs) area rect t ≡ some (view (record f { draw_area = area }) vs)
unfolding allocate_view
allocate_view-stays f vs area rect t e = rw (allocate_view, e) refl

allocate_view-placed :
    (f : Fields) (vs ws : Views) (area rect : Rect) (t : ℤ) (out : List Item)
    → stays vs rect t ≡ false
    → placed vs rect t ≡ some out
    → allocate_views vs out t ≡ some ws
    → allocate_view (view f vs) area rect t ≡ some (view (record f { draw_area = rect }) ws)
unfolding allocate_view
allocate_view-placed f vs ws area rect t out e p w =
    rw (allocate_view, e) (ap shares p ∙ ap wraps w)
  where
    wraps : Option Views → Option View
    wraps none = none
    wraps (some ws) = some (view (record f { draw_area = rect }) ws)

    shares : Option (List Item) → Option View
    shares none = none
    shares (some out) = wraps (allocate_views vs out t)

allocate_views-nil : (out : List Item) (t : ℤ) → allocate_views nil out t ≡ some nil
unfolding allocate_views
allocate_views-nil out t = refl

allocate_views-cons :
    (v u : View) (vs us : Views) (c : Item) (out : List Item) (t : ℤ)
    → allocate_view v c.draw_area c.draw_area t ≡ some u
    → allocate_views vs out t ≡ some us
    → allocate_views (cons v vs) (c ∷ out) t ≡ some (cons u us)
unfolding allocate_views
allocate_views-cons v u vs us c out t e w = ap first e ∙ ap rest w
  where
    rest : Option Views → Option Views
    rest none = none
    rest (some us) = some (cons u us)

    first : Option View → Option Views
    first none = none
    first (some u) = elim (allocate_views vs out t) [ none ↦ none | some us ↦ some (cons u us) ]

AreLaidOut-cons :
    (t : ℤ) (u : View) (us : Views) → IsLaidOut t u → AreLaidOut t us → AreLaidOut t (cons u us)
AreLaidOut-cons t (view f vs) us h k = (h, k)

items-cons :
    (u : View) (us : Views) (f : Fields) (c : Item) (out : List Item)
    → fields_of u ≡ record f { draw_area = c.draw_area }
    → c.size ≡ f.size
    → items us ≡ out
    → items (cons u us) ≡ c ∷ out
unfolding items
items-cons (view g ws) us f c out e s h =
    ap (λ (d : Item). d ∷ items us) (ap item_of e ∙ (λ i. record c { size = sym s i }))
    ∙ ap (◌∷◌ c) h
  where
    item_of : Fields → Item
    item_of k = record { size = k.size; draw_area = k.draw_area }

heads {ℓ} : {A : Type ℓ} {x y : A} {xs ys : List A} → x ∷ xs ≡ y ∷ ys → (x ≡ y) × (xs ≡ ys)
heads e = (cc, cc)

mutual
  unfolding items

  view-IsLaidOut :
      (v : View) (area rect : Rect) (t : ℤ)
      → AreNew (children_of v)
      → (u : View) × (allocate_view v area rect t ≡ some u)
        × IsLaidOut t u
        × ((fields_of u ≡ record (fields_of v) { draw_area = area })
            ⊎ (fields_of u ≡ record (fields_of v) { draw_area = rect }))
  view-IsLaidOut (view f vs) area rect t n = elim (Bool-cases (stays vs rect t)) [
    | inl e ↦ (
      view (record f { draw_area = area }) vs,
      allocate_view-stays f vs area rect t e,
      (AreNew-IsShared t area vs n, AreNew-AreLaidOut t vs n),
      inl refl,
    )
    | inr e ↦
        let (h, s) = items-AreNew vs n in
        let (out, p, d) =
          allocate_children-IsDivided (suc (length (items vs))) (items vs) (below_title rect t)
            (omega arith) s h in
        let (ws, w, same, laid) = views-AreLaidOut vs out t n d.sizes in
        (
          view (record f { draw_area = rect }) ws,
          allocate_view-placed f vs ws area rect t out e p w,
          ((rw same d.inside, rw same d.apart), laid),
          inr refl,
        )
  ]

  views-AreLaidOut :
      (vs : Views) (out : List Item) (t : ℤ)
      → AreNew vs
      → map size_of out ≡ map size_of (items vs)
      → (ws : Views) × (allocate_views vs out t ≡ some ws) × (items ws ≡ out) × AreLaidOut t ws
  views-AreLaidOut nil [] t n e = (nil, allocate_views-nil [] t, refl, tt)
  views-AreLaidOut nil (c ∷ out) t n e = absurd cc
  views-AreLaidOut (cons (view f ws) vs) [] t n e = absurd cc
  views-AreLaidOut (cons (view f ws) vs) (c ∷ out) t (h, n, m) e =
      let (size, sizes) = heads e in
      let (u, p, laid, fields) = view-IsLaidOut (view f ws) c.draw_area c.draw_area t n in
      let (us, q, same, rest) = views-AreLaidOut vs out t m sizes in
      let same_fields : fields_of u ≡ record f { draw_area = c.draw_area } = elim fields [
        | inl x ↦ x
        | inr x ↦ x
      ] in
      (
        cons u us,
        allocate_views-cons (view f ws) u vs us c out t p q,
        items-cons u us f c out same_fields size same,
        AreLaidOut-cons t u us laid rest,
      )

-- `allocate_view` of a view whose children are new, at any depth, returns a view in which at every
-- depth the children lie below the title of their parent and do not overlap, but for those that
-- are hidden.
pub allocate_view-IsLaidOut :
    (v : View) (area rect : Rect) (t : ℤ)
    → AreNew (children_of v)
    → (u : View) × (allocate_view v area rect t ≡ some u) × IsLaidOut t u
allocate_view-IsLaidOut v area rect t n =
    let (u, e, laid, fields) = view-IsLaidOut v area rect t n in (u, e, laid)
