-- ===== src/View/Combine.antt =====
-- Divisions of rectangles put together.
use spacedisplay.Common.{
  ◌<◌, ◌≡◌, ◌≢◌, refl, sym, ap, ◌∙◌, inl, inr, List, [], ◌∷◌, ◌++◌, map, length, arith, All,
  All-append, Bool-cases,
}
use spacedisplay.Common.Int.{ℤ, ltb_ℤ}
use spacedisplay.View.{Rect, Item}
use spacedisplay.View.Allocate.{hide, split_small}
use spacedisplay.View.Division.{
  IsHidden, Fits, IsInside, AreApart, Pairwise, size_of, IsDivided, IsInside-Fits, Pairwise-append,
  All-map_lem,
}

pub map-append {ℓ κ} :
    {A : Type ℓ} {B : Type κ} (f : A → B) (xs ys : List A) → map f (xs ++ ys) ≡ map f xs ++ map f ys
map-append f [] ys = refl
map-append f (x ∷ xs) ys = ap (◌∷◌ (f x)) (map-append f xs ys)

pub All-front {ℓ κ} :
    {A : Type ℓ} (P : A → Type κ) (xs ys : List A) → All P (xs ++ ys) → All P xs × All P ys
All-front P [] ys h = (tt, h)
All-front P (x ∷ xs) ys (p, h) = let (a, b) = All-front P xs ys h in ((p, a), b)

-- Two lists of which each two elements are apart.
pub All-All :
    (P Q : Item → Type 0) (xs ys : List Item)
    → ((c d : Item) → P c → Q d → AreApart c d)
    → All P xs
    → All Q ys
    → All (λ c. All (AreApart c) ys) xs
All-All P Q xs ys apart h k =
    All-map_lem P (λ c. All (AreApart c) ys)
      (λ c p. All-map_lem Q (AreApart c) (λ d q. apart c d p q) ys k) xs h

pub IsHidden-Pairwise : (xs : List Item) → All IsHidden xs → Pairwise xs
IsHidden-Pairwise [] h = tt
IsHidden-Pairwise (c ∷ cs) (p, h) =
    (All-map_lem IsHidden (AreApart c) (λ d k. inl p) cs h, IsHidden-Pairwise cs h)

-- Children that are not shown.
pub IsHidden-IsDivided : (rect : Rect) (xs : List Item) → All IsHidden xs → IsDivided rect xs xs
IsHidden-IsDivided rect xs h = record {
  sizes = refl;
  inside = All-map_lem IsHidden (IsInside rect) (λ c k. inl k) xs h;
  apart = IsHidden-Pairwise xs h;
}

pub hide-IsHidden : (xs : List Item) → All IsHidden (map hide xs)
unfolding hide
hide-IsHidden [] = tt
hide-IsHidden (c ∷ cs) = (refl, hide-IsHidden cs)

pub size_of-hide : (xs : List Item) → map size_of (map hide xs) ≡ map size_of xs
unfolding hide
size_of-hide [] = refl
size_of-hide (c ∷ cs) = ap (◌∷◌ c.size) (size_of-hide cs)

pub split_small-joined :
    (min : ℤ) (cs : List Item) → (split_small min cs).0 ++ (split_small min cs).1 ≡ cs
unfolding split_small
split_small-joined min [] = refl
split_small-joined min (c ∷ cs) = elim (Bool-cases (ltb_ℤ c.size min)) [
  | inl e ↦ rw (split_small, e) refl
  | inr e ↦ rw e (ap (◌∷◌ c) (split_small-joined min cs))
]

pub length-pos {ℓ} : {A : Type ℓ} (xs : List A) → xs ≢ [] → 0 < length xs
length-pos [] n = absurd (n refl)
length-pos (x ∷ xs) n = omega arith

pub IsDivided-Fits :
    (rect r : Rect) (xs a : List Item) → Fits rect r → IsDivided r xs a → IsDivided rect xs a
IsDivided-Fits rect r xs a f v = record {
  sizes = v.sizes;
  inside = All-map_lem (IsInside r) (IsInside rect) (λ c. IsInside-Fits rect r c f) a v.inside;
  apart = v.apart;
}

-- Two divisions whose children are apart.
pub IsDivided-append :
    (rect : Rect) (P Q : Item → Type 0) (xs ys a b : List Item)
    → ((c d : Item) → P c → Q d → AreApart c d)
    → All P a
    → All Q b
    → IsDivided rect xs a
    → IsDivided rect ys b
    → IsDivided rect (xs ++ ys) (a ++ b)
IsDivided-append rect P Q xs ys a b apart p q v w = record {
  sizes = map-append size_of a b ∙ rw (v.sizes, w.sizes) (sym (map-append size_of xs ys));
  inside = All-append (IsInside rect) a b v.inside w.inside;
  apart = Pairwise-append a b v.apart w.apart (All-All P Q a b apart p q);
}
