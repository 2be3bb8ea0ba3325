-- ===== src/View/Placement.antt =====
-- `allocate_children` divides its rectangle.
use spacedisplay.Common.{
  ℕ, zero, suc, ◌+◌, ◌<◌, ◌≡◌, ◌≢◌, refl, sym, ap, subst, ◌∙◌, inl, inr, false, not, Option, some,
  List, [], ◌∷◌, ◌++◌, map, length, length-append, arith, All, Bool-cases,
}
use spacedisplay.Common.Int.{ℤ, pos, ltb_ℤ}
use spacedisplay.View.{Rect, Item}
use spacedisplay.View.Allocate.{
  total_size, set_child_rect, hide, split_small, Bins, split_bins, first_part, second_part,
  place_first, place_second, place_bins, is_too_small, min_size, allocate_children,
}
use spacedisplay.View.Division.{
  IsHidden, IsInside, IsSized, IsDivided, IsSplit, split_bins-IsSplit, middle_lem, Fits-first_part,
  Fits-second_part, parts-AreApart, set_child_rect-IsInside, All-map_lem,
}
use spacedisplay.View.Combine.{
  All-front, IsHidden-IsDivided, hide-IsHidden, size_of-hide, split_small-joined, length-pos,
  IsDivided-Fits, IsDivided-append,
}

set_child_rect-IsDivided :
    (rect : Rect) (c : Item) → IsDivided rect (c ∷ []) (set_child_rect rect c ∷ [])
unfolding set_child_rect
set_child_rect-IsDivided rect c = record {
  sizes = refl;
  inside = (set_child_rect-IsInside rect c, tt);
  apart = (tt, tt);
}

module _ (allocate : List Item → Rect → Option (List Item)) (n : ℕ)
    (divides : (cs : List Item) (rect : Rect)
      → length cs < n
      → All IsSized cs
      → All IsHidden cs
      → (out : List Item) × (allocate cs rect ≡ some out) × IsDivided rect cs out) where
  place_first-IsDivided :
      (rect : Rect) (c : Item) (cs : List Item)
      → length (c ∷ cs) < n
      → All IsSized (c ∷ cs)
      → All IsHidden (c ∷ cs)
      → (out : List Item) × (place_first allocate rect c cs ≡ some out)
        × IsDivided rect (c ∷ cs) out
  unfolding place_first
  place_first-IsDivided rect c [] l s h =
      (set_child_rect rect c ∷ [], refl, set_child_rect-IsDivided rect c)
  place_first-IsDivided rect c (d ∷ cs) l s h = divides (c ∷ d ∷ cs) rect l s h

  place_second-IsDivided :
      (rect : Rect) (first cs : List Item)
      → cs ≢ []
      → length cs < n
      → All IsSized cs
      → All IsHidden cs
      → (out : List Item) × (place_second allocate rect first cs ≡ some (first ++ out))
        × IsDivided rect cs out
  unfolding place_second
  place_second-IsDivided rect first [] e l s h = absurd (e refl)
  place_second-IsDivided rect first (c ∷ []) e l s h =
      (set_child_rect rect c ∷ [], refl, set_child_rect-IsDivided rect c)
  place_second-IsDivided rect first (c ∷ d ∷ cs) e l s h =
      let (out, f, v) = divides (c ∷ d ∷ cs) rect l s h in (out, rw (place_second, f) refl, v)

  place_bins-IsDivided :
      (rect : Rect) (c : Item) (cs : List Item) (b : Bins) (sum1 sum2 : ℤ)
      → IsSplit sum1 sum2 cs b
      → is_too_small rect ≡ false
      → length cs < n
      → cs ≢ []
      → All IsSized (c ∷ cs)
      → All IsHidden (c ∷ cs)
      → (out : List Item) × (place_bins allocate rect c b ≡ some out) × IsDivided rect (c ∷ cs) out
  unfolding place_bins
  place_bins-IsDivided rect c cs b sum1 sum2 v big l e s h =
      let div_x = not (ltb_ℤ rect.w rect.h) in
      let (m, mid, small) = middle_lem div_x rect b.sum1 b.sum2 v.sized1 v.sized2 big in
      let (s1, s2) = All-front IsSized b.bin1 b.bin2 (subst (All IsSized) (sym v.joined) s.1) in
      let (h1, h2) = All-front IsHidden b.bin1 b.bin2 (subst (All IsHidden) (sym v.joined) h.1) in
      let r = first_part div_x (pos m) rect in
      let q = second_part div_x (pos m) rect in
      let whole : length b.bin1 + length b.bin2 ≡ length cs =
        sym (length-append b.bin1 b.bin2) ∙ ap length v.joined in
      let more = length-pos b.bin2 v.some_left in
      let (first, f, vf) =
        place_first-IsDivided r c b.bin1 (omega (arith, whole, more)) (s.0, s1) (h.0, h1) in
      let (second, g, vg) =
        place_second-IsDivided q first b.bin2 v.some_left (omega (arith, whole)) s2 h2 in
      (
        first ++ second,
        rw (place_bins, mid, f) g,
        subst (λ (xs : List Item). IsDivided rect (c ∷ xs) (first ++ second)) v.joined
            (IsDivided-append rect (IsInside r) (IsInside q) (c ∷ b.bin1) b.bin2 first second
              (parts-AreApart div_x m rect) vf.inside vg.inside
              (IsDivided-Fits rect r (c ∷ b.bin1) first (Fits-first_part div_x m rect small) vf)
              (IsDivided-Fits rect q b.bin2 second (Fits-second_part div_x m rect) vg)),
      )

hide-IsDivided : (rect : Rect) (xs : List Item) → IsDivided rect xs (map hide xs)
hide-IsDivided rect xs =
    let v = IsHidden-IsDivided rect (map hide xs) (hide-IsHidden xs) in
    record { sizes = size_of-hide xs; inside = v.inside; apart = v.apart }

step-IsDivided :
    (fuel : ℕ) (c d : Item) (cs : List Item) (rect : Rect)
    → ((cs : List Item) (rect : Rect)
        → length cs < fuel
        → All IsSized cs
        → All IsHidden cs
        → (out : List Item) × (allocate_children fuel cs rect ≡ some out) × IsDivided rect cs out)
    → length (d ∷ cs) < fuel
    → All IsSized (c ∷ d ∷ cs)
    → All IsHidden (c ∷ d ∷ cs)
    → (out : List Item) × (allocate_children (suc fuel) (c ∷ d ∷ cs) rect ≡ some out)
      × IsDivided rect (c ∷ d ∷ cs) out
unfolding allocate_children
step-IsDivided fuel c d cs rect divides l s h = elim (Bool-cases (is_too_small rect)) [
  | inl small ↦
      (c ∷ d ∷ cs, rw (allocate_children, small) refl, IsHidden-IsDivided rect (c ∷ d ∷ cs) h)
  | inr big ↦
      let min = min_size rect (c ∷ d ∷ cs) in
      let (shown, hidden) = split_small min cs in
      let joined = split_small-joined min cs in
      let whole : length shown + length hidden ≡ length cs =
        sym (length-append shown hidden) ∙ ap length joined in
      let (s1, s2) = All-front IsSized shown hidden (subst (All IsSized) (sym joined) s.1.1) in
      let (h1, h2) = All-front IsHidden shown hidden (subst (All IsHidden) (sym joined) h.1.1) in
      let b = split_bins c.size (total_size (d ∷ shown)) (d ∷ shown) in
      let v = split_bins-IsSplit c.size (total_size (d ∷ shown)) d shown refl s.0 (s.1.0, s1) in
      let (out, f, w) =
        place_bins-IsDivided (allocate_children fuel) fuel divides rect c (d ∷ shown) b c.size
          (total_size (d ∷ shown)) v big (omega (arith, whole)) (λ n. cc) (s.0, (s.1.0, s1))
          (h.0, (h.1.0, h1)) in
      (
        out ++ map hide hidden,
        rw (allocate_children, big, f) refl,
        subst (λ (xs : List Item). IsDivided rect (c ∷ d ∷ xs) (out ++ map hide hidden)) joined
            (IsDivided-append rect (λ c. Unit {0}) IsHidden (c ∷ d ∷ shown) hidden out
              (map hide hidden) (λ c d u k. inr (inl k))
              (All-map_lem (IsInside rect) (λ c. Unit {0}) (λ c k. tt) out w.inside)
              (hide-IsHidden hidden) w (hide-IsDivided rect hidden)),
      )
]

-- Children of which none has a negative size and none is shown yet are given rectangles: with more
-- fuel than there are children the function returns, the children keep their order and their
-- sizes, and the rectangles lie in the one that is divided and do not overlap, but for children
-- that stay hidden.
pub allocate_children-IsDivided :
    (fuel : ℕ) (cs : List Item) (rect : Rect)
    → length cs < fuel
    → All IsSized cs
    → All IsHidden cs
    → (out : List Item) × (allocate_children fuel cs rect ≡ some out) × IsDivided rect cs out
unfolding allocate_children
allocate_children-IsDivided zero cs rect l s h = absurd (omega arith)
allocate_children-IsDivided (suc fuel) [] rect l s h = ([], refl, IsHidden-IsDivided rect [] tt)
allocate_children-IsDivided (suc fuel) (c ∷ []) rect l s h = elim (Bool-cases (is_too_small rect)) [
  | inl small ↦ (c ∷ [], rw (allocate_children, small) refl, IsHidden-IsDivided rect (c ∷ []) h)
  | inr big ↦ (
    set_child_rect rect c ∷ [],
    rw (allocate_children, big) refl,
    set_child_rect-IsDivided rect c,
  )
]
allocate_children-IsDivided (suc fuel) (c ∷ d ∷ cs) rect l s h =
    step-IsDivided fuel c d cs rect (allocate_children-IsDivided fuel) (omega arith) s h
