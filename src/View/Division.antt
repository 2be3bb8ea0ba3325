-- ===== src/View/Division.antt =====
-- Every child gets a rectangle inside its parent's, and no two of them overlap.
use spacedisplay.Common.{
  ℕ, zero, suc, ◌+◌, ◌*◌, ◌/◌, ◌≤◌, ◌≡◌, ◌≢◌, refl, ap, ◌∙◌, ◌⊎◌, inl, inr, Bool, true, false, ◌&&◌,
  ◌||◌, some, List, [], ◌∷◌, ◌++◌, map, arith, All, All-append, Bool-cases, if◌then◌else◌,
}
use spacedisplay.Common.Int.{
  ℤ, pos, negsuc, ◌+ℤ◌, ◌-ℤ◌, ◌≤ℤ◌, ◌==ℤ◌, ltb_ℤ, scale, quotient, int_laws, +ℤ_zero,
}
use native.Mathlib.Nat.{div-le_of_le-mul}
use spacedisplay.View.{Rect, Item}
use spacedisplay.View.Allocate.{
  total_size, set_child_rect, improves, Bins, split_bins, first_part, second_part, middle,
  is_too_small,
}

-- A rectangle that nothing is drawn in.
abbrev pub IsHidden : Item → Type 0
IsHidden c = c.draw_area.w ≡ pos 0

abbrev pub Fits : Rect → Rect → Type 0
Fits r q = (r.x ≤ℤ q.x) × (r.y ≤ℤ q.y) × (q.x +ℤ q.w ≤ℤ r.x +ℤ r.w) × (q.y +ℤ q.h ≤ℤ r.y +ℤ r.h)

abbrev pub IsInside : Rect → Item → Type 0
IsInside r c = IsHidden c ⊎ Fits r c.draw_area

-- One rectangle ends, to the right or below, where the other begins.
abbrev pub Clears : Rect → Rect → Type 0
Clears p q = (p.x +ℤ p.w ≤ℤ q.x) ⊎ (p.y +ℤ p.h ≤ℤ q.y)

abbrev pub AreApart : Item → Item → Type 0
AreApart c d =
    IsHidden c ⊎ (IsHidden d ⊎ (Clears c.draw_area d.draw_area ⊎ Clears d.draw_area c.draw_area))

abbrev pub Pairwise : List Item → Type 0
Pairwise [] = Unit {0}
Pairwise (c ∷ cs) = All (AreApart c) cs × Pairwise cs

abbrev pub IsSized : Item → Type 0
IsSized c = pos 0 ≤ℤ c.size

abbrev pub size_of : Item → ℤ
size_of c = c.size

pub record IsDivided (rect : Rect) (cs out : List Item) : Type 0 where
  pub sizes : map size_of out ≡ map size_of cs
  pub inside : All (IsInside rect) out
  pub apart : Pairwise out

pub total_size-IsSized : (cs : List Item) → All IsSized cs → pos 0 ≤ℤ total_size cs
unfolding total_size
total_size-IsSized [] h = omega arith
total_size-IsSized (c ∷ cs) (s, h) = omega (int_laws, total_size-IsSized cs h)

-- The last child stays in the second bin.
improves_last : (s c : ℤ) → pos 0 ≤ℤ s → pos 0 ≤ℤ c → improves s c c ≡ false
unfolding ◌+ℤ◌ ◌-ℤ◌
improves_last s c hs hc = ground arith

pub record IsSplit (sum1 sum2 : ℤ) (cs : List Item) (b : Bins) : Type 0 where
  pub joined : b.bin1 ++ b.bin2 ≡ cs
  pub some_left : b.bin2 ≢ []
  pub sized1 : pos 0 ≤ℤ b.sum1
  pub sized2 : pos 0 ≤ℤ b.sum2

add_sub : (a b : ℤ) → a +ℤ b -ℤ a ≡ b
add_sub a b = omega int_laws

sum-sized : (a b : ℤ) → pos 0 ≤ℤ a → pos 0 ≤ℤ b → pos 0 ≤ℤ a +ℤ b
sum-sized a b h k = omega int_laws

pub split_bins-IsSplit :
    (sum1 sum2 : ℤ) (c : Item) (cs : List Item)
    → sum2 ≡ total_size (c ∷ cs)
    → pos 0 ≤ℤ sum1
    → All IsSized (c ∷ cs)
    → IsSplit sum1 sum2 (c ∷ cs) (split_bins sum1 sum2 (c ∷ cs))
unfolding split_bins total_size
split_bins-IsSplit sum1 sum2 c [] e h1 (hc, h) =
    let one : sum2 ≡ c.size = e ∙ +ℤ_zero c.size in
    let stop : improves sum1 sum2 c.size ≡ false = rw one (improves_last sum1 c.size h1 hc) in
    rw (split_bins, stop)
      (record { joined = refl; some_left = λ n. cc; sized1 = h1; sized2 = rw one hc })
split_bins-IsSplit sum1 sum2 c (d ∷ cs) e h1 h = elim (Bool-cases (improves sum1 sum2 c.size)) [
  | inr stop ↦
      let left : pos 0 ≤ℤ sum2 = rw e (total_size-IsSized (c ∷ d ∷ cs) h) in
      rw (split_bins, stop)
        (record { joined = refl; some_left = λ n. cc; sized1 = h1; sized2 = left })
  | inl go ↦
      let rest =
        split_bins-IsSplit (sum1 +ℤ c.size) (sum2 -ℤ c.size) d cs
          (ap (λ (z : ℤ). z -ℤ c.size) e ∙ add_sub c.size (total_size (d ∷ cs)))
          (sum-sized sum1 c.size h1 h.0) h.1 in
      rw go (record {
        joined = ap (◌∷◌ c) rest.joined;
        some_left = rest.some_left;
        sized1 = rest.sized1;
        sized2 = rest.sized2;
      })
]

part-le : (n a b : ℕ) → (a * n) / (a + b) ≤ n
part-le n a b = div-le_of_le-mul (a + b) (grind arith)

-- A side of `n` pixels is divided as the sums are, or in half when both are zero.
middle_side :
    (n a b : ℕ)
    → let none_known = (pos a ==ℤ pos 0) && (pos b ==ℤ pos 0) in
      let s1 : ℤ = if none_known then pos 1 else pos a in
      let s2 : ℤ = if none_known then pos 1 else pos b in
      (m : ℕ) × (quotient (scale s1 n) (s1 +ℤ s2) ≡ some (pos m)) × (m ≤ n)
unfolding quotient ◌+ℤ◌
middle_side n zero zero = ((1 * n) / 2, refl, part-le n 1 1)
middle_side n zero (suc b) = (0, ground arith, omega arith)
middle_side n (suc a) b = (((suc a) * n) / (suc a + b), ground arith, part-le n (suc a) b)

side-pos : (z : ℤ) → pos 1 ≤ℤ z → (n : ℕ) × (z ≡ pos n)
side-pos (pos n) h = (n, refl)
side-pos (negsuc n) h = absurd (omega arith)

big_enough : (rect : Rect) → is_too_small rect ≡ false → (pos 1 ≤ℤ rect.w) × (pos 1 ≤ℤ rect.h)
big_enough rect e = ground arith

pub middle_lem :
    (div_x : Bool) (rect : Rect) (sum1 sum2 : ℤ)
    → pos 0 ≤ℤ sum1
    → pos 0 ≤ℤ sum2
    → is_too_small rect ≡ false
    → (m : ℕ) × (middle div_x rect sum1 sum2 ≡ some (pos m))
      × (pos m ≤ℤ (if div_x then rect.w else rect.h))
unfolding middle
middle_lem div_x rect (negsuc a) sum2 h1 h2 big = absurd (omega arith)
middle_lem div_x rect (pos a) (negsuc b) h1 h2 big = absurd (omega arith)
middle_lem true rect (pos a) (pos b) h1 h2 big =
    let (n, e) = side-pos rect.w (big_enough rect big).0 in
    let (m, f, l) = middle_side n a b in (m, rw e f, rw e (omega (arith, l)))
middle_lem false rect (pos a) (pos b) h1 h2 big =
    let (n, e) = side-pos rect.h (big_enough rect big).1 in
    let (m, f, l) = middle_side n a b in (m, rw e f, rw e (omega (arith, l)))

Fits-refl : (r : Rect) → Fits r r
Fits-refl r = (omega arith, omega arith, omega arith, omega arith)

Fits-trans : (r q p : Rect) → Fits r q → Fits q p → Fits r p
Fits-trans r q p (a, b, c, d) (a', b', c', d') =
    (omega arith, omega arith, omega arith, omega arith)

-- Parts of a rectangle, at `m` pixels.
pub Fits-first_part :
    (div_x : Bool) (m : ℕ) (rect : Rect)
    → pos m ≤ℤ (if div_x then rect.w else rect.h)
    → Fits rect (first_part div_x (pos m) rect)
Fits-first_part true m rect h = (omega arith, omega arith, omega int_laws, omega arith)
Fits-first_part false m rect h = (omega arith, omega arith, omega arith, omega int_laws)

pub Fits-second_part :
    (div_x : Bool) (m : ℕ) (rect : Rect) → Fits rect (second_part div_x (pos m) rect)
Fits-second_part true m rect = (omega int_laws, omega arith, omega int_laws, omega arith)
Fits-second_part false m rect = (omega arith, omega int_laws, omega arith, omega int_laws)

pub IsInside-Fits : (r q : Rect) (c : Item) → Fits r q → IsInside q c → IsInside r c
IsInside-Fits r q c f (inl h) = inl h
IsInside-Fits r q c f (inr g) = inr (Fits-trans r q c.draw_area f g)

pub parts-AreApart :
    (div_x : Bool) (m : ℕ) (rect : Rect) (c d : Item)
    → IsInside (first_part div_x (pos m) rect) c
    → IsInside (second_part div_x (pos m) rect) d
    → AreApart c d
parts-AreApart div_x m rect c d (inl h) k = inl h
parts-AreApart div_x m rect c d (inr g) (inl k) = inr (inl k)
parts-AreApart true m rect c d (inr (a, b, x, y)) (inr (a', b', x', y')) =
    inr (inr (inl (inl (omega int_laws))))
parts-AreApart false m rect c d (inr (a, b, x, y)) (inr (a', b', x', y')) =
    inr (inr (inl (inr (omega int_laws))))

pub set_child_rect-IsInside : (rect : Rect) (c : Item) → IsInside rect (set_child_rect rect c)
unfolding set_child_rect
set_child_rect-IsInside rect c = elim (Bool-cases (ltb_ℤ rect.w (pos 1) || ltb_ℤ rect.h (pos 1))) [
  | inl e ↦ rw (set_child_rect, e) (inl refl)
  | inr e ↦ rw (set_child_rect, e) (inr (Fits-refl rect))
]

pub Pairwise-append :
    (xs ys : List Item)
    → Pairwise xs
    → Pairwise ys
    → All (λ c. All (AreApart c) ys) xs
    → Pairwise (xs ++ ys)
Pairwise-append [] ys p q h = q
Pairwise-append (c ∷ xs) ys (a, p) q (k, h) =
    (All-append (AreApart c) xs ys a k, Pairwise-append xs ys p q h)

pub All-map_lem {ℓ κ} :
    {A : Type ℓ} (P Q : A → Type κ) → ((a : A) → P a → Q a) → (xs : List A) → All P xs → All Q xs
All-map_lem P Q f [] h = h
All-map_lem P Q f (x ∷ xs) (p, h) = (f x p, All-map_lem P Q f xs h)
