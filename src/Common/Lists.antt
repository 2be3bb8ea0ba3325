-- ===== src/Common/Lists.antt =====
-- Vectors as lists measured and indexed by native numbers, and their last elements.
use Prim.Native.Nat.{ℕ, zero, suc, ◌+◌, ◌<◌}
use mathlib.Core.Path.{◌≡◌, refl, ap, sym, subst}
use mathlib.Core.Logic.{◌≢◌, ◌⊎◌, inl, inr}
use mathlib.Core.Bool.{Bool, true, false}
use mathlib.Core.List.{List, [], ◌∷◌, ◌++◌, reverse, reverse-cons}
use native.Mathlib.Omega.{arith}

module _ {ℓ} {A : Type ℓ} where
  abbrev pub length : List A → ℕ
  length [] = 0
  length (x ∷ xs) = suc (length xs)

  -- An index out of range, which the sources never use, gives the default.
  abbrev pub get_or : List A → ℕ → A → A
  get_or [] i d = d
  get_or (x ∷ xs) zero d = x
  get_or (x ∷ xs) (suc i) d = get_or xs i d

  abbrev pub drop : ℕ → List A → List A
  drop zero xs = xs
  drop (suc n) [] = []
  drop (suc n) (x ∷ xs) = drop n xs

  abbrev pub take : ℕ → List A → List A
  take zero xs = []
  take (suc n) [] = []
  take (suc n) (x ∷ xs) = x ∷ take n xs

  -- The last element; `back d []` is `d`.
  abbrev pub back : A → List A → A
  back d [] = d
  back d (x ∷ xs) = back x xs

  abbrev pub pop_back : List A → List A
  pop_back [] = []
  pop_back (x ∷ []) = []
  pop_back (x ∷ y ∷ xs) = x ∷ pop_back (y ∷ xs)

  abbrev pub push_back : List A → A → List A
  push_back xs x = xs ++ x ∷ []

  pub length-append : (xs ys : List A) → length (xs ++ ys) ≡ length xs + length ys
  length-append [] ys = omega arith
  length-append (x ∷ xs) ys = omega (arith, length-append xs ys)

  pub length-push_back_lt : (xs : List A) (x : A) → xs ≢ [] → 1 < length (push_back xs x)
  length-push_back_lt [] x n = absurd (n refl)
  length-push_back_lt (y ∷ xs) x n = omega (arith, length-append xs (x ∷ []))

  pub push_back-ne-nil : (xs : List A) (x : A) → push_back xs x ≢ []
  push_back-ne-nil [] x e = cc
  push_back-ne-nil (y ∷ xs) x e = cc

  pub back-append : (d : A) (xs : List A) (y : A) (ys : List A) → back d (xs ++ y ∷ ys) ≡ back y ys
  back-append d [] y ys = refl
  back-append d (x ∷ xs) y ys = back-append x xs y ys

  pub pop_back-append :
      (xs : List A) (y : A) (ys : List A) → pop_back (xs ++ y ∷ ys) ≡ xs ++ pop_back (y ∷ ys)
  pop_back-append [] y ys = refl
  pop_back-append (x ∷ []) y ys = refl
  pop_back-append (x ∷ z ∷ xs) y ys = ap (◌∷◌ x) (pop_back-append (z ∷ xs) y ys)

  pub pop_back-push_back : (xs : List A) (y : A) → pop_back (push_back xs y) ≡ xs
  pop_back-push_back [] y = refl
  pop_back-push_back (x ∷ []) y = refl
  pop_back-push_back (x ∷ z ∷ xs) y = ap (◌∷◌ x) (pop_back-push_back (z ∷ xs) y)

  abbrev pub is_empty : List A → Bool
  is_empty [] = true
  is_empty (x ∷ xs) = false

  pub length-pop_back : (x : A) (xs : List A) → length (pop_back (x ∷ xs)) ≡ length xs
  length-pop_back x [] = refl
  length-pop_back x (y ∷ xs) = ap (λ (n : ℕ). suc n) (length-pop_back y xs)

  -- A list that is not empty is its front and its last element.
  pub pop_back-back :
      (d x : A) (xs : List A) → push_back (pop_back (x ∷ xs)) (back d (x ∷ xs)) ≡ x ∷ xs
  pop_back-back d x [] = refl
  pop_back-back d x (y ∷ xs) = ap (◌∷◌ x) (pop_back-back x y xs)

  pub drop-append : (xs ys : List A) → drop (length xs) (xs ++ ys) ≡ ys
  drop-append [] ys = refl
  drop-append (x ∷ xs) ys = drop-append xs ys

  pub take-append : (xs ys : List A) → take (length xs) (xs ++ ys) ≡ xs
  take-append [] ys = refl
  take-append (x ∷ xs) ys = ap (◌∷◌ x) (take-append xs ys)

-- A predicate of every element.
abbrev pub All {ℓ κ} : {A : Type ℓ} → (A → Type κ) → List A → Type κ
All P [] = Unit
All P (x ∷ xs) = P x × All P xs

pub All-append {ℓ κ} :
    {A : Type ℓ} (P : A → Type κ) (xs ys : List A) → All P xs → All P ys → All P (xs ++ ys)
All-append P [] ys hx hy = hy
All-append P (x ∷ xs) ys hx hy = (hx.0, All-append P xs ys hx.1 hy)

pub All-reverse {ℓ κ} : {A : Type ℓ} (P : A → Type κ) (xs : List A) → All P xs → All P (reverse xs)
All-reverse P [] h = h
All-reverse P (x ∷ xs) h =
    subst (All P) (sym (reverse-cons x xs))
      (All-append P (reverse xs) (x ∷ []) (All-reverse P xs h.1) (h.0, tt))

-- A list is not one of its proper prefixes.
pub append_cons_ne {ℓ} : {A : Type ℓ} (xs : List A) (z : A) (zs : List A) → xs ≢ xs ++ z ∷ zs
append_cons_ne xs z zs e = omega (arith, ap length e, length-append xs (z ∷ zs))

pub List-cases {ℓ} :
    {A : Type ℓ} (xs : List A) → (xs ≡ []) ⊎ ((x : A) × (t : List A) × (xs ≡ x ∷ t))
List-cases [] = inl refl
List-cases (x ∷ t) = inr (x, t, refl)
