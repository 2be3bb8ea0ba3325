-- ===== src/Common/Masks.antt =====
-- The binary digits of a conjunction and a disjunction.
use Prim.Native.Nat.{
  ℕ, zero, suc, ◌+◌, ◌*◌, ◌/◌, ◌%◌, ◌≤◌, min, max, bit_and, bit_and-bitwise, bit_or, bit_or-bitwise,
  digits,
}
use mathlib.Core.Path.{◌≡◌, refl, sym, ap, ◌∙◌}
use mathlib.Core.Bool.{Bool, false, not, ◌&&◌, ◌||◌}
use native.Mathlib.Omega.{arith}
use spacedisplay.Common.Tests.{◌==◌}

-- As many rounds as the first number are enough.
digits_rounds :
    (z : ℕ → ℕ) (f : ℕ → ℕ → ℕ) (n m a b : ℕ) → a ≤ n → a ≤ m → digits z f n a b ≡ digits z f m a b
digits_rounds z f zero zero a b l k = refl
digits_rounds z f zero (suc m) zero b l k = refl
digits_rounds z f zero (suc m) (suc a) b l k = absurd (omega arith)
digits_rounds z f (suc n) zero zero b l k = refl
digits_rounds z f (suc n) zero (suc a) b l k = absurd (omega arith)
digits_rounds z f (suc n) (suc m) zero b l k = refl
digits_rounds z f (suc n) (suc m) (suc a) b l k =
    ap (λ (d : ℕ). d * 2 + f (suc a % 2) (b % 2))
      (digits_rounds z f n m (suc a / 2) (b / 2) (omega arith) (omega arith))

bit_and-suc :
    (a b : ℕ) → bit_and (suc a) b ≡ bit_and (suc a / 2) (b / 2) * 2 + min (suc a % 2) (b % 2)
bit_and-suc a b =
    (λ i. bit_and-bitwise (suc a) b i)
    ∙ ap (λ (d : ℕ). d * 2 + min (suc a % 2) (b % 2))
        (digits_rounds (λ b. zero) min a (suc a / 2) (suc a / 2) (b / 2) (omega arith) (omega arith)
          ∙ sym (λ i. bit_and-bitwise (suc a / 2) (b / 2) i))

bit_or-suc : (a b : ℕ) → bit_or (suc a) b ≡ bit_or (suc a / 2) (b / 2) * 2 + max (suc a % 2) (b % 2)
bit_or-suc a b =
    (λ i. bit_or-bitwise (suc a) b i)
    ∙ ap (λ (d : ℕ). d * 2 + max (suc a % 2) (b % 2))
        (digits_rounds (λ b. b) max a (suc a / 2) (suc a / 2) (b / 2) (omega arith) (omega arith)
          ∙ sym (λ i. bit_or-bitwise (suc a / 2) (b / 2) i))

zero-bit_and : (b : ℕ) → bit_and 0 b ≡ 0
zero-bit_and b = λ i. bit_and-bitwise 0 b i

zero-bit_or : (b : ℕ) → bit_or 0 b ≡ b
zero-bit_or b = λ i. bit_or-bitwise 0 b i

-- Whether a digit is set, the lowest one first.
unfoldable pub flag : ℕ → ℕ → Bool
flag zero m = m % 2 == 1
flag (suc k) m = flag k (m / 2)

flag-zero : (k : ℕ) → flag k 0 ≡ false
unfolding flag
flag-zero zero = refl
flag-zero (suc k) = flag-zero k

low_and : (a b : ℕ) → (min (a % 2) (b % 2) == 1) ≡ ((a % 2 == 1) && (b % 2 == 1))
low_and a b = ground arith

low_or : (a b : ℕ) → (max (a % 2) (b % 2) == 1) ≡ ((a % 2 == 1) || (b % 2 == 1))
low_or a b = ground arith

pub flag-bit_and : (k a b : ℕ) → flag k (bit_and a b) ≡ (flag k a && flag k b)
unfolding flag
flag-bit_and zero zero b = rw (zero-bit_and b) refl
flag-bit_and zero (suc a) b =
    let low : bit_and (suc a) b % 2 ≡ min (suc a % 2) (b % 2) = omega (arith, bit_and-suc a b) in
    rw low (low_and (suc a) b)
flag-bit_and (suc k) zero b = rw (zero-bit_and b, flag-zero k) refl
flag-bit_and (suc k) (suc a) b =
    let half : bit_and (suc a) b / 2 ≡ bit_and (suc a / 2) (b / 2) =
      omega (arith, bit_and-suc a b) in
    rw half (flag-bit_and k (suc a / 2) (b / 2))

pub flag-bit_or : (k a b : ℕ) → flag k (bit_or a b) ≡ (flag k a || flag k b)
unfolding flag
flag-bit_or zero zero b = rw (zero-bit_or b) refl
flag-bit_or zero (suc a) b =
    let low : bit_or (suc a) b % 2 ≡ max (suc a % 2) (b % 2) = omega (arith, bit_or-suc a b) in
    rw low (low_or (suc a) b)
flag-bit_or (suc k) zero b = rw (zero-bit_or b, flag-zero k) refl
flag-bit_or (suc k) (suc a) b =
    let half : bit_or (suc a) b / 2 ≡ bit_or (suc a / 2) (b / 2) = omega (arith, bit_or-suc a b) in
    rw half (flag-bit_or k (suc a / 2) (b / 2))

-- 2 ^ k.
unfoldable pub power : ℕ → ℕ
power zero = 1
power (suc k) = power k * 2

bit_and-zero : (n a : ℕ) → a ≤ n → bit_and a 0 ≡ 0
bit_and-zero n zero h = zero-bit_and 0
bit_and-zero zero (suc a) h = absurd (omega arith)
bit_and-zero (suc n) (suc a) h =
    omega (arith, bit_and-suc a 0, bit_and-zero n (suc a / 2) (omega arith))

-- A conjunction with one digit is not zero exactly when that digit is set.
pub bit_and-power : (k a : ℕ) → not (bit_and a (power k) == 0) ≡ flag k a
unfolding flag power
bit_and-power zero zero = refl
bit_and-power zero (suc a) =
    let low : bit_and (suc a) 1 ≡ suc a % 2 =
      omega (arith, bit_and-suc a 1, bit_and-zero (suc a / 2) (suc a / 2) (omega arith)) in
    rw low (ground arith)
bit_and-power (suc k) zero = rw (zero-bit_and (power k * 2), flag-zero k) refl
bit_and-power (suc k) (suc a) =
    let half : power k * 2 / 2 ≡ power k = omega arith in
    let high : bit_and (suc a) (power k * 2) ≡ bit_and (suc a / 2) (power k) * 2 =
      rw (bit_and-suc a (power k * 2), half) (omega arith) in
    let same : (bit_and (suc a / 2) (power k) * 2 == 0) ≡ (bit_and (suc a / 2) (power k) == 0) =
      ground arith in
    rw (high, same) (bit_and-power k (suc a / 2))
