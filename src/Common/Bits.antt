-- ===== src/Common/Bits.antt =====
-- Exclusive or of the binary digits.
use Prim.Native.Nat.{
  ℕ, zero, suc, ◌+◌, ◌*◌, ◌/◌, ◌%◌, ◌≤◌, ◌<◌, bit_xor, bit_xor-bitwise, digits, differ,
}
use mathlib.Core.Path.{◌≡◌, refl, sym, ap, ◌∙◌}
use native.Mathlib.Omega.{arith}

abbrev xor_digits : ℕ → ℕ → ℕ → ℕ
xor_digits n a b = digits (λ d. d) differ n a b

xor_digits-count : (n m a b : ℕ) → a ≤ n → a ≤ m → xor_digits n a b ≡ xor_digits m a b
xor_digits-count zero zero a b l k = refl
xor_digits-count zero (suc m) zero b l k = refl
xor_digits-count zero (suc m) (suc a) b l k = absurd (omega arith)
xor_digits-count (suc n) zero zero b l k = refl
xor_digits-count (suc n) zero (suc a) b l k = absurd (omega arith)
xor_digits-count (suc n) (suc m) zero b l k = refl
xor_digits-count (suc n) (suc m) (suc a) b l k =
    rw (xor_digits-count n m (suc a / 2) (b / 2) (omega arith) (omega arith)) refl

bit_xor-zero : (b : ℕ) → bit_xor 0 b ≡ b
bit_xor-zero b = λ i. bit_xor-bitwise 0 b i

-- The digits but the lowest, and the lowest one.
bit_xor-step : (a b : ℕ) → bit_xor a b ≡ bit_xor (a / 2) (b / 2) * 2 + differ (a % 2) (b % 2)
bit_xor-step zero b = omega (arith, bit_xor-zero b, bit_xor-zero (b / 2))
bit_xor-step (suc a) b =
    (λ i. bit_xor-bitwise (suc a) b i)
    ∙ ap (λ (z : ℕ). z * 2 + differ (suc a % 2) (b % 2))
        (xor_digits-count a (suc a / 2) (suc a / 2) (b / 2) (omega arith) (omega arith)
          ∙ sym (λ i. bit_xor-bitwise (suc a / 2) (b / 2) i))

differ_twice : (a b : ℕ) → a < 2 → b < 2 → differ (differ a b) b ≡ a
differ_twice zero zero l k = refl
differ_twice zero (suc zero) l k = refl
differ_twice (suc zero) zero l k = refl
differ_twice (suc zero) (suc zero) l k = refl
differ_twice (suc (suc a)) b l k = absurd (omega arith)
differ_twice zero (suc (suc b)) l k = absurd (omega arith)
differ_twice (suc zero) (suc (suc b)) l k = absurd (omega arith)

differ_lt : (a b : ℕ) → a < 2 → b < 2 → differ a b < 2
differ_lt zero b l k = k
differ_lt (suc zero) zero l k = omega arith
differ_lt (suc zero) (suc b) l k = omega arith
differ_lt (suc (suc a)) b l k = absurd (omega arith)

twice_step :
    (a b : ℕ) → bit_xor (bit_xor (a / 2) (b / 2)) (b / 2) ≡ a / 2 → bit_xor (bit_xor a b) b ≡ a
twice_step a b ih =
    let low = differ_lt (a % 2) (b % 2) (omega arith) (omega arith) in
    let y = bit_xor a b in
    let half : y / 2 ≡ bit_xor (a / 2) (b / 2) = omega (arith, bit_xor-step a b, low) in
    let rest : y % 2 ≡ differ (a % 2) (b % 2) = omega (arith, bit_xor-step a b, low) in
    bit_xor-step y b
    ∙ rw (half, rest, ih, differ_twice (a % 2) (b % 2) (omega arith) (omega arith)) (omega arith)

bit_xor-twice_upto : (n a b : ℕ) → a + b ≤ n → bit_xor (bit_xor a b) b ≡ a
bit_xor-twice_upto n zero zero l = refl
bit_xor-twice_upto zero (suc a) b l = absurd (omega arith)
bit_xor-twice_upto zero zero (suc b) l = absurd (omega arith)
bit_xor-twice_upto (suc n) (suc a) b l =
    twice_step (suc a) b (bit_xor-twice_upto n (suc a / 2) (b / 2) (omega arith))
bit_xor-twice_upto (suc n) zero (suc b) l =
    twice_step zero (suc b) (bit_xor-twice_upto n 0 (suc b / 2) (omega arith))

pub bit_xor-twice : (a b : ℕ) → bit_xor (bit_xor a b) b ≡ a
bit_xor-twice a b = bit_xor-twice_upto (a + b) a b (omega arith)
