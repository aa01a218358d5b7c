-- ===== src/Common/Bits.antt =====
-- `|` of numbers whose bits do not meet is a sum.
use Prim.Native.Nat.{
  ℕ, zero, suc, ◌+◌, ◌*◌, ◌/◌, ◌^◌, ◌≤◌, ◌<◌, max, digits, bit_or, bit_or-bitwise,
}
use mathlib.Core.Path.{◌≡◌, refl, subst}
use native.Mathlib.Omega.{arith}

doubled : (h q : ℕ) → h * (2 * q) ≡ 2 * (h * q)
doubled h q = grind arith

or_digits : (k n a h b : ℕ) → a ≤ n → a ≡ h * 2 ^ k → b < 2 ^ k → digits (λ y. y) max n a b ≡ a + b
or_digits k zero a h b few high low = omega arith
or_digits k (suc n) zero h b few high low = omega arith
or_digits zero (suc n) (suc a) h b few high low = omega (
  arith,
  or_digits zero n (suc a / 2) (suc a / 2) (b / 2) (omega arith) (omega arith) (omega arith),
)
or_digits (suc k) (suc n) (suc a) h b few high low =
    let power : 2 ^ suc k ≡ 2 * 2 ^ k = grind arith in
    let twice : suc a ≡ 2 * (h * 2 ^ k) =
      omega (arith, subst (λ p. suc a ≡ h * p) power high, doubled h (2 ^ k)) in
    let half : suc a / 2 ≡ h * 2 ^ k = omega (arith, twice) in
    omega
      (arith, twice, or_digits k n (suc a / 2) h (b / 2) (omega arith) half (omega (arith, power)))

-- A multiple of 2^k and a number below 2^k.
pub bit_or-sum : (k h b : ℕ) → b < 2 ^ k → bit_or (h * 2 ^ k) b ≡ h * 2 ^ k + b
bit_or-sum k h b low =
    simp bit_or-bitwise (or_digits k (h * 2 ^ k) (h * 2 ^ k) h b (omega arith) refl low)

or_digits_low :
    (k n b h c : ℕ) → b ≤ n → b < 2 ^ k → c ≡ h * 2 ^ k → digits (λ y. y) max n b c ≡ b + c
or_digits_low k zero b h c few low high = omega arith
or_digits_low k (suc n) zero h c few low high = omega arith
or_digits_low zero (suc n) (suc b) h c few low high = absurd (omega arith)
or_digits_low (suc k) (suc n) (suc b) h c few low high =
    let power : 2 ^ suc k ≡ 2 * 2 ^ k = grind arith in
    let twice : c ≡ 2 * (h * 2 ^ k) =
      omega (arith, subst (λ p. c ≡ h * p) power high, doubled h (2 ^ k)) in
    let half : c / 2 ≡ h * 2 ^ k = omega (arith, twice) in
    omega (
      arith,
      twice,
      or_digits_low k n (suc b / 2) h (c / 2) (omega arith) (omega (arith, power)) half,
    )

-- The same with the low number first.
pub bit_or-sum_low : (k h b : ℕ) → b < 2 ^ k → bit_or b (h * 2 ^ k) ≡ b + h * 2 ^ k
bit_or-sum_low k h b low =
    simp bit_or-bitwise (or_digits_low k b b h (h * 2 ^ k) (omega arith) low refl)
