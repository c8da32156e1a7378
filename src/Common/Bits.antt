-- ===== src/Common/Bits.antt =====
-- Facts about the bit operations.
use Prim.Native.Nat.{
  ℕ, zero, suc, ◌+◌, ◌*◌, ◌/◌, ◌%◌, ◌^◌, ◌≤◌, ◌<◌, max, bit_or, digits, bit_or-bitwise,
}
use mathlib.Core.Path.{◌≡◌, refl, ap, ◌∙◌}
use mathlib.Core.Bool.{Bool, true, ◌&&◌}
use native.Mathlib.Nat.{pow-suc}
use native.Mathlib.Omega.{arith}

-- A test of every number below a bound, by evaluation.
unfoldable pub holds_below : ℕ → (ℕ → Bool) → Bool
holds_below zero test = true
holds_below (suc k) test = holds_below k test && test k

pub holds_below-lt : (k n : ℕ) (test : ℕ → Bool) → n < k → holds_below k test ≡ true → test n ≡ true
unfolding holds_below
holds_below-lt zero n test lt h = elim lt [ ]
holds_below-lt (suc k) n test lt h = ground (arith, holds_below-lt k n test)

abbrev or_digits : ℕ → ℕ → ℕ → ℕ
or_digits n a b = digits (λ b. b) max n a b

or_digits_fuel : (n m a b : ℕ) → a ≤ n → a ≤ m → or_digits n a b ≡ or_digits m a b
or_digits_fuel zero zero a b p q = refl
or_digits_fuel zero (suc m) zero b p q = refl
or_digits_fuel zero (suc m) (suc a) b p q = absurd (omega arith)
or_digits_fuel (suc n) zero zero b p q = refl
or_digits_fuel (suc n) zero (suc a) b p q = absurd (omega arith)
or_digits_fuel (suc n) (suc m) zero b p q = refl
or_digits_fuel (suc n) (suc m) (suc a) b p q =
    omega (arith, or_digits_fuel n m (suc a / 2) (b / 2) (omega arith) (omega arith))

zero-bit_or : (b : ℕ) → bit_or 0 b ≡ b
zero-bit_or b = bit_or-bitwise 0 b

bit_or_step : (a b : ℕ) → bit_or a b ≡ bit_or (a / 2) (b / 2) * 2 + max (a % 2) (b % 2)
bit_or_step zero b = omega (arith, zero-bit_or b, zero-bit_or (b / 2))
bit_or_step (suc a) b = omega (
  arith,
  bit_or-bitwise (suc a) b,
  bit_or-bitwise (suc a / 2) (b / 2),
  or_digits_fuel a (suc a / 2) (suc a / 2) (b / 2) (omega arith) (omega arith),
)

bit_or-zero_fuel : (n a : ℕ) → a ≤ n → bit_or a 0 ≡ a
bit_or-zero_fuel n zero h = refl
bit_or-zero_fuel zero (suc a) h = absurd (omega arith)
bit_or-zero_fuel (suc n) (suc a) h =
    omega (arith, bit_or_step (suc a) 0, bit_or-zero_fuel n (suc a / 2) (omega arith))

-- `|` of a shifted number and what fits into the freed places is their sum.
pub bit_or_shifted : (r a b : ℕ) → b < 2 ^ r → bit_or (a * 2 ^ r) b ≡ a * 2 ^ r + b
bit_or_shifted zero a b h =
    let none : b ≡ 0 = omega arith in
    rw none (omega (arith, bit_or-zero_fuel (a * 1) (a * 1) (omega arith)))
bit_or_shifted (suc r) a b h =
    let x = a * 2 ^ r in
    let shifted : a * 2 ^ suc r ≡ x * 2 = ap (λ p. a * p) (pow-suc 2 r) ∙ omega arith in
    let half : x * 2 / 2 ≡ x = omega arith in
    let low = bit_or_shifted r a (b / 2) (omega (arith, pow-suc 2 r)) in
    rw shifted (bit_or_step (x * 2) b ∙ rw (half, low) (omega arith))
