-- ===== src/Common/Decimal.antt =====
-- Numbers in decimal, as a template string prints them, and texts put together.
use Prim.Native.Nat.{ℕ, zero, suc, ◌/◌, ◌%◌, ◌<◌}
use Prim.Native.String.{String, ◌++◌ as append_text}
use mathlib.Core.Path.{◌≡◌, refl, ap}
use mathlib.Core.Logic.{inl, inr}
use mathlib.Core.Option.{Option, none, some}
use mathlib.Core.List.{List, [], ◌∷◌}
use native.Mathlib.Omega.{arith}
use rbmq_demo.Common.Tests.{ltb, if◌then◌else◌, Bool-cases}
use rbmq_demo.Common.Lists.{get_elem?}

abbrev pub texts : List String → String
texts [] = ""
texts (t ∷ ts) = append_text t (texts ts)

abbrev digits : List String
digits = "0" ∷ "1" ∷ "2" ∷ "3" ∷ "4" ∷ "5" ∷ "6" ∷ "7" ∷ "8" ∷ "9" ∷ []

abbrev pub digit : ℕ → String
digit n = digit_text (get_elem? digits n)
  where
    digit_text : Option String → String
    digit_text none = ""
    digit_text (some t) = t

-- A number in decimal, as a template string prints it; the fuel is more than the number.
unfoldable pub decimal : ℕ → ℕ → String
decimal zero n = ""
decimal (suc fuel) n =
    let high = decimal fuel (n / 10) in
    if ltb n 10 then digit n else append_text high (digit (n % 10))

unfoldable pub number_text : ℕ → String
unfolding decimal
number_text n = decimal (suc n) n

decimal_enough : (f g n : ℕ) → n < f → n < g → decimal f n ≡ decimal g n
unfolding decimal
decimal_enough zero g n h k = absurd (omega arith)
decimal_enough (suc f) zero n h k = absurd (omega arith)
decimal_enough (suc f) (suc g) n h k = elim (Bool-cases (ltb n 10)) [
  | inl e ↦ rw e refl
  | inr e ↦ rw e (
      ap (λ high. append_text high (digit (n % 10)))
        (decimal_enough f g (n / 10) (ground arith) (ground arith)))
]

-- The fuel of a printed number does not matter once it is more than the number.
pub decimal-number_text : (fuel n : ℕ) → n < fuel → decimal fuel n ≡ number_text n
unfolding number_text
decimal-number_text fuel n h = decimal_enough fuel (suc n) n h (omega arith)
