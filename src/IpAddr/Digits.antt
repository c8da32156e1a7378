-- ===== src/IpAddr/Digits.antt =====
-- The bits of a list of bytes, the highest first, and the number that a list of bits stands for.
use native.Mathlib.Nat.{pow-suc}
use rbmq_demo.Common.{
  ℕ, zero, suc, ◌+◌, ◌-◌, ◌*◌, ◌/◌, ◌%◌, ◌^◌, ◌<◌, List, [], ◌∷◌, ◌++◌, length, take, drop, ◌≡◌,
  refl, ap, ◌∙◌, arith, All,
}

abbrev pub byte_bits : ℕ → List ℕ
byte_bits x =
    (x / 128 % 2)
    ∷ (x / 64 % 2)
    ∷ (x / 32 % 2)
    ∷ (x / 16 % 2)
    ∷ (x / 8 % 2)
    ∷ (x / 4 % 2)
    ∷ (x / 2 % 2)
    ∷ (x % 2)
    ∷ []

unfoldable pub bits : List ℕ → List ℕ
bits [] = []
bits (x ∷ xs) = byte_bits x ++ bits xs

unfoldable pub number_from : ℕ → List ℕ → ℕ
number_from acc [] = acc
number_from acc (b ∷ bs) = number_from (acc * 2 + b) bs

-- The number with these binary digits.
unfoldable pub number : List ℕ → ℕ
unfolding number_from
number bs = number_from 0 bs

pub number_from-append :
    (acc : ℕ) (bs cs : List ℕ) → number_from acc (bs ++ cs) ≡ number_from (number_from acc bs) cs
unfolding number_from
number_from-append acc [] cs = refl
number_from-append acc (b ∷ bs) cs = number_from-append (acc * 2 + b) bs cs

number_from-cons :
    (acc b : ℕ) (bs : List ℕ) → number_from acc (b ∷ bs) ≡ number_from (acc * 2 + b) bs
unfolding number_from
number_from-cons acc b bs = refl

pub number_from-eq :
    (acc : ℕ) (bs : List ℕ) → number_from acc bs ≡ acc * 2 ^ length bs + number_from 0 bs
unfolding number_from
number_from-eq acc [] = omega arith
number_from-eq acc (b ∷ bs) = grind (
  arith,
  number_from-eq (acc * 2 + b) bs,
  number_from-eq (0 * 2 + b) bs,
  number_from-cons acc b bs,
  number_from-cons 0 b bs,
  pow-suc 2 (length bs),
)

abbrev pub AreBits : List ℕ → Type 0
AreBits = All (λ b. b < 2)

pub number-lt : (bs : List ℕ) → AreBits bs → number bs < 2 ^ length bs
unfolding number
number-lt [] h = omega arith
number-lt (b ∷ bs) (lt, h) = grind (
  arith,
  number_from-cons 0 b bs,
  number_from-eq (0 * 2 + b) bs,
  number-lt bs h,
  pow-suc 2 (length bs),
)

module _ {ℓ} {A : Type ℓ} where
  pub take-append :
      (n : ℕ) (xs ys : List A) → take n (xs ++ ys) ≡ take n xs ++ take (n - length xs) ys
  take-append zero xs ys = let none : 0 ≡ 0 - length xs = omega arith in ap (λ k. take k ys) none
  take-append (suc n) [] ys = let same : suc n ≡ suc n - 0 = omega arith in ap (λ k. take k ys) same
  take-append (suc n) (x ∷ xs) ys =
      let same : n - length xs ≡ suc n - suc (length xs) = omega arith in
      ap (◌∷◌ x) (take-append n xs ys ∙ ap (λ k. take n xs ++ take k ys) same)

  pub drop-append :
      (n : ℕ) (xs ys : List A) → drop n (xs ++ ys) ≡ drop n xs ++ drop (n - length xs) ys
  drop-append zero xs ys =
      let none : 0 ≡ 0 - length xs = omega arith in ap (λ k. xs ++ drop k ys) none
  drop-append (suc n) [] ys = let same : suc n ≡ suc n - 0 = omega arith in ap (λ k. drop k ys) same
  drop-append (suc n) (x ∷ xs) ys =
      let same : n - length xs ≡ suc n - suc (length xs) = omega arith in
      drop-append n xs ys ∙ ap (λ k. drop n xs ++ drop k ys) same
