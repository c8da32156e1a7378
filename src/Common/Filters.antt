-- ===== src/Common/Filters.antt =====
-- Filters by pointwise equal tests, filters of filters, and the largest measure of a list.
use Prim.Native.Nat.{ℕ, ◌≤◌, max}
use mathlib.Core.Path.{◌≡◌, refl, sym, ap, ◌∙◌}
use mathlib.Core.Logic.{inl, inr, ◌≢◌, ◌↔◌}
use mathlib.Core.Bool.{Bool, true, false, ◌&&◌}
use mathlib.Core.List.{List, [], ◌∷◌}
use native.Mathlib.Omega.{arith}
use rbmq_demo.Common.Tests.{nat_beq, Bool-cases, both_true}
use native.Mathlib.Decide.{dec_le}
use rbmq_demo.Common.Lists.{filter, all, All, All-impl}

module _ {ℓ} {A : Type ℓ} where
  pub filter-congr :
      (p q : A → Bool) (xs : List A) → All (λ x. p x ≡ q x) xs → filter p xs ≡ filter q xs
  filter-congr p q [] h = refl
  filter-congr p q (x ∷ xs) (e, h) = rw (e, filter-congr p q xs h) refl

  pub filter-filter :
      (p q : A → Bool) (xs : List A) → filter p (filter q xs) ≡ filter (λ x. q x && p x) xs
  filter-filter p q [] = refl
  filter-filter p q (x ∷ xs) = ground (arith, filter-filter p q xs)

  pub filter-true : (p : A → Bool) (xs : List A) → All (λ x. p x ≡ true) xs → filter p xs ≡ xs
  filter-true p [] h = refl
  filter-true p (x ∷ xs) (e, h) = rw e (ap (◌∷◌ x) (filter-true p xs h))

  pub filter-false : (p : A → Bool) (xs : List A) → All (λ x. p x ≡ false) xs → filter p xs ≡ []
  filter-false p [] h = refl
  filter-false p (x ∷ xs) (e, h) = rw e (filter-false p xs h)

  pub filter-All : (p : A → Bool) (xs : List A) → All (λ x. p x ≡ true) (filter p xs)
  filter-All p [] = tt
  filter-All p (x ∷ xs) = ground (arith, filter-All p xs)

  pub filter_nil : (p : A → Bool) (xs : List A) → filter p xs ≡ [] → All (λ x. p x ≡ false) xs
  filter_nil p [] h = tt
  filter_nil p (x ∷ xs) h = ground (arith, filter_nil p xs)

module _ {ℓ κ μ} {A : Type ℓ} (P : A → Type κ) (Q : A → Type μ) where
  pub All-zip : (xs : List A) → All P xs → All Q xs → All (λ x. P x × Q x) xs
  All-zip [] h k = tt
  All-zip (x ∷ xs) (p, h) (q, k) = ((p, q), All-zip xs h k)

-- What the test adds holds of all that passes it.
module _ {ℓ κ μ} {A : Type ℓ} {P : A → Type κ} {Q : A → Type μ} where
  pub filter-impl :
      (p : A → Bool) (xs : List A)
      → ((x : A) → P x → p x ≡ true → Q x)
      → All P xs
      → All Q (filter p xs)
  filter-impl p [] f h = tt
  filter-impl p (x ∷ xs) f (q, h) = elim (Bool-cases (p x)) [
    | inl e ↦ rw e (f x q e, filter-impl p xs f h)
    | inr e ↦ rw e (filter-impl p xs f h)
  ]

module _ {ℓ} {A : Type ℓ} (measure : A → ℕ) where
  unfoldable pub largest : List A → ℕ
  largest [] = 0
  largest (x ∷ xs) = max (measure x) (largest xs)

  pub largest-le : (n : ℕ) (xs : List A) → All (λ x. measure x ≤ n) xs → largest xs ≤ n
  unfolding largest
  largest-le n [] h = omega arith
  largest-le n (x ∷ xs) (e, h) = omega (arith, largest-le n xs h)

  pub largest-ge :
      (n : ℕ) (x : A) (xs : List A) → All (λ x. n ≤ measure x) (x ∷ xs) → n ≤ largest (x ∷ xs)
  unfolding largest
  largest-ge n x xs (e, h) = omega arith

  pub largest_mono :
      (p q : A → Bool) (xs : List A)
      → All (λ x. p x ≡ true → q x ≡ true) xs
      → largest (filter p xs) ≤ largest (filter q xs)
  unfolding largest
  largest_mono p q [] h = omega arith
  largest_mono p q (x ∷ xs) (e, h) = ground (arith, largest_mono p q xs h)

  pub largest-filter_le :
      (n : ℕ) (p q : A → Bool) (xs : List A)
      → All (λ x. p x ≡ true → q x ≡ false → measure x ≤ n) xs
      → largest (filter p xs) ≤ max (largest (filter q xs)) n
  unfolding largest
  largest-filter_le n p q [] h = omega arith
  largest-filter_le n p q (x ∷ xs) (e, h) = ground (arith, largest-filter_le n p q xs h)

  abbrev of_measure : ℕ → List A → List A
  of_measure n xs = filter (λ x. nat_beq (measure x) n) xs

  -- The elements of the largest measure, in their order.
  abbrev pub all_largest : List A → List A
  all_largest xs = of_measure (largest xs) xs

  largest-cons : (x : A) (xs : List A) → largest (x ∷ xs) ≡ max (measure x) (largest xs)
  unfolding largest
  largest-cons x xs = refl

  of_measure-cons :
      (n : ℕ) (x : A) (xs : List A) → measure x ≢ n → of_measure n (x ∷ xs) ≡ of_measure n xs
  of_measure-cons n x xs h = ground arith

  of_measure_head : (n : ℕ) (x : A) (xs : List A) → measure x ≡ n → of_measure n (x ∷ xs) ≢ []
  of_measure_head n x xs h = ground arith

  pub all_largest_ne : (x : A) (xs : List A) → all_largest (x ∷ xs) ≢ []
  all_largest_ne x [] = of_measure_head _ x [] (unfold largest in omega arith)
  all_largest_ne x (y ∷ ys) = elim (dec_le (largest (y ∷ ys)) (measure x)) [
    | yes h ↦ of_measure_head _ x (y ∷ ys) (omega (arith, largest-cons x (y ∷ ys)))
    | no h ↦
        let same : largest (x ∷ y ∷ ys) ≡ largest (y ∷ ys) =
          omega (arith, largest-cons x (y ∷ ys)) in
        λ e. all_largest_ne y ys (
          ap (λ n. of_measure n (y ∷ ys)) (sym same)
          ∙ sym (of_measure-cons (largest (x ∷ y ∷ ys)) x (y ∷ ys) (omega arith))
          ∙ e)
  ]

  largest_const :
      (n : ℕ) (x : A) (xs : List A) → All (λ x. measure x ≡ n) (x ∷ xs) → largest (x ∷ xs) ≡ n
  unfolding largest
  largest_const n x [] (e, h) = omega arith
  largest_const n x (y ∷ ys) (e, h) = omega (arith, largest_const n y ys h)

  pub all_largest_const : (n : ℕ) (xs : List A) → All (λ x. measure x ≡ n) xs → all_largest xs ≡ xs
  all_largest_const n [] h = refl
  all_largest_const n (x ∷ xs) h =
      ap (λ m. of_measure m (x ∷ xs)) (largest_const n x xs h)
      ∙ filter-true (λ y. nat_beq (measure y) n) (x ∷ xs)
          (All-impl (λ y e. ground arith) (x ∷ xs) h)

-- A test of all elements, by what the test of one means.
pub all_iff {ℓ κ} :
    {A : Type ℓ} {P : A → Type κ} (p : A → Bool)
    → ((x : A) → (p x ≡ true) ↔ P x)
    → (xs : List A) → (all p xs ≡ true) ↔ All P xs
all_iff p f [] = (λ h. tt, λ h. refl)
all_iff p f (x ∷ xs) =
    let rest = all_iff p f xs in
    (
      λ h. let both = both_true _ _ h in ((f x).0 both.0, rest.0 both.1),
      λ (a, as'). rw ((f x).1 a, rest.1 as') refl,
    )
