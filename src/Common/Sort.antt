-- ===== src/Common/Sort.antt =====
-- `Array.prototype.sort` as the language defines it: stable, by a comparator. `le a b` stands for
-- `compare(a, b) <= 0`.
use mathlib.Core.List.{Perm}
use mathlib.Core.List.Perm
use rbmq_demo.Common.Tests.{if◌then◌else◌, Bool-cases}
use rbmq_demo.Common.Lists.{All, All-impl, length}
use mathlib.Core.Path.{◌≡◌, refl, ap, ◌∙◌}
use mathlib.Core.Logic.{inl, inr}
use mathlib.Core.Bool.{Bool, true, false}
use mathlib.Core.List.{List, [], ◌∷◌}
use native.Mathlib.Omega.{arith}

module _ {ℓ} {A : Type ℓ} (le : A → A → Bool) where
  unfoldable pub insert_by : A → List A → List A
  insert_by x [] = x ∷ []
  insert_by x (y ∷ ys) = if le x y then x ∷ y ∷ ys else y ∷ insert_by x ys

  unfoldable pub sort_by : List A → List A
  unfolding insert_by
  sort_by [] = []
  sort_by (x ∷ xs) = insert_by x (sort_by xs)

  -- Each element is at most every later one.
  abbrev pub IsSorted : List A → Type 0
  IsSorted [] = Unit
  IsSorted (x ∷ xs) = All (λ y. le x y ≡ true) xs × IsSorted xs

  pub insert_by-perm : (x : A) (xs : List A) → Perm (insert_by x xs) (x ∷ xs)
  unfolding insert_by
  insert_by-perm x [] = Perm.refl (x ∷ [])
  insert_by-perm x (y ∷ ys) = elim (Bool-cases (le x y)) [
    | inl h ↦ rw h (Perm.refl (x ∷ y ∷ ys))
    | inr h ↦ rw h (Perm.trans (Perm.cons y (insert_by-perm x ys)) (Perm.swap x y ys))
  ]

  pub sort_by-perm : (xs : List A) → Perm (sort_by xs) xs
  unfolding sort_by
  sort_by-perm [] = Perm.refl []
  sort_by-perm (x ∷ xs) = Perm.trans (insert_by-perm x (sort_by xs)) (Perm.cons x (sort_by-perm xs))

  module _ {κ} (P : A → Type κ) where
    pub insert_by-All : (x : A) (xs : List A) → P x → All P xs → All P (insert_by x xs)
    unfolding insert_by
    insert_by-All x [] p h = (p, tt)
    insert_by-All x (y ∷ ys) p (q, h) = elim (Bool-cases (le x y)) [
      | inl e ↦ rw e (p, (q, h))
      | inr e ↦ rw e (q, insert_by-All x ys p h)
    ]

    pub sort_by-All : (xs : List A) → All P xs → All P (sort_by xs)
    unfolding sort_by
    sort_by-All [] h = h
    sort_by-All (x ∷ xs) (p, h) = insert_by-All x (sort_by xs) p (sort_by-All xs h)

  pub length-insert_by : (x : A) (xs : List A) → length (insert_by x xs) ≡ length (x ∷ xs)
  unfolding insert_by
  length-insert_by x [] = refl
  length-insert_by x (y ∷ ys) = ground (arith, length-insert_by x ys)

  pub length-sort_by : (xs : List A) → length (sort_by xs) ≡ length xs
  unfolding sort_by
  length-sort_by [] = refl
  length-sort_by (x ∷ xs) = omega (arith, length-insert_by x (sort_by xs), length-sort_by xs)

-- A comparator that is a total preorder sorts.
module _ {ℓ} {A : Type ℓ} (le : A → A → Bool)
    (trans : (a b c : A) → le a b ≡ true → le b c ≡ true → le a c ≡ true)
    (total : (a b : A) → le a b ≡ false → le b a ≡ true) where
  All-le_trans :
      (x y : A) (ys : List A)
      → le x y ≡ true
      → All (λ z. le y z ≡ true) ys
      → All (λ z. le x z ≡ true) ys
  All-le_trans x y [] h k = tt
  All-le_trans x y (z ∷ zs) h (k, ks) = (trans x y z h k, All-le_trans x y zs h ks)

  pub insert_by-IsSorted : (x : A) (xs : List A) → IsSorted le xs → IsSorted le (insert_by le x xs)
  unfolding insert_by
  insert_by-IsSorted x [] h = (tt, tt)
  insert_by-IsSorted x (y ∷ ys) (below, s) = elim (Bool-cases (le x y)) [
    | inl e ↦ rw e ((e, All-le_trans x y ys e below), (below, s))
    | inr e ↦
        rw e (
          insert_by-All le (λ z. le y z ≡ true) x ys (total x y e) below,
          insert_by-IsSorted x ys s,
        )
  ]

  pub sort_by-IsSorted : (xs : List A) → IsSorted le (sort_by le xs)
  unfolding sort_by
  sort_by-IsSorted [] = tt
  sort_by-IsSorted (x ∷ xs) = insert_by-IsSorted x (sort_by le xs) (sort_by-IsSorted xs)

-- A comparator that is total on the elements that are sorted is enough.
module _ {ℓ κ} {A : Type ℓ} (le : A → A → Bool) (P : A → Type κ)
    (trans : (a b c : A) → le a b ≡ true → le b c ≡ true → le a c ≡ true)
    (total : (a b : A) → P a → P b → le a b ≡ false → le b a ≡ true) where
  insert_in-IsSorted :
      (x : A) (xs : List A) → P x → All P xs → IsSorted le xs → IsSorted le (insert_by le x xs)
  unfolding insert_by
  insert_in-IsSorted x [] p ps h = (tt, tt)
  insert_in-IsSorted x (y ∷ ys) p (q, qs) (below, s) = elim (Bool-cases (le x y)) [
    | inl e ↦ rw e ((e, All-impl (λ z k. trans x y z e k) ys below), (below, s))
    | inr e ↦ rw e (
      insert_by-All le (λ z. le y z ≡ true) x ys (total x y p q e) below,
      insert_in-IsSorted x ys p qs s,
    )
  ]

  pub sort_in-IsSorted : (xs : List A) → All P xs → IsSorted le (sort_by le xs)
  unfolding sort_by
  sort_in-IsSorted [] ps = tt
  sort_in-IsSorted (x ∷ xs) (p, ps) =
      insert_in-IsSorted x (sort_by le xs) p (sort_by-All le P xs ps) (sort_in-IsSorted xs ps)

-- Sorting leaves a list that is in order as it is.
module _ {ℓ} {A : Type ℓ} (le : A → A → Bool) where
  insert_by_first : (x : A) (xs : List A) → All (λ y. le x y ≡ true) xs → insert_by le x xs ≡ x ∷ xs
  unfolding insert_by
  insert_by_first x [] h = refl
  insert_by_first x (y ∷ ys) (h, hs) = rw h refl

  pub sort_by_sorted : (xs : List A) → IsSorted le xs → sort_by le xs ≡ xs
  unfolding sort_by
  sort_by_sorted [] h = refl
  sort_by_sorted (x ∷ xs) (h, hs) =
      ap (insert_by le x) (sort_by_sorted xs hs) ∙ insert_by_first x xs h
