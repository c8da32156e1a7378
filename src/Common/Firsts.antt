-- ===== src/Common/Firsts.antt =====
-- Values pushed one by one, each unless one with its key is there: the first of each key is kept.
use mathlib.Core.Path.{◌≡◌, refl, sym, ap, ◌∙◌}
use mathlib.Core.Bool.{Bool, true, false, not, ◌&&◌, ◌||◌}
use mathlib.Core.Logic.{inl, inr}
use mathlib.Core.List.{List, [], ◌∷◌, ◌++◌, append_assoc, append-nil}
use native.Mathlib.Omega.{arith}
use rbmq_demo.Common.Tests.{Key, ◌==◌, Bool-cases, if◌then◌else◌}
use rbmq_demo.Common.Lists.{All, filter}
use rbmq_demo.Common.Filters.{filter-congr, filter-filter, filter-true}
use rbmq_demo.Common.Groups.{foldl}

always {ℓ κ} : {A : Type ℓ} {P : A → Type κ} (xs : List A) → ((x : A) → P x) → All P xs
always [] f = tt
always (x ∷ xs) f = (f x, always xs f)

module _ {ℓ κ} {A : Type ℓ} {K : Type κ} ⦃e : Key K⦄ (key : A → K) where
  abbrev pub has_key : K → List A → Bool
  has_key k [] = false
  has_key k (x ∷ xs) = key x == k || has_key k xs

  -- `xs.find((item) => item.id === x.id) ? xs : [...xs, x]`
  abbrev pub push_new : List A → A → List A
  push_new xs x = if has_key (key x) xs then xs else xs ++ x ∷ []

  abbrev pub other_key : A → A → Bool
  other_key x y = not (key x == key y)

  -- Each value without the later ones of its key.
  abbrev pub firsts : List A → List A
  firsts [] = []
  firsts (x ∷ xs) = let rest = firsts xs in x ∷ filter (other_key x) rest

  abbrev unseen : List A → A → Bool
  unseen seen x = not (has_key (key x) seen)

  has_key-snoc :
      (k : K) (xs : List A) (x : A) → has_key k (xs ++ x ∷ []) ≡ (has_key k xs || key x == k)
  has_key-snoc k [] x = ground arith
  has_key-snoc k (y ∷ xs) x = ground (arith, has_key-snoc k xs x)

  seen_before :
      (seen : List A) (x : A)
      → has_key (key x) seen ≡ true
      → (y : A) → (other_key x y && unseen seen y) ≡ unseen seen y
  seen_before seen x h y = elim (Bool-cases (key x == key y)) [
    | inl same ↦
        let at : key x ≡ key y = (e.same_iff (key x) (key y)).0 same in
        let there : has_key (key y) seen ≡ true = ap (λ k. has_key k seen) (sym at) ∙ h in
        rw (same, there) refl
    | inr other ↦ rw other refl
  ]

  seen_now :
      (seen : List A) (x y : A) → (other_key x y && unseen seen y) ≡ unseen (seen ++ x ∷ []) y
  seen_now seen x y = rw (has_key-snoc (key y) seen x) (ground arith)

  later :
      (seen : List A) (x : A) (xs : List A) (p : A → Bool)
      → ((y : A) → (other_key x y && unseen seen y) ≡ p y)
      → filter (unseen seen) (filter (other_key x) (firsts xs)) ≡ filter p (firsts xs)
  later seen x xs p f =
      filter-filter (unseen seen) (other_key x) (firsts xs)
      ∙ filter-congr _ _ (firsts xs) (always (firsts xs) f)

  foldl-push_new :
      (seen xs : List A) → foldl push_new seen xs ≡ seen ++ filter (unseen seen) (firsts xs)
  foldl-push_new seen [] = sym (append-nil seen)
  foldl-push_new seen (x ∷ xs) = elim (Bool-cases (has_key (key x) seen)) [
    | inl h ↦ rw h (
        foldl-push_new seen xs
        ∙ ap (λ ys. seen ++ ys) (sym (later seen x xs (unseen seen) (seen_before seen x h))))
    | inr h ↦ rw h (
        foldl-push_new (seen ++ x ∷ []) xs
        ∙ append_assoc seen (x ∷ []) _
        ∙ ap (λ ys. seen ++ x ∷ ys)
            (sym (later seen x xs (unseen (seen ++ x ∷ [])) (seen_now seen x))))
  ]

  pub foldl-firsts : (xs : List A) → foldl push_new [] xs ≡ firsts xs
  foldl-firsts xs =
      foldl-push_new [] xs ∙ filter-true (unseen []) (firsts xs) (always (firsts xs) (λ x. refl))
