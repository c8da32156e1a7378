-- ===== src/Common/Dict.antt =====
-- A `Map`, or an object used as one: an association list in the order of insertion. Setting a key
-- that is there keeps its place.
use mathlib.Core.Path.{◌≡◌, refl, ap, ◌∙◌}
use mathlib.Core.Option.{Option, none, some}
use mathlib.Core.List.{List, [], ◌∷◌}
use native.Mathlib.Omega.{arith}
use rbmq_demo.Common.Tests.{Key, ◌==◌, ==_self, if◌then◌else◌, Bool-cases}
use rbmq_demo.Common.Lists.{All, All-impl, filter}
use mathlib.Core.Bool.{Bool, true, false}
use mathlib.Core.Logic.{inl, inr}

abbrev pub Assoc {ℓ κ} : Type ℓ → Type κ → Type (ℓ ⊔ κ)
Assoc K V = List (K × V)

abbrev pub is_some {μ} : {A : Type μ} → Option A → Bool
is_some none = false
is_some (some a) = true

module _ {ℓ κ} {K : Type ℓ} {V : Type κ} ⦃e : Key K⦄ where
  -- `m.get(k)`
  unfoldable pub get : Assoc K V → K → Option V
  get [] k = none
  get ((j, v) ∷ m) k = if j == k then some v else get m k

  -- `m.set(k, v)`
  unfoldable pub set : Assoc K V → K → V → Assoc K V
  set [] k v = (k, v) ∷ []
  set ((j, w) ∷ m) k v = if j == k then (j, v) ∷ m else (j, w) ∷ set m k v

  -- `[...m.keys()]`
  abbrev pub keys : Assoc K V → List K
  keys [] = []
  keys ((k, v) ∷ m) = k ∷ keys m

  pub get-set :
      (m : Assoc K V) (k j : K) (v : V) → get (set m k v) j ≡ (if k == j then some v else get m j)
  unfolding get set
  get-set [] k j v = refl
  get-set ((i, w) ∷ m) k j v =
      ground (arith, get-set m k j v, e.same_iff i k, e.same_iff i j, e.same_iff k j)

  pub get-set_self : (m : Assoc K V) (k : K) (v : V) → get (set m k v) k ≡ some v
  get-set_self m k v = rw get-set (rw (==_self k))

  pub keys-All : (m : Assoc K V) → All (λ k. is_some (get m k) ≡ true) (keys m)
  unfolding get
  keys-All [] = tt
  keys-All ((j, v) ∷ m) =
      (rw (==_self j) refl, All-impl (λ k h. ground (arith, h)) (keys m) (keys-All m))

  pub get-filter :
      (p : K → Bool) (m : Assoc K V) (k : K)
      → get (filter (λ entry. p entry.0) m) k ≡ (if p k then get m k else none)
  unfolding get
  get-filter p [] k = ground arith
  get-filter p ((j, v) ∷ m) k = elim (Bool-cases (j == k)) [
    | inl same ↦
        let here : p j ≡ p k = ap p ((e.same_iff j k).0 same) in
        elim (Bool-cases (p k)) [
          | inl kept ↦ rw (here ∙ kept, kept, same) refl
          | inr gone ↦ rw (here ∙ gone, gone) (get-filter p m k ∙ rw gone refl)
        ]
    | inr other ↦ elim (Bool-cases (p j)) [
      | inl kept ↦ rw (kept, other) (get-filter p m k)
      | inr gone ↦ rw (gone, other) (get-filter p m k)
    ]
  ]
