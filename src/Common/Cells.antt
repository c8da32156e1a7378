-- ===== src/Common/Cells.antt =====
-- An object of objects, `m[k]?.[j]`, and a write to it that makes a row where there is none.
use mathlib.Core.Path.{◌≡◌, refl, ap, ◌∙◌}
use mathlib.Core.Bool.{◌&&◌}
use mathlib.Core.Logic.{inl, inr}
use mathlib.Core.Option.{Option, none, some}
use mathlib.Core.List.{[]}
use rbmq_demo.Common.Tests.{Key, ◌==◌, if◌then◌else◌, Bool-cases}
use rbmq_demo.Common.Dict.{Assoc, get, set, get-set}

abbrev pub or_empty {κ μ} : {J : Type κ} {V : Type μ} → Option (Assoc J V) → Assoc J V
or_empty none = []
or_empty (some row) = row

module _ {ℓ κ μ} {K : Type ℓ} {J : Type κ} {V : Type μ} ⦃e : Key K⦄ ⦃f : Key J⦄ where
  abbrev pub get_cell : Assoc K (Assoc J V) → K → J → Option V
  get_cell m k j = get (or_empty (get m k)) j

  abbrev pub set_cell : Assoc K (Assoc J V) → K → J → V → Assoc K (Assoc J V)
  set_cell m k j v = set m k (set (or_empty (get m k)) j v)

  pub get_cell-set_cell :
      (m : Assoc K (Assoc J V)) (k k' : K) (j j' : J) (v : V)
      → get_cell (set_cell m k j v) k' j'
        ≡ (if k == k' && j == j' then some v else get_cell m k' j')
  get_cell-set_cell m k k' j j' v =
      ap (λ o. get (or_empty o) j') (get-set m k k' (set (or_empty (get m k)) j v))
      ∙ elim (Bool-cases (k == k')) [
        | inl same ↦
            let at : k ≡ k' = (e.same_iff k k').0 same in
            rw same (
              get-set (or_empty (get m k)) j j' v
              ∙ ap (λ i. if j == j' then some v else get_cell m i j') at)
        | inr other ↦ rw other refl
      ]
