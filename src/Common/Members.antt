-- ===== src/Common/Members.antt =====
-- What stands in a list, and in what filters, sorts and sets make of it.
use mathlib.Core.Path.{◌≡◌, refl, sym, ap, subst, ◌∙◌}
use mathlib.Core.Logic.{◌⊎◌, inl, inr, ◌↔◌}
use mathlib.Core.Bool.{Bool, true}
use mathlib.Core.List.{List, [], ◌∷◌, ◌++◌, map}
use native.Mathlib.Omega.{arith}
use rbmq_demo.Common.Tests.{Key, ◌==◌, Bool-cases}
use rbmq_demo.Common.Lists.{filter}
use rbmq_demo.Common.Codes.{among, add_new, dedup}
use rbmq_demo.Common.Groups.{foldl}
use rbmq_demo.Common.Sort.{insert_by, sort_by}

abbrev pub IsIn : {A : Type 0} → A → List A → Type 0
IsIn x [] = ⊥
IsIn x (y ∷ ys) = (x ≡ y) ⊎ IsIn x ys

module _ {A : Type 0} where
  IsIn-snoc : (x y : A) (ys : List A) → IsIn x (ys ++ y ∷ []) ↔ (IsIn x ys ⊎ (x ≡ y))
  IsIn-snoc x y [] = (
    λ h. elim h [ inl e ↦ inr e | inr e ↦ absurd e ],
    λ h. elim h [ inl e ↦ absurd e | inr e ↦ inl e ],
  )
  IsIn-snoc x y (z ∷ zs) =
      let rest = IsIn-snoc x y zs in
      (
        λ h. elim h [
          | inl e ↦ inl (inl e)
          | inr k ↦ elim (rest.0 k) [ inl m ↦ inl (inr m) | inr e ↦ inr e ]
        ],
        λ h. elim h [
          | inl (inl e) ↦ inl e
          | inl (inr m) ↦ inr (rest.1 (inl m))
          | inr e ↦ inr (rest.1 (inr e))
        ],
      )

  pub IsIn-filter :
      (p : A → Bool) (x : A) (xs : List A) → IsIn x (filter p xs) ↔ (IsIn x xs × (p x ≡ true))
  IsIn-filter p x [] = (λ h. absurd h, λ h. absurd h.0)
  IsIn-filter p x (y ∷ ys) =
      let rest = IsIn-filter p x ys in
      elim (Bool-cases (p y)) [
        | inl e ↦ rw e (
          λ h. elim h [
            | inl same ↦ (inl same, subst (λ z. p z ≡ true) (sym same) e)
            | inr k ↦ (inr (rest.0 k).0, (rest.0 k).1)
          ],
          λ (h, k). elim h [ inl same ↦ inl same | inr m ↦ inr (rest.1 (m, k)) ],
        )
        | inr e ↦ rw e (
          λ h. (inr (rest.0 h).0, (rest.0 h).1),
          λ (h, k). elim h [
            | inl same ↦
                let met : p y ≡ true = subst (λ z. p z ≡ true) same k in ground (arith, e, met)
            | inr m ↦ rest.1 (m, k)
          ],
        )
      ]

  IsIn-insert_by :
      (le : A → A → Bool) (x y : A) (ys : List A) → IsIn x (insert_by le y ys) ↔ IsIn x (y ∷ ys)
  unfolding insert_by
  IsIn-insert_by le x y [] = (λ h. h, λ h. h)
  IsIn-insert_by le x y (z ∷ zs) =
      let rest = IsIn-insert_by le x y zs in
      elim (Bool-cases (le y z)) [
        | inl e ↦ rw e (λ h. h, λ h. h)
        | inr e ↦ rw e (
          λ h. elim h [
            | inl same ↦ inr (inl same)
            | inr k ↦ elim (rest.0 k) [ inl same ↦ inl same | inr m ↦ inr (inr m) ]
          ],
          λ h. elim h [
            | inl same ↦ inr (rest.1 (inl same))
            | inr (inl same) ↦ inl same
            | inr (inr m) ↦ inr (rest.1 (inr m))
          ],
        )
      ]

  pub IsIn-sort_by : (le : A → A → Bool) (x : A) (xs : List A) → IsIn x (sort_by le xs) ↔ IsIn x xs
  unfolding sort_by
  IsIn-sort_by le x [] = (λ h. h, λ h. h)
  IsIn-sort_by le x (y ∷ ys) =
      let first = IsIn-insert_by le x y (sort_by le ys) in
      let rest = IsIn-sort_by le x ys in
      (
        λ h. elim (first.0 h) [ inl same ↦ inl same | inr m ↦ inr (rest.0 m) ],
        λ h. elim h [ inl same ↦ first.1 (inl same) | inr m ↦ first.1 (inr (rest.1 m)) ],
      )

  -- No element stands in the list again.
  abbrev pub AreDistinct : List A → Type 0
  AreDistinct [] = Unit
  AreDistinct (k ∷ ks) = ¬ (IsIn k ks) × AreDistinct ks

  AreDistinct-snoc :
      (k : A) (js : List A) → ¬ (IsIn k js) → AreDistinct js → AreDistinct (js ++ k ∷ [])
  AreDistinct-snoc k [] h d = (λ m. m, tt)
  AreDistinct-snoc k (j ∷ js) h (n, d) = (
    λ m. elim ((IsIn-snoc j k js).0 m) [ inl there ↦ n there | inr same ↦ h (inl (sym same)) ],
    AreDistinct-snoc k js (λ m. h (inr m)) d,
  )

pub IsIn-map :
    {A B : Type 0} (f : A → B) (y : B) (xs : List A)
    → IsIn y (map f xs) ↔ ((x : A) × (IsIn x xs × (f x ≡ y)))
IsIn-map f y [] = (λ h. absurd h, λ h. absurd h.1.0)
IsIn-map f y (x ∷ xs) =
    let rest = IsIn-map f y xs in
    (
      λ h. elim h [
        | inl same ↦ (x, (inl refl, sym same))
        | inr k ↦ let found = rest.0 k in (found.0, (inr found.1.0, found.1.1))
      ],
      λ (z, (h, e)). elim h [
        | inl same ↦ inl (sym e ∙ ap f same)
        | inr m ↦ inr (rest.1 (z, (m, e)))
      ],
    )

module _ {K : Type 0} ⦃e : Key K⦄ where
  among-IsIn : (k : K) (js : List K) → among k js ≡ true → IsIn k js
  among-IsIn k [] h = ground arith
  among-IsIn k (j ∷ js) h = elim (Bool-cases (j == k)) [
    | inl same ↦ inl (sym ((e.same_iff j k).0 same))
    | inr other ↦ inr (among-IsIn k js (ground arith))
  ]

  IsIn-add_new : (k j : K) (js : List K) → IsIn k (add_new js j) ↔ (IsIn k js ⊎ (k ≡ j))
  IsIn-add_new k j js = elim (Bool-cases (among j js)) [
    | inl h ↦ rw h (
      λ m. inl m,
      λ m. elim m [
        | inl there ↦ there
        | inr same ↦ subst (λ i. IsIn i js) (sym same) (among-IsIn j js h)
      ],
    )
    | inr h ↦ rw h (IsIn-snoc k j js)
  ]

  IsIn-foldl-add_new :
      (k : K) (js ks : List K) → IsIn k (foldl add_new js ks) ↔ (IsIn k js ⊎ IsIn k ks)
  IsIn-foldl-add_new k js [] = (λ h. inl h, λ h. elim h [ inl m ↦ m | inr m ↦ absurd m ])
  IsIn-foldl-add_new k js (i ∷ ks) =
      let rest = IsIn-foldl-add_new k (add_new js i) ks in
      let first = IsIn-add_new k i js in
      (
        λ h. elim (rest.0 h) [
          | inl m ↦ elim (first.0 m) [ inl there ↦ inl there | inr same ↦ inr (inl same) ]
          | inr m ↦ inr (inr m)
        ],
        λ h. elim h [
          | inl m ↦ rest.1 (inl (first.1 (inl m)))
          | inr (inl same) ↦ rest.1 (inl (first.1 (inr same)))
          | inr (inr m) ↦ rest.1 (inr m)
        ],
      )

  -- A set holds what it is made of.
  pub IsIn-dedup : (k : K) (ks : List K) → IsIn k (dedup ks) ↔ IsIn k ks
  unfolding dedup
  IsIn-dedup k ks =
      let all = IsIn-foldl-add_new k [] ks in
      (λ h. elim (all.0 h) [ inl m ↦ absurd m | inr m ↦ m ], λ h. all.1 (inr h))

  IsIn-among : (k : K) (js : List K) → IsIn k js → among k js ≡ true
  IsIn-among k [] h = absurd h
  IsIn-among k (j ∷ js) h = elim h [
    | inl same ↦ let met : (j == k) ≡ true = (e.same_iff j k).1 (sym same) in rw met refl
    | inr m ↦ let there = IsIn-among k js m in ground (arith, there)
  ]

  add_new-AreDistinct : (j : K) (js : List K) → AreDistinct js → AreDistinct (add_new js j)
  add_new-AreDistinct j js d = elim (Bool-cases (among j js)) [
    | inl h ↦ rw h d
    | inr h ↦
        rw h
          (AreDistinct-snoc j js (λ m. let there = IsIn-among j js m in ground (arith, h, there)) d)
  ]

  foldl-add_new-AreDistinct : (js ks : List K) → AreDistinct js → AreDistinct (foldl add_new js ks)
  foldl-add_new-AreDistinct js [] d = d
  foldl-add_new-AreDistinct js (k ∷ ks) d =
      foldl-add_new-AreDistinct (add_new js k) ks (add_new-AreDistinct k js d)

  -- A set holds nothing twice.
  pub dedup-AreDistinct : (ks : List K) → AreDistinct (dedup ks)
  unfolding dedup
  dedup-AreDistinct ks = foldl-add_new-AreDistinct [] ks tt
