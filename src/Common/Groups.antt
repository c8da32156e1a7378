-- ===== src/Common/Groups.antt =====
-- Folding a sequence of events into a map of groups, as `m.set(k, (m.get(k) ?? fresh).write(ev))`
-- does one by one.
use rbmq_demo.Common.Tests.{Key, ◌==◌, if◌then◌else◌, Bool-cases}
use rbmq_demo.Common.Lists.{filter, filter-append}
use rbmq_demo.Common.Dict.{Assoc, get, set, get-set, get-filter, is_some}
use mathlib.Core.Path.{◌≡◌, refl, sym, subst, ap, ◌∙◌}
use mathlib.Core.Logic.{inl, inr}
use mathlib.Core.Bool.{Bool, ◌||◌}
use mathlib.Core.Option.{Option, none, some}
use mathlib.Core.List.{List, [], ◌∷◌, ◌++◌, append-nil, append_assoc}

-- The state after all events, one written after the other.
abbrev pub foldl {ℓ κ} : {A : Type ℓ} {E : Type κ} → (A → E → A) → A → List E → A
foldl f a [] = a
foldl f a (e ∷ es) = foldl f (f a e) es

pub foldl-snoc {ℓ κ} :
    {A : Type ℓ} {E : Type κ} (f : A → E → A) (a : A) (es : List E) (e : E)
    → foldl f a (es ++ e ∷ []) ≡ f (foldl f a es) e
foldl-snoc f a [] e = refl
foldl-snoc f a (x ∷ xs) e = foldl-snoc f (f a x) xs e

pub foldl-append {ℓ κ} :
    {A : Type ℓ} {E : Type κ} (f : A → E → A) (a : A) (xs ys : List E)
    → foldl f a (xs ++ ys) ≡ foldl f (foldl f a xs) ys
foldl-append f a [] ys = refl
foldl-append f a (x ∷ xs) ys = foldl-append f (f a x) xs ys

module _ {ℓ κ μ} {K : Type ℓ} {G : Type κ} {E : Type μ} ⦃k : Key K⦄ (key : E → K) (fresh : K → G)
    (write : G → E → G) where
  abbrev pub group_or_fresh : Option G → K → G
  group_or_fresh none j = fresh j
  group_or_fresh (some g) j = g

  -- One event.
  unfoldable pub write_group : Assoc K G → E → Assoc K G
  unfolding get set
  write_group m e = set m (key e) (write (group_or_fresh (get m (key e)) (key e)) e)

  -- The group of some events, none if there are none.
  abbrev pub group_of : K → List E → Option G
  group_of j [] = none
  group_of j (e ∷ es) = some (foldl write (fresh j) (e ∷ es))

  group_of-snoc :
      (j : K) (es : List E) (e : E)
      → group_of j (es ++ e ∷ []) ≡ some (write (group_or_fresh (group_of j es) j) e)
  group_of-snoc j [] e = refl
  group_of-snoc j (x ∷ xs) e = ap some (foldl-snoc write (write (fresh j) x) xs e)

  -- The map holds for each key the group of the events with that key.
  abbrev pub Represents : Assoc K G → List E → Type (ℓ ⊔ κ)
  Represents m es = (j : K) → get m j ≡ group_of j (filter (λ e. key e == j) es)

  pub is_some-write_group :
      (m : Assoc K G) (e : E) (j : K)
      → is_some (get (write_group m e) j) ≡ (key e == j || is_some (get m j))
  unfolding write_group
  is_some-write_group m e j =
      ap is_some (get-set m (key e) j _)
      ∙ elim (Bool-cases (key e == j)) [ inl same ↦ rw same refl | inr other ↦ rw other refl ]

  filter_keys :
      (keep : K → Bool) (es : List E) (j : K)
      → filter (λ e. key e == j) (filter (λ e. keep (key e)) es)
        ≡ (if keep j then filter (λ e. key e == j) es else [])
  filter_keys keep [] j = elim (Bool-cases (keep j)) [
    | inl kept ↦ rw kept refl
    | inr gone ↦ rw gone refl
  ]
  filter_keys keep (e ∷ es) j = elim (Bool-cases (key e == j)) [
    | inl same ↦
        let here : keep (key e) ≡ keep j = ap keep ((k.same_iff (key e) j).0 same) in
        elim (Bool-cases (keep j)) [
          | inl kept ↦
              rw (here ∙ kept, same, kept) (ap (◌∷◌ e) (filter_keys keep es j ∙ rw kept refl))
          | inr gone ↦ rw (here ∙ gone, gone) (filter_keys keep es j ∙ rw gone refl)
        ]
    | inr other ↦ elim (Bool-cases (keep (key e))) [
      | inl kept ↦ rw (kept, other) (filter_keys keep es j)
      | inr gone ↦ rw (gone, other) (filter_keys keep es j)
    ]
  ]

  -- Removing the groups of some keys is removing their events.
  pub filter-Represents :
      (keep : K → Bool) (m : Assoc K G) (es : List E)
      → Represents m es
      → Represents (filter (λ entry. keep entry.0) m) (filter (λ e. keep (key e)) es)
  filter-Represents keep m es h j = get-filter keep m j ∙ elim (Bool-cases (keep j)) [
    | inl kept ↦ rw kept (h j ∙ ap (group_of j) (sym (filter_keys keep es j ∙ rw kept refl)))
    | inr gone ↦ rw (gone, filter_keys keep es j, gone) refl
  ]

  pub write_group-Represents :
      (m : Assoc K G) (es : List E) (e : E)
      → Represents m es
      → Represents (write_group m e) (es ++ e ∷ [])
  unfolding write_group
  write_group-Represents m es e h j = get-set m (key e) j _ ∙ elim (Bool-cases (key e == j)) [
    | inl same ↦
        let at : key e ≡ j = (k.same_iff (key e) j).0 same in
        rw (filter-append, same)
          (ap (λ i. some (write (group_or_fresh (get m i) i) e)) at
            ∙ ap (λ g. some (write (group_or_fresh g j) e)) (h j)
            ∙ sym (group_of-snoc j (filter (λ e. key e == j) es) e))
    | inr other ↦ rw (filter-append, other) (h j ∙ ap (group_of j) (sym (append-nil _)))
  ]

  -- All events in their order, from the empty map.
  pub foldl-Represents : (es : List E) → Represents (foldl write_group [] es) es
  unfolding get
  foldl-Represents es = prefixes es [] [] (λ j. refl)
    where
      prefixes :
          (es done : List E) (m : Assoc K G)
          → Represents m done
          → Represents (foldl write_group m es) (done ++ es)
      prefixes [] done m h = subst (Represents m) (sym (append-nil done)) h
      prefixes (e ∷ es) done m h =
          subst (Represents (foldl write_group (write_group m e) es))
            (append_assoc done (e ∷ []) es)
            (prefixes es (done ++ e ∷ []) (write_group m e) (write_group-Represents m done e h))

  -- The group of a key after more events, from what the map had under it.
  abbrev pub group_from : K → Option G → List E → Option G
  group_from j o [] = o
  group_from j o (e ∷ es) = some (foldl write (group_or_fresh o j) (e ∷ es))

  group_from-some :
      (j : K) (g : G) (es : List E) → group_from j (some g) es ≡ some (foldl write g es)
  group_from-some j g [] = refl
  group_from-some j g (e ∷ es) = refl

  get-write_group :
      (m : Assoc K G) (e : E) (j : K)
      → get (write_group m e) j
        ≡ (if key e == j then some (write (group_or_fresh (get m j) j) e) else get m j)
  unfolding write_group
  get-write_group m e j = get-set m (key e) j _ ∙ elim (Bool-cases (key e == j)) [
    | inl same ↦
        rw same
          (ap (λ i. some (write (group_or_fresh (get m i) i) e)) ((k.same_iff (key e) j).0 same))
    | inr other ↦ rw other refl
  ]

  pub get-foldl :
      (es : List E) (m : Assoc K G) (j : K)
      → get (foldl write_group m es) j ≡ group_from j (get m j) (filter (λ e. key e == j) es)
  get-foldl [] m j = refl
  get-foldl (e ∷ es) m j =
      get-foldl es (write_group m e) j
      ∙ ap (λ o. group_from j o (filter (λ e. key e == j) es)) (get-write_group m e j)
      ∙ elim (Bool-cases (key e == j)) [
        | inl same ↦ rw same (group_from-some j _ (filter (λ e. key e == j) es))
        | inr other ↦ rw other refl
      ]
