-- ===== src/MapShapes/Cuts.antt =====
-- web/components/worldmap.tsx: where a path is cut, by the halves of the map.
use rbmq_demo.Common.{
  ℕ, zero, suc, ◌≡◌, ◌≢◌, ◌⊎◌, ◌↔◌, refl, sym, Option, none, some, List, [], ◌∷◌, ◌++◌, true,
  nat_beq, ltb, length, take, drop, take-append-drop, last?, filter, Bool-cases, inl, inr, arith,
}
use rbmq_demo.Common.Codes.{index_after}
use rbmq_demo.Common.Integers.{ℤ, pos, negsuc}
use rbmq_demo.MapShapes.{
  Sign, below, at_zero, above, sine, opposite, mark_vector3, cut_at, cut_paths,
}

-- The western half of the map, with the longitude 0 and without its edge at -180 degrees.
abbrev pub IsWest : ℕ → ℤ → Type 0
IsWest half (pos zero) = Unit
IsWest half (pos (suc n)) = ⊥
IsWest half (negsuc n) = suc n ≢ half

abbrev pub IsEast : ℤ → Type 0
IsEast (pos zero) = ⊥
IsEast (pos (suc n)) = Unit
IsEast (negsuc n) = ⊥

sine-IsWest : (half : ℕ) (x : ℤ) → (sine half x ≡ above) ↔ IsWest half x
sine-IsWest half (pos zero) = (λ h. tt, λ h. refl)
sine-IsWest half (pos (suc n)) = (λ h. ground (arith, h), λ h. absurd h)
sine-IsWest half (negsuc n) = elim (Bool-cases (nat_beq (suc n) half)) [
  | inl e ↦ rw e (λ h. ground (arith, h), λ h. absurd (h (ground (arith, e))))
  | inr e ↦ rw e (λ h k. ground (arith, e, k), λ h. refl)
]

sine-IsEast : (half : ℕ) (x : ℤ) → (sine half x ≡ below) ↔ IsEast x
sine-IsEast half (pos zero) = (λ h. ground (arith, h), λ h. absurd h)
sine-IsEast half (pos (suc n)) = (λ h. tt, λ h. refl)
sine-IsEast half (negsuc n) = elim (Bool-cases (nat_beq (suc n) half)) [
  | inl e ↦ rw e (λ h. ground (arith, h), λ h. absurd h)
  | inr e ↦ rw e (λ h. ground (arith, h), λ h. absurd h)
]

opposite_iff :
    (s t : Sign)
    → (opposite s t ≡ true) ↔ (((s ≡ above) × (t ≡ below)) ⊎ ((s ≡ below) × (t ≡ above)))
opposite_iff below below = (λ h. ground (arith, h), λ h. ground (arith, h))
opposite_iff below at_zero = (λ h. ground (arith, h), λ h. ground (arith, h))
opposite_iff below above = (λ h. inr (refl, refl), λ h. refl)
opposite_iff at_zero t = (λ h. ground (arith, h), λ h. ground (arith, h))
opposite_iff above below = (λ h. inl (refl, refl), λ h. refl)
opposite_iff above at_zero = (λ h. ground (arith, h), λ h. ground (arith, h))
opposite_iff above above = (λ h. ground (arith, h), λ h. ground (arith, h))

module _ {P : Type 0} (half : ℕ) (lon : P → ℤ) where
  -- One point lies in the western half of the map and one in the eastern.
  abbrev pub Passes : P → P → Type 0
  Passes p q = (IsWest half (lon p) × IsEast (lon q)) ⊎ (IsEast (lon p) × IsWest half (lon q))

  -- No step of the path passes from half to half.
  abbrev pub StaysIn : List P → Type 0
  StaysIn [] = Unit
  StaysIn (p ∷ []) = Unit
  StaysIn (p ∷ q ∷ ps) = ¬ (Passes p q) × StaysIn (q ∷ ps)

  abbrev pub PassesTo : Option P → List P → Type 0
  PassesTo none ps = ⊥
  PassesTo (some p) [] = ⊥
  PassesTo (some p) (q ∷ ps) = Passes p q

  opposite-Passes :
      (p q : P) → (opposite (sine half (lon p)) (sine half (lon q)) ≡ true) ↔ Passes p q
  opposite-Passes p q =
      let signs = opposite_iff (sine half (lon p)) (sine half (lon q)) in
      (
        λ h. elim (signs.0 h) [
          | inl k ↦ inl ((sine-IsWest half (lon p)).0 k.0, (sine-IsEast half (lon q)).0 k.1)
          | inr k ↦ inr ((sine-IsEast half (lon p)).0 k.0, (sine-IsWest half (lon q)).0 k.1)
        ],
        λ h. elim h [
          | inl k ↦
              signs.1 (inl ((sine-IsWest half (lon p)).1 k.0, (sine-IsEast half (lon q)).1 k.1))
          | inr k ↦
              signs.1 (inr ((sine-IsEast half (lon p)).1 k.0, (sine-IsWest half (lon q)).1 k.1))
        ],
      )

  abbrev Marks : List P → Option ℕ → Type 0
  Marks ps none = StaysIn ps
  Marks ps (some i) =
      StaysIn (take (suc i) ps) × PassesTo (last? (take (suc i) ps)) (drop (suc i) ps)

  index_after-Marks :
      (p q : P) (ps : List P) (o : Option ℕ)
      → ¬ (Passes p q)
      → Marks (q ∷ ps) o
      → Marks (p ∷ q ∷ ps) (index_after o)
  index_after-Marks p q ps none e h = (e, h)
  index_after-Marks p q ps (some i) e h = ((e, h.0), h.1)

  mark_vector3-Marks : (ps : List P) → Marks ps (mark_vector3 half lon ps)
  unfolding mark_vector3
  mark_vector3-Marks [] = tt
  mark_vector3-Marks (p ∷ []) = tt
  mark_vector3-Marks (p ∷ q ∷ ps) =
      let later = mark_vector3-Marks (q ∷ ps) in
      elim (Bool-cases (opposite (sine half (lon p)) (sine half (lon q)))) [
        | inl e ↦ rw e (tt, (opposite-Passes p q).0 e)
        | inr e ↦
            let stays : ¬ (Passes p q) =
              λ k. let met = (opposite-Passes p q).1 k in ground (arith, e, met) in
            rw e (index_after-Marks p q ps (mark_vector3 half lon (q ∷ ps)) stays later)
      ]

  -- A path whole, or cut at its first step from half to half, without a piece of one point.
  abbrev pub IsCut : List P → List (List P) → Type 0
  IsCut ps pieces =
      (StaysIn ps × (pieces ≡ ps ∷ []))
      ⊎ ((before : List P) × ((after : List P) × ((ps ≡ before ++ after)
              × StaysIn before
              × PassesTo (last? before) after
              × (pieces ≡ filter (λ piece. ltb 1 (length piece)) (before ∷ after ∷ [])))))

  cut_at-IsCut : (ps : List P) (o : Option ℕ) → Marks ps o → IsCut ps (cut_at ps o)
  cut_at-IsCut ps none h = inl (h, refl)
  cut_at-IsCut ps (some i) h =
      inr (take (suc i) ps, (drop (suc i) ps, (sym (take-append-drop (suc i) ps), h.0, h.1, refl)))

  -- A path none of whose steps passes from one half of the map to the other is left whole. Any
  -- other is cut at the first step that does, so that the part before it stays in its half, and a
  -- part of a single point is dropped. The western half has the longitude 0 and not -180.
  pub cut_paths-IsCut : (points : List P) → IsCut points (cut_paths half lon points)
  unfolding cut_paths
  cut_paths-IsCut points =
      cut_at-IsCut points (mark_vector3 half lon points) (mark_vector3-Marks points)
