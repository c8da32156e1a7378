-- ===== src/Router/Segments.antt =====
-- router.ts: the segment lengths of small tables, and the tables that they serve.
use rbmq_demo.Common.{
  ℕ, ◌-◌, ◌≤◌, ◌<◌, List, [], ◌∷◌, filter, map, ltb, leb, leb→le, ◌≡◌, ap, ◌∙◌, inl, inr, arith,
  All, All-impl, Bool-cases,
}
use rbmq_demo.Common.Sort.{IsSorted}
use rbmq_demo.Router.{
  AddrLike, get_family, Route, ok, get_trie_tree_segment_lengths, of_family, build_table, lookup,
}
use rbmq_demo.Router.Longest.{IsSliced, IsBoundary, longest_prefix_match}
use rbmq_demo.Router.Lookup.{Fit}
use rbmq_demo.Router.Longest.Table.{lookup-longest_prefix_match}

-- The entry before is at most the next length, so no difference falls below 0 and `-` on ℕ is exact.
abbrev pub Exact : ℕ → List ℕ → Type 0
Exact previous [] = Unit
Exact previous (x ∷ xs) = (previous ≤ x) × Exact (x - previous) xs

subtract_previous-Exact :
    (previous bound : ℕ) (xs : List ℕ)
    → previous ≤ bound
    → All (λ x. bound ≤ x) xs
    → IsSorted leb xs
    → Exact previous xs
subtract_previous-Exact previous bound [] le h s = tt
subtract_previous-Exact previous bound (x ∷ xs) le (b, h) (below, s) = (
  omega arith,
  subtract_previous-Exact (x - previous) x xs (omega arith) (All-impl (λ y. leb→le x y) xs below) s,
)

module _ {A V : Type 0} where
  abbrev lengths : List (Route A V) → List ℕ
  lengths rs = map (λ r. r.prefix_length) rs

  -- Three lengths give the differences to the entry before it, which is a difference itself.
  pub segment_lengths_three :
      (r s t : Route A V)
      → 0 < r.prefix_length
      → r.prefix_length < s.prefix_length
      → s.prefix_length < t.prefix_length
      → get_trie_tree_segment_lengths (r ∷ s ∷ t ∷ [])
        ≡ r.prefix_length
          ∷ (s.prefix_length - r.prefix_length)
          ∷ (t.prefix_length - (s.prefix_length - r.prefix_length))
          ∷ []
  unfolding get_trie_tree_segment_lengths
  segment_lengths_three r s t pos p q = ground arith

-- The lengths of two routes, the shorter one first, are reached.
two_boundaries :
    (a b : ℕ)
    → a ≤ b
    → IsBoundary (filter (λ seg. ltb 0 seg) (a ∷ (b - a) ∷ [])) 0 a
      × IsBoundary (filter (λ seg. ltb 0 seg) (a ∷ (b - a) ∷ [])) 0 b
two_boundaries a b le = elim (Bool-cases (ltb 0 a)) [
  | inl p ↦ elim (Bool-cases (ltb 0 (b - a))) [
    | inl q ↦ rw (p, q) (inr (inl (omega arith)), inr (inr (omega arith)))
    | inr q ↦ rw (p, q) (inr (omega arith), inr (ground arith))
  ]
  | inr p ↦ elim (Bool-cases (ltb 0 (b - a))) [
    | inl q ↦ rw (p, q) (inl (ground arith), inr (ground arith))
    | inr q ↦ rw (p, q) (ground arith, ground arith)
  ]
]

module _ {A V : Type 0} ⦃addr : AddrLike A⦄ where
  two_routes :
      (r s : Route A V)
      → All
          (λ t. IsBoundary (get_trie_tree_segment_lengths (r ∷ s ∷ [])) 0 t.prefix_length)
          (r ∷ s ∷ [])
  unfolding get_trie_tree_segment_lengths
  two_routes r s = elim (Bool-cases (leb r.prefix_length s.prefix_length)) [
    | inl e ↦
        let (p, q) = two_boundaries r.prefix_length s.prefix_length (ground arith) in
        rw e (p, (q, tt))
    | inr e ↦
        let (p, q) = two_boundaries s.prefix_length r.prefix_length (ground arith) in
        rw e (q, (p, tt))
  ]

  -- Where addresses are sliced and every prefix fits into its address, a table with two routes of
  -- the address's family answers with the longest matching prefixes.
  pub lookup_two_routes :
      (sliced : IsSliced A) (routes : List (Route A V)) (a : A) (r s : Route A V)
      → Fit routes
      → of_family (get_family a) routes ≡ r ∷ s ∷ []
      → lookup (build_table routes) a ≡ ok (longest_prefix_match (r ∷ s ∷ []) a)
  lookup_two_routes sliced routes a r s fit e =
      lookup-longest_prefix_match sliced a routes fit (rw e (two_routes r s))
      ∙ ap (λ rs. ok (longest_prefix_match rs a)) e
