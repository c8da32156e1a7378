-- ===== src/Router/Misplaced.antt =====
-- router.ts: with three prefix lengths the in-place subtraction puts the longest routes at the level
-- of the second length.
use rbmq_demo.Common.{
  ℕ, ◌+◌, ◌-◌, ◌<◌, true, List, [], ◌∷◌, ◌++◌, filter, ◌≡◌, refl, sym, subst, ap, ap₂, ◌∙◌, arith,
  All, All-filter, All-append, filter-append, All-impl,
}
use rbmq_demo.Common.Filters.{filter-true, filter-false}
use rbmq_demo.Router.{
  AddrLike, get_family, get_masked_value, Route, ok, get_trie_tree_segment_lengths, of_family,
  build_table, lookup,
}
use rbmq_demo.Router.Levels.{below_or, stops_at, goes_into, deepest_level}
use rbmq_demo.Router.Lookup.{Fit, lookup-build_table}
use rbmq_demo.Router.Segments.{segment_lengths_three}

module _ {A V : Type 0} ⦃addr : AddrLike A⦄ (a : A) where
  -- The answer is a list that ends in this route.
  abbrev EndsWith : List (Route A V) → Route A V → Type 0
  EndsWith rs r = (before : List (Route A V)) × (rs ≡ before ++ r ∷ [])

  below_or-EndsWith :
      (below here : List (Route A V)) (r : Route A V)
      → EndsWith below r
      → EndsWith (below_or below here) r
  below_or-EndsWith below here r ([], e) = ([], rw e refl)
  below_or-EndsWith below here r (b ∷ bs, e) = (b ∷ bs, rw e refl)

  -- The last route goes on, and the answer below ends in it.
  goes-EndsWith :
      (front : List (Route A V)) (r : Route A V) (segment : ℕ) (segments : List ℕ) (eaten : ℕ)
      → goes_into eaten segment (get_masked_value a eaten segment) r ≡ true
      → EndsWith
          (deepest_level
            (filter (goes_into eaten segment (get_masked_value a eaten segment)) front ++ r ∷ [])
            a
            segments
            (eaten + segment))
          r
      → EndsWith (deepest_level (front ++ r ∷ []) a (segment ∷ segments) eaten) r
  unfolding deepest_level
  goes-EndsWith front r segment segments eaten h below =
      let goes = goes_into {V = V} eaten segment (get_masked_value a eaten segment) in
      let kept : filter goes (front ++ r ∷ []) ≡ filter goes front ++ r ∷ [] =
        filter-append goes front (r ∷ [])
        ∙ ap (λ l. filter goes front ++ l) (filter-true goes (r ∷ []) (h, tt)) in
      below_or-EndsWith _ _ r
        (subst (λ l. EndsWith (deepest_level l a segments (eaten + segment)) r) (sym kept) below)

  -- No route goes on at the last level.
  stops-EndsWith :
      (front : List (Route A V)) (r : Route A V) (segment eaten : ℕ)
      → All (λ s. s.prefix_length < eaten + segment) (front ++ r ∷ [])
      → EndsWith (deepest_level (front ++ r ∷ []) a (segment ∷ []) eaten) r
  unfolding deepest_level
  stops-EndsWith front r segment eaten h =
      let goes = goes_into {V = V} eaten segment (get_masked_value a eaten segment) in
      let none =
        filter-false goes (front ++ r ∷ []) (All-impl (λ s lt. ground arith) (front ++ r ∷ []) h) in
      let all =
        filter-true (stops_at eaten segment) (front ++ r ∷ [])
          (All-impl (λ s lt. ground arith) (front ++ r ∷ []) h) in
      (front, ap₂ below_or none all)

  deepest_level_misplaced :
      (r s t : Route A V)
      → r.prefix_length < s.prefix_length
      → s.prefix_length < t.prefix_length
      → 0 < r.prefix_length
      → get_masked_value t.network_addr 0 r.prefix_length ≡ get_masked_value a 0 r.prefix_length
      → get_masked_value t.network_addr r.prefix_length (s.prefix_length - r.prefix_length)
        ≡ get_masked_value a r.prefix_length (s.prefix_length - r.prefix_length)
      → EndsWith
          (deepest_level
            (r ∷ s ∷ t ∷ [])
            a
            (r.prefix_length
              ∷ (s.prefix_length - r.prefix_length)
              ∷ (t.prefix_length - (s.prefix_length - r.prefix_length))
              ∷ [])
            0)
          t
  deepest_level_misplaced r s t p q pos first second =
      let len = r.prefix_length in
      let d = s.prefix_length - r.prefix_length in
      let last = t.prefix_length - d in
      let front = filter (goes_into 0 len (get_masked_value a 0 len)) (r ∷ s ∷ []) in
      let front' = filter (goes_into len d (get_masked_value a len d)) front in
      let short =
        All-filter (λ u. u.prefix_length < len + d + last)
          (goes_into 0 len (get_masked_value a 0 len)) (r ∷ s ∷ [])
          (omega arith, (omega arith, tt)) in
      let short' =
        All-filter (λ u. u.prefix_length < len + d + last)
          (goes_into len d (get_masked_value a len d)) front short in
      goes-EndsWith (r ∷ s ∷ []) t len (d ∷ last ∷ []) 0 (ground arith) (
        subst (λ e. EndsWith (deepest_level (front ++ t ∷ []) a (d ∷ last ∷ []) e) t) (omega arith)
          (goes-EndsWith front t d (last ∷ []) len (ground arith) (
            stops-EndsWith front' t last (len + d) (
              All-append (λ u. u.prefix_length < len + d + last) front' (t ∷ []) short'
                (omega arith, tt)))))

  -- If every prefix fits into its address, and the address's family has exactly the routes r, s and
  -- t, in this order and with growing positive lengths, then the answer ends in t for every address
  -- that agrees with t on the bits of the second length, whatever its other bits.
  pub lookup_misplaced :
      (routes : List (Route A V)) (r s t : Route A V)
      → Fit routes
      → of_family (get_family a) routes ≡ r ∷ s ∷ t ∷ []
      → 0 < r.prefix_length
      → r.prefix_length < s.prefix_length
      → s.prefix_length < t.prefix_length
      → get_masked_value t.network_addr 0 r.prefix_length ≡ get_masked_value a 0 r.prefix_length
      → get_masked_value t.network_addr r.prefix_length (s.prefix_length - r.prefix_length)
        ≡ get_masked_value a r.prefix_length (s.prefix_length - r.prefix_length)
      → (before : List (Route A V)) × (lookup (build_table routes) a ≡ ok (before ++ t ∷ []))
  lookup_misplaced routes r s t fit e pos p q first second =
      let (before, found) = deepest_level_misplaced r s t p q pos first second in
      (
        before,
        lookup-build_table routes a fit
            ∙ ap (λ rs. ok (deepest_level rs a (get_trie_tree_segment_lengths rs) 0)) e
            ∙ ap (λ segments. ok (deepest_level (r ∷ s ∷ t ∷ []) a segments 0))
                (segment_lengths_three r s t pos p q)
            ∙ ap ok found,
      )
