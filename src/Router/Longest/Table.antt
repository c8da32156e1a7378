-- ===== src/Router/Longest/Table.antt =====
-- router.ts: the table finds the longest matching prefixes where its segments end at every prefix.
use rbmq_demo.Common.{
  ℕ, ◌+◌, ◌≤◌, ◌<◌, true, List, [], ◌∷◌, filter, nat_beq_iff, ◌≡◌, sym, subst, ap, ◌∙◌, arith, All,
  All-filter, All-impl,
}
use rbmq_demo.Common.Filters.{
  filter-impl, All-zip, filter-true, filter-All, all_largest, all_largest_const,
}
use rbmq_demo.Router.{
  AddrLike, Family, get_family, get_masked_value, get_max_bits, Route, ok,
  get_trie_tree_segment_lengths, of_family, build_table, lookup, family_beq,
}
use rbmq_demo.Router.Levels.{below_or, stops_at, goes_into, deepest_level}
use rbmq_demo.Router.Lookup.{Fit, lookup-build_table, segment_lengths_pos}
use rbmq_demo.Router.Longest.{IsSliced, IsBoundary, covers, longest_prefix_match, IsCandidate}
use rbmq_demo.Router.Longest.Level.{goes-IsCandidate, level_lem}

family_beq→eq : (f g : Family) → family_beq f g ≡ true → f ≡ g
family_beq→eq f g h = ground arith

module _ {A V : Type 0} ⦃addr : AddrLike A⦄ (sliced : IsSliced A) (a : A) where
  deepest_level-longest_prefix_match :
      (segments : List ℕ) (eaten : ℕ) (rs : List (Route A V))
      → All (λ segment. 0 < segment) segments
      → All (IsCandidate a segments eaten) rs
      → deepest_level rs a segments eaten ≡ longest_prefix_match rs a
  unfolding deepest_level longest_prefix_match
  deepest_level-longest_prefix_match [] eaten rs pos cs =
      let covering = filter-true (covers a) rs (All-impl (λ r. end_covers r) rs cs) in
      sym (
        ap (all_largest (λ r. r.prefix_length)) covering
        ∙ all_largest_const (λ r. r.prefix_length) eaten rs (All-impl (λ r c. c.reached) rs cs))
    where
      end_covers : (r : Route A V) → IsCandidate a [] eaten r → covers a r ≡ true
      end_covers r c = (nat_beq_iff _ _).1 (
          subst (λ n. get_masked_value r.network_addr 0 n ≡ get_masked_value a 0 n) (sym c.reached)
            c.agrees)
  deepest_level-longest_prefix_match (segment ∷ segments) eaten rs (p, pos) cs =
      let goes = goes_into {V = V} eaten segment (get_masked_value a eaten segment) in
      ap (λ below. below_or below (filter (stops_at eaten segment) rs))
        (deepest_level-longest_prefix_match segments (eaten + segment) (filter goes rs) pos
          (filter-impl goes rs (goes-IsCandidate sliced a segment segments eaten p) cs))
      ∙ level_lem sliced a segment segments eaten p rs cs

  -- All the routes of a family are candidates at the root.
  of_family-IsCandidate :
      (segments : List ℕ) (routes : List (Route A V))
      → Fit routes
      → All (λ r. IsBoundary segments 0 r.prefix_length) (of_family (get_family a) routes)
      → All (IsCandidate a segments 0) (of_family (get_family a) routes)
  of_family-IsCandidate segments routes fit bounds =
      let rs = of_family (get_family a) routes in
      let same = filter-All (λ r. family_beq (get_family r.network_addr) (get_family a)) routes in
      let fits = All-filter (λ r. r.prefix_length ≤ get_max_bits r.network_addr) _ routes fit in
      All-impl
        (λ r h. record {
          same_family = family_beq→eq _ _ h.0.1;
          fits = h.0.0;
          reached = h.1;
          agrees = sliced.start r.network_addr a;
        })
        rs (All-zip _ _ rs (All-zip _ _ rs fits same) bounds)

  -- Where addresses are sliced, every prefix fits into its address, and every prefix length of the
  -- address's family is the sum of the first segments of the trie, a lookup returns the routes of
  -- that family that cover the address with the longest prefix, in the order of the list.
  pub lookup-longest_prefix_match :
      (routes : List (Route A V))
      → Fit routes
      → All
          (λ r.
            IsBoundary
              (get_trie_tree_segment_lengths (of_family (get_family a) routes))
              0
              r.prefix_length)
          (of_family (get_family a) routes)
      → lookup (build_table routes) a
        ≡ ok (longest_prefix_match (of_family (get_family a) routes) a)
  lookup-longest_prefix_match routes fit bounds =
      lookup-build_table routes a fit
      ∙ ap ok (
          deepest_level-longest_prefix_match
            (get_trie_tree_segment_lengths (of_family (get_family a) routes)) 0
            (of_family (get_family a) routes)
            (segment_lengths_pos (of_family (get_family a) routes))
            (of_family-IsCandidate _ routes fit bounds))
