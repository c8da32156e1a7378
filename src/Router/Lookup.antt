-- ===== src/Router/Lookup.antt =====
-- router.ts: a lookup in a table built by `buildTable` returns the routes of the deepest level along
-- the address, and throws nothing.
use rbmq_demo.Common.{
  ℕ, ◌+◌, ◌≤◌, ◌<◌, false, Option, none, some, List, [], ◌∷◌, filter, map, ltb, leb, nat_beq, ◌≡◌,
  refl, ap, ◌∙◌, inl, inr, arith, All, All-filter, All-impl, ltb→lt, Bool-cases,
}
use mathlib.Core.Option
use rbmq_demo.Common.Sort.{sort_by}
use rbmq_demo.Router.{
  AddrLike, Family, ipv4, ipv6, get_family, get_masked_value, get_max_bits, family_max_bits, Route,
  RouteTable, NodeEntry, node, no_header, header, SubTrees, nil, sub, LookupResult, Result, ok, err,
  ◌>>=◌, or_empty, deeper_or, step_into, do_lookup, look_in, find_sub, root_or_empty, node_next,
  insert_routes, get_trie_tree_segment_lengths, of_family, build_family, build_table, lookup,
  lookup_in, table_of, differences,
}
use rbmq_demo.Common.Filters.{filter-All}
use rbmq_demo.Router.Levels.{below_or, goes_into, deepest_level}
use rbmq_demo.Router.Inserted.{
  child, own, HeaderFits, own-insert_routes, child-insert_routes, own-insert_routes_end,
  next-insert_routes, next-insert_routes_end,
}

deeper_or_lem :
    {R : Type 0} (current found : LookupResult R)
    → or_empty (deeper_or current found).routes
      ≡ below_or (or_empty found.routes) (or_empty current.routes)
deeper_or_lem current found = ground arith

-- A successful answer of the subtree decides the answer of the node.
step_result :
    {R : Type 0} (r : Result (LookupResult R)) (current : LookupResult R) (below : List R)
    → (r >>= λ found. ok (or_empty found.routes)) ≡ ok below
    → (step_into current (some r) >>= λ found. ok (or_empty found.routes))
      ≡ ok (below_or below (or_empty current.routes))
step_result (err e) current below h = cc
step_result (ok found) current below h = rw deeper_or_lem (ground arith)

module _ {A : Type 0} ⦃addr : AddrLike A⦄ {R : Type 0} where
  look_in-find_sub :
      (subs : SubTrees R) (key : ℕ) (a : A) (matched max_bits : ℕ)
      → look_in subs key a matched max_bits
        ≡ Option.map (λ t. do_lookup t a matched max_bits) (find_sub subs key)
  unfolding find_sub do_lookup
  look_in-find_sub nil key a matched max_bits = refl
  look_in-find_sub (sub k t rest) key a matched max_bits = elim (Bool-cases (nat_beq k key)) [
    | inl e ↦ rw e refl
    | inr e ↦ rw e (look_in-find_sub rest key a matched max_bits)
  ]

  abbrev look : Option (NodeEntry R) → A → ℕ → ℕ → Result (List R)
  look none a matched max_bits = ok []
  look (some n) a matched max_bits =
      do_lookup n a matched max_bits >>= λ found. ok (or_empty found.routes)

  look_no_header :
      (root : Option (NodeEntry R)) (a : A) (matched max_bits : ℕ)
      → node_next (root_or_empty root) ≡ no_header
      → look root a matched max_bits ≡ ok (own root)
  unfolding do_lookup
  look_no_header none a matched max_bits h = refl
  look_no_header (some (node next routes)) a matched max_bits h = rw h refl

  do_lookup_in_range :
      (subs : SubTrees R) (routes : Option (List R)) (a : A) (len matched max_bits : ℕ)
      → nat_beq matched max_bits ≡ false
      → leb len 0 ≡ false
      → ltb max_bits (len + matched) ≡ false
      → do_lookup (node (header len subs) routes) a matched max_bits
        ≡ step_into
            (record { routes = routes; matched_prefix_len = matched })
            (look_in subs (get_masked_value a matched len) a (matched + len) max_bits)
  unfolding do_lookup
  do_lookup_in_range subs routes a len matched max_bits p q r = rw p (rw q (rw r refl))

  do_lookup-header :
      (subs : SubTrees R) (routes : Option (List R)) (a : A) (len matched max_bits : ℕ)
      → 0 < len
      → matched + len ≤ max_bits
      → do_lookup (node (header len subs) routes) a matched max_bits
        ≡ step_into
            (record { routes = routes; matched_prefix_len = matched })
            (Option.map
              (λ t. do_lookup t a (matched + len) max_bits)
              (find_sub subs (get_masked_value a matched len)))
  do_lookup-header subs routes a len matched max_bits pos fits =
      do_lookup_in_range subs routes a len matched max_bits (ground arith) (ground arith)
        (ground arith)
      ∙ ap (step_into (record { routes = routes; matched_prefix_len = matched }))
          (look_in-find_sub subs (get_masked_value a matched len) a (matched + len) max_bits)

  step_into_lem :
      (t : Option (NodeEntry R)) (a : A) (matched max_bits : ℕ) (current : LookupResult R)
      (below : List R)
      → look t a matched max_bits ≡ ok below
      → (step_into current (Option.map (λ t. do_lookup t a matched max_bits) t) >>= λ found.
          ok (or_empty found.routes))
        ≡ ok (below_or below (or_empty current.routes))
  step_into_lem none a matched max_bits current below h = ground arith
  step_into_lem (some t) a matched max_bits current below h =
      step_result (do_lookup t a matched max_bits) current below h

  look_node_header :
      (subs : SubTrees R) (routes : Option (List R)) (a : A) (len matched max_bits : ℕ)
      (below : List R)
      → 0 < len
      → matched + len ≤ max_bits
      → look (find_sub subs (get_masked_value a matched len)) a (matched + len) max_bits ≡ ok below
      → look (some (node (header len subs) routes)) a matched max_bits
        ≡ ok (below_or below (or_empty routes))
  look_node_header subs routes a len matched max_bits below pos fits h =
      rw (do_lookup-header subs routes a len matched max_bits pos fits) (
        step_into_lem (find_sub subs (get_masked_value a matched len)) a (matched + len) max_bits
          (record { routes = routes; matched_prefix_len = matched }) below h)

  look_node :
      (root : Option (NodeEntry R)) (a : A) (segment matched max_bits : ℕ) (below : List R)
      → 0 < segment
      → HeaderFits segment matched max_bits (node_next (root_or_empty root))
      → look (child root (get_masked_value a matched segment)) a (matched + segment) max_bits
        ≡ ok below
      → look root a matched max_bits ≡ ok (below_or below (own root))
  unfolding find_sub
  look_node none a segment matched max_bits below pos fits h = ground arith
  look_node (some (node no_header routes)) a segment matched max_bits below pos fits h =
      look_no_header (some (node no_header routes)) a matched max_bits refl ∙ ground arith
  look_node (some (node (header len subs) routes)) a segment matched max_bits below pos (e, fits)
        h =
      look_node_header subs routes a len matched max_bits below (rw e pos) (rw e fits) (rw e h)

module _ {A V : Type 0} ⦃addr : AddrLike A⦄ where
  look-insert_routes :
      (rs : List (Route A V)) (a : A) (segments : List ℕ) (eaten max_bits : ℕ)
      → All (λ segment. 0 < segment) segments
      → All (λ r. r.prefix_length ≤ max_bits) rs
      → look (insert_routes none rs segments eaten) a eaten max_bits
        ≡ ok (deepest_level rs a segments eaten)
  unfolding deepest_level find_sub
  look-insert_routes rs a [] eaten max_bits pos fits =
      look_no_header (insert_routes none rs [] eaten) a eaten max_bits
        (next-insert_routes_end none rs eaten)
      ∙ ap ok (own-insert_routes_end none rs eaten)
  look-insert_routes rs a (segment ∷ segments) eaten max_bits (p, pos) fits =
      let goes = goes_into {V = V} eaten segment (get_masked_value a eaten segment) in
      let below = deepest_level (filter goes rs) a segments (eaten + segment) in
      look_node (insert_routes none rs (segment ∷ segments) eaten) a segment eaten max_bits below p
        (next-insert_routes none rs segment segments eaten max_bits fits tt)
        (rw child-insert_routes (
          look-insert_routes (filter goes rs) a segments (eaten + segment) max_bits pos
            (All-filter _ goes rs fits)))
      ∙ ap (λ here. ok (below_or below here)) (own-insert_routes none rs segment segments eaten)

  lookup_in-look :
      (root : Option (NodeEntry (Route A V))) (a : A)
      → lookup_in root a ≡ look root a 0 (get_max_bits a)
  lookup_in-look none a = refl
  lookup_in-look (some n) a = refl

  -- Every prefix fits into its address.
  abbrev pub Fit : List (Route A V) → Type 0
  Fit routes = All (λ r. r.prefix_length ≤ get_max_bits r.network_addr) routes

  of_family-Fit :
      (f : Family) (routes : List (Route A V))
      → Fit routes
      → All (λ r. r.prefix_length ≤ family_max_bits f) (of_family f routes)
  unfolding get_max_bits
  of_family-Fit f [] h = tt
  of_family-Fit f (r ∷ rs) (p, h) = ground (arith, of_family-Fit f rs h)

  pub segment_lengths_pos :
      (routes : List (Route A V)) → All (λ n. 0 < n) (get_trie_tree_segment_lengths routes)
  unfolding get_trie_tree_segment_lengths
  segment_lengths_pos routes =
      All-impl (λ n. ltb→lt 0 n) (get_trie_tree_segment_lengths routes)
        (filter-All (λ n. ltb 0 n) (differences (sort_by leb (map (λ r. r.prefix_length) routes))))

  build_family-look :
      (f : Family) (routes : List (Route A V)) (a : A)
      → get_family a ≡ f
      → Fit routes
      → lookup_in (build_family f routes) a
        ≡ ok (
            deepest_level
              (of_family f routes)
              a
              (get_trie_tree_segment_lengths (of_family f routes))
              0)
  unfolding get_max_bits
  build_family-look f routes a e h =
      lookup_in-look (build_family f routes) a
      ∙ look-insert_routes (of_family f routes) a
          (get_trie_tree_segment_lengths (of_family f routes)) 0 (family_max_bits (get_family a))
          (segment_lengths_pos (of_family f routes)) (rw e (of_family-Fit f routes h))

  table_of-build_table :
      (f : Family) (routes : List (Route A V))
      → table_of f (build_table routes) ≡ build_family f routes
  unfolding build_table
  table_of-build_table ipv4 routes = refl
  table_of-build_table ipv6 routes = refl

  lookup-table_of :
      (t : RouteTable A V) (a : A) → lookup t a ≡ lookup_in (table_of (get_family a) t) a
  unfolding lookup
  lookup-table_of t a = refl

  -- If every prefix fits into its address, a lookup in the table throws nothing and returns the
  -- routes of the address's family that stand on the deepest level along the address.
  pub lookup-build_table :
      (routes : List (Route A V)) (a : A)
      → Fit routes
      → lookup (build_table routes) a
        ≡ ok (
            deepest_level
              (of_family (get_family a) routes)
              a
              (get_trie_tree_segment_lengths (of_family (get_family a) routes))
              0)
  lookup-build_table routes a h =
      lookup-table_of (build_table routes) a
      ∙ ap (λ t. lookup_in t a) (table_of-build_table (get_family a) routes)
      ∙ build_family-look (get_family a) routes a refl h
