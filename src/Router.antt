-- ===== src/Router.antt =====
-- web/utls/router.ts: the routing table, a trie over segments of the address.
pub mod Levels
mod Inserted
pub mod Lookup
pub mod Longest
pub mod Segments
pub mod Misplaced
use rbmq_demo.Common.{
  ℕ, ◌+◌, ◌-◌, Bool, ◌&&◌, ◌||◌, not, true, false, Option, none, some, List, [], ◌∷◌, ◌++◌, map,
  length, filter, ltb, leb, nat_beq, if◌then◌else◌, Key, ◌==◌,
}
use rbmq_demo.Common.Sort.{sort_by}

pub data Family : Type 0 where
  ipv4 ipv6 : Family

abbrev pub family_beq : Family → Family → Bool
family_beq ipv4 ipv4 = true
family_beq ipv6 ipv6 = true
family_beq _ _ = false

-- `IPAddrLike`, the two methods that the table calls.
pub record AddrLike (A : Type 0) : Type 0 where
  pub get_family : A → Family
  pub get_masked_value : A → ℕ → ℕ → ℕ

module _ {A : Type 0} ⦃addr : AddrLike A⦄ where
  abbrev pub get_family : A → Family
  get_family = addr.get_family

  abbrev pub get_masked_value : A → ℕ → ℕ → ℕ
  get_masked_value = addr.get_masked_value

pub record Route (A V : Type 0) : Type 0 where
  pub network_addr : A
  pub prefix_length : ℕ
  pub value : Option V

-- A node of the trie, its `nextHeader`, and the entries of `seg2SubTrees`, whose keys are the
-- decimal texts of the numbers here. `R` is the type of routes.
mutual
  pub data NodeEntry (R : Type 0) : Type 0 where
    node : NextHeader R → Option (List R) → NodeEntry R

  pub data NextHeader (R : Type 0) : Type 0 where
    no_header : NextHeader R
    header : ℕ → SubTrees R → NextHeader R

  pub data SubTrees (R : Type 0) : Type 0 where
    nil : SubTrees R
    sub : ℕ → NodeEntry R → SubTrees R → SubTrees R

pub record LookupResult (R : Type 0) : Type 0 where
  pub routes : Option (List R)
  pub matched_prefix_len : ℕ

-- The errors that the module throws.
pub data RouterError : Type 0 where
  invalid_segment_length : RouterError

pub data Result (B : Type 0) : Type 0 where
  ok : B → Result B
  err : RouterError → Result B

infixl 5 ◌>>=◌
abbrev pub ◌>>=◌ : {B C : Type 0} → Result B → (B → Result C) → Result C
ok b >>= f = f b
err e >>= f = err e

abbrev pub or_empty {ℓ} : {R : Type ℓ} → Option (List R) → List R
or_empty none = []
or_empty (some rs) = rs

-- `lookupResult.routes && lookupResult.routes.length > 0`
abbrev pub has_routes {ℓ} : {R : Type ℓ} → Option (List R) → Bool
has_routes none = false
has_routes (some []) = false
has_routes (some (_ ∷ _)) = true

abbrev pub family_max_bits : Family → ℕ
family_max_bits ipv4 = 32
family_max_bits ipv6 = 128

-- A family is one of two, so the `throw` of the source's last branch has no case.
unfoldable pub get_max_bits : {A : Type 0} ⦃addr : AddrLike A⦄ → A → ℕ
get_max_bits a = family_max_bits (get_family a)

-- `lookupResult` where it has routes, else the node's own.
abbrev pub deeper_or : {R : Type 0} → LookupResult R → LookupResult R → LookupResult R
deeper_or current found = if has_routes found.routes then found else current

abbrev pub step_into :
    {R : Type 0} → LookupResult R → Option (Result (LookupResult R)) → Result (LookupResult R)
step_into current none = ok current
step_into current (some found) = found >>= λ r. ok (deeper_or current r)

module _ {A : Type 0} ⦃addr : AddrLike A⦄ {R : Type 0} where
  -- `doLookup`; `look_in` is the read of `seg2SubTrees[segment]` with the recursive call on what
  -- it finds.
  unfoldable mutual
    pub do_lookup : NodeEntry R → A → ℕ → ℕ → Result (LookupResult R)
    do_lookup (node next routes) a matched max_bits =
        look_next next a matched max_bits (record { routes = routes; matched_prefix_len = matched })

    pub look_next : NextHeader R → A → ℕ → ℕ → LookupResult R → Result (LookupResult R)
    look_next no_header a matched max_bits current = ok current
    look_next (header len subs) a matched max_bits current =
        if nat_beq matched max_bits
        then ok current
        else if leb len 0 || ltb max_bits (len + matched)
        then err invalid_segment_length
        else step_into current
            (look_in subs (get_masked_value a matched len) a (matched + len) max_bits)

    pub look_in : SubTrees R → ℕ → A → ℕ → ℕ → Option (Result (LookupResult R))
    look_in nil segment a matched max_bits = none
    look_in (sub key tree rest) segment a matched max_bits =
        let found = some (do_lookup tree a matched max_bits) in
        let later = look_in rest segment a matched max_bits in
        if nat_beq key segment then found else later

-- The loop over `segmentLengths` writes in place, so the entry before `x` is already a difference.
unfoldable pub subtract_previous : ℕ → List ℕ → List ℕ
subtract_previous previous [] = []
subtract_previous previous (x ∷ xs) = (x - previous) ∷ subtract_previous (x - previous) xs

abbrev pub differences : List ℕ → List ℕ
differences [] = []
differences (x ∷ xs) = x ∷ subtract_previous x xs

unfoldable pub get_trie_tree_segment_lengths : {A V : Type 0} → List (Route A V) → List ℕ
unfolding subtract_previous sort_by
get_trie_tree_segment_lengths routes =
    filter (λ seg. ltb 0 seg) (differences (sort_by leb (map (λ r. r.prefix_length) routes)))

module _ {R : Type 0} where
  unfoldable pub find_sub : SubTrees R → ℕ → Option (NodeEntry R)
  find_sub nil key = none
  find_sub (sub k tree rest) key = if nat_beq k key then some tree else find_sub rest key

  -- `{ ...seg2SubTrees, [key]: tree }`
  unfoldable pub set_sub : SubTrees R → ℕ → NodeEntry R → SubTrees R
  set_sub nil key tree = sub key tree nil
  set_sub (sub k old rest) key tree =
      if nat_beq k key then sub k tree rest else sub k old (set_sub rest key tree)

  abbrev pub header_subs : NextHeader R → SubTrees R
  header_subs no_header = nil
  header_subs (header len subs) = subs

  -- `tableRoot ?? {}`
  abbrev pub root_or_empty : Option (NodeEntry R) → NodeEntry R
  root_or_empty none = node no_header none
  root_or_empty (some n) = n

  abbrev pub node_next : NodeEntry R → NextHeader R
  node_next (node next routes) = next

  abbrev pub node_routes : NodeEntry R → Option (List R)
  node_routes (node next routes) = routes

  abbrev pub push_route : NodeEntry R → R → NodeEntry R
  push_route (node next routes) r = node next (some (or_empty routes ++ r ∷ []))

  abbrev pub with_sub : NodeEntry R → ℕ → ℕ → NodeEntry R → NodeEntry R
  with_sub (node next routes) segment key tree =
      node (header segment (set_sub (header_subs next) key tree)) routes

-- The fields of `RouteTableWrapper`.
pub record RouteTable (A V : Type 0) : Type 0 where
  pub table4 : Option (NodeEntry (Route A V))
  pub table6 : Option (NodeEntry (Route A V))

module _ {A V : Type 0} ⦃addr : AddrLike A⦄ where
  -- `doInsertRoute`; the list is `segments` from `levelIndex` on.
  unfoldable pub do_insert_route :
      Option (NodeEntry (Route A V)) → Route A V → List ℕ → ℕ → NodeEntry (Route A V)
  unfolding find_sub set_sub
  do_insert_route root route [] eaten = push_route (root_or_empty root) route
  do_insert_route root route (segment ∷ segments) eaten =
      if ltb route.prefix_length (eaten + segment)
      then push_route (root_or_empty root) route
      else let key = get_masked_value route.network_addr eaten segment in
        with_sub (root_or_empty root) segment key (
          do_insert_route (find_sub (header_subs (node_next (root_or_empty root))) key) route
            segments (eaten + segment))

  -- the loop of `buildTable`
  unfoldable pub insert_routes :
      Option (NodeEntry (Route A V))
      → List (Route A V)
      → List ℕ
      → ℕ
      → Option (NodeEntry (Route A V))
  insert_routes root [] segments eaten = root
  insert_routes root (r ∷ rs) segments eaten =
      insert_routes (some (do_insert_route root r segments eaten)) rs segments eaten

  abbrev pub of_family : Family → List (Route A V) → List (Route A V)
  of_family f routes = filter (λ r. family_beq (get_family r.network_addr) f) routes

  abbrev pub build_family : Family → List (Route A V) → Option (NodeEntry (Route A V))
  build_family f routes =
      insert_routes none (of_family f routes) (get_trie_tree_segment_lengths (of_family f routes)) 0

  unfoldable pub build_table : List (Route A V) → RouteTable A V
  unfolding insert_routes do_insert_route get_trie_tree_segment_lengths
  build_table routes = record {
    table4 = build_family ipv4 routes;
    table6 = build_family ipv6 routes;
  }

  abbrev pub table_of : Family → RouteTable A V → Option (NodeEntry (Route A V))
  table_of ipv4 t = t.table4
  table_of ipv6 t = t.table6

  abbrev pub lookup_in : Option (NodeEntry (Route A V)) → A → Result (List (Route A V))
  lookup_in none a = ok []
  lookup_in (some n) a = do_lookup n a 0 (get_max_bits a) >>= λ found. ok (or_empty found.routes)

  -- `RouteTableWrapper.lookup`
  unfoldable pub lookup : RouteTable A V → A → Result (List (Route A V))
  unfolding do_lookup get_max_bits
  lookup t a = lookup_in (table_of (get_family a) t) a
