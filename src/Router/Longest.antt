-- ===== src/Router/Longest.antt =====
-- router.ts: longest prefix matching, and what the table relies on in an address for it.
pub mod Level
pub mod Table
use rbmq_demo.Common.{
  ℕ, zero, suc, ◌+◌, ◌-◌, ◌≤◌, ◌<◌, max, Bool, ◌&&◌, not, true, false, Option, none, some, List, [],
  ◌∷◌, ◌++◌, length, filter, map, ltb, leb, nat_beq, nat_beq_iff, if◌then◌else◌, ◌≡◌, ◌≢◌, ◌↔◌, ◌⊎◌,
  refl, sym, subst, ap, ap₂, ◌∙◌, inl, inr, arith, All, All-filter, All-impl, Bool-cases,
}
use rbmq_demo.Common.Filters.{
  filter-congr, filter-filter, filter-impl, filter_nil, All-zip, filter-true, filter-All, largest,
  largest-le, largest-ge, largest_mono, largest-filter_le, all_largest, all_largest_ne,
  all_largest_const,
}
use rbmq_demo.Router.{
  AddrLike, Family, get_family, get_masked_value, get_max_bits, Route, Result, ok,
  get_trie_tree_segment_lengths, of_family, build_table, lookup, family_beq,
}
use rbmq_demo.Router.Levels.{below_or, stops_at, goes_into, deepest_level}
use rbmq_demo.Router.Lookup.{Fit, lookup-build_table}

-- What the table relies on in an address: its first `m + n` bits are its first `m` bits and the
-- next `n`.
pub record IsSliced (A : Type 0) ⦃addr : AddrLike A⦄ : Type 0 where
  pub start : (a b : A) → get_masked_value a 0 0 ≡ get_masked_value b 0 0
  pub split :
      (a b : A) (m n : ℕ)
      → get_family a ≡ get_family b
      → m + n ≤ get_max_bits a
      → (get_masked_value a 0 (m + n) ≡ get_masked_value b 0 (m + n)) ↔ (
          (get_masked_value a 0 m ≡ get_masked_value b 0 m)
          × (get_masked_value a m n ≡ get_masked_value b m n))

-- The length is reached by reading some of the first segments, from `eaten` on.
abbrev pub IsBoundary : List ℕ → ℕ → ℕ → Type 0
IsBoundary [] eaten len = len ≡ eaten
IsBoundary (segment ∷ segments) eaten len =
    (len ≡ eaten) ⊎ IsBoundary segments (eaten + segment) len

pub IsBoundary-le :
    (segments : List ℕ) (eaten len : ℕ) → IsBoundary segments eaten len → eaten ≤ len
IsBoundary-le [] eaten len h = omega arith
IsBoundary-le (segment ∷ segments) eaten len (inl e) = omega arith
IsBoundary-le (segment ∷ segments) eaten len (inr h) =
    omega (arith, IsBoundary-le segments (eaten + segment) len h)

module _ {A V : Type 0} ⦃addr : AddrLike A⦄ where
  -- The address lies under the prefix of the route.
  abbrev pub covers : A → Route A V → Bool
  covers a r =
      nat_beq (get_masked_value r.network_addr 0 r.prefix_length)
        (get_masked_value a 0 r.prefix_length)

  -- The routes that cover the address with the longest prefix, in the order of the list.
  unfoldable pub longest_prefix_match : List (Route A V) → A → List (Route A V)
  longest_prefix_match rs a = all_largest (λ r. r.prefix_length) (filter (covers a) rs)

  -- What holds of each route that the walk along the address has come to after `eaten` bits.
  pub record IsCandidate (a : A) (segments : List ℕ) (eaten : ℕ) (r : Route A V) : Type 0 where
    pub same_family : get_family r.network_addr ≡ get_family a
    pub fits : r.prefix_length ≤ get_max_bits r.network_addr
    pub reached : IsBoundary segments eaten r.prefix_length
    pub agrees : get_masked_value r.network_addr 0 eaten ≡ get_masked_value a 0 eaten
