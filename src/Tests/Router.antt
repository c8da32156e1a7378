-- ===== src/Tests/Router.antt =====
-- web/utls/router.ts on small tables of addresses of web/utls/ipaddr.ts.
use rbmq_demo.Common.{ℕ, ◌≡◌, refl, ◌++◌, [], ◌∷◌, List, All, arith, leb, true, ◌<◌, inl, inr, some}
use rbmq_demo.Router.{
  ipv4, Route, ok, get_max_bits, build_table, lookup, of_family, get_trie_tree_segment_lengths,
}
use rbmq_demo.Router.Levels.{deepest_level}
use rbmq_demo.Router.Lookup.{Fit, lookup-build_table}
use rbmq_demo.Router.Longest.{longest_prefix_match, IsBoundary}
use rbmq_demo.Router.Longest.Table.{lookup-longest_prefix_match}
use rbmq_demo.Router.Misplaced.{lookup_misplaced}
use rbmq_demo.IpAddr.{IpAddr, get_masked_value}
use rbmq_demo.IpAddr.Slices.{CheckedAddr, checked_addr_like, CheckedAddr-IsSliced}

abbrev address : (a b c d : ℕ) → IpAddr
address a b c d = record { bytes = a ∷ b ∷ c ∷ d ∷ []; family = ipv4 }

abbrev R : Type 0
R = Route CheckedAddr ℕ

in_range :
    (a b c d : ℕ) → a < 256 → b < 256 → c < 256 → d < 256 → All (λ x. x < 256) (a ∷ b ∷ c ∷ d ∷ [])
in_range a b c d ha hb hc hd = (ha, (hb, (hc, (hd, tt))))

abbrev checked : (a b c d : ℕ) → a < 256 → b < 256 → c < 256 → d < 256 → CheckedAddr
checked a b c d ha hb hc hd = record {
  addr = address a b c d;
  in_range = in_range a b c d ha hb hc hd;
  whole = refl;
}

is_byte : (n : ℕ) → leb n 255 ≡ true → n < 256
is_byte n h = ground arith

abbrev ip :
    (a b c d : ℕ)
    → leb a 255 ≡ true
    → leb b 255 ≡ true
    → leb c 255 ≡ true
    → leb d 255 ≡ true
    → CheckedAddr
ip a b c d ha hb hc hd = checked a b c d (is_byte a ha) (is_byte b hb) (is_byte c hc) (is_byte d hd)

abbrev route : CheckedAddr → ℕ → R
route net len = record { network_addr = net; prefix_length = len; value = some len }

abbrev wide : R
wide = route (ip 10 0 0 0 refl refl refl refl) 8

abbrev middle : R
middle = route (ip 10 1 0 0 refl refl refl refl) 16

abbrev narrow : R
narrow = route (ip 10 1 2 0 refl refl refl refl) 24

abbrev inside : CheckedAddr
inside = ip 10 1 2 3 refl refl refl refl

abbrev outside : CheckedAddr
outside = ip 10 1 99 3 refl refl refl refl

abbrev two : List R
two = narrow ∷ wide ∷ []

abbrev three : List R
three = wide ∷ middle ∷ narrow ∷ []

lookup-two : lookup (build_table two) outside ≡ ok (wide ∷ [])
unfolding lookup build_table get_masked_value
lookup-two = refl

-- 10.1.99.3 does not lie in 10.1.2.0/24.
lookup-three : lookup (build_table three) outside ≡ ok (middle ∷ narrow ∷ [])
unfolding lookup build_table get_masked_value
lookup-three = refl

Fit-two : Fit two
unfolding get_max_bits
Fit-two = omega arith

Fit-three : Fit three
unfolding get_max_bits
Fit-three = omega arith

lookup-build_table_example :
    lookup (build_table three) inside
    ≡ ok (
        deepest_level
          (of_family ipv4 three)
          inside
          (get_trie_tree_segment_lengths (of_family ipv4 three))
          0)
lookup-build_table_example = lookup-build_table three inside Fit-three

two_boundaries :
    All
      (λ r. IsBoundary (get_trie_tree_segment_lengths (of_family ipv4 two)) 0 r.prefix_length)
      (of_family ipv4 two)
unfolding get_trie_tree_segment_lengths
two_boundaries = (inr (inr refl), (inr (inl refl), tt))

lookup-longest_prefix_match_example :
    lookup (build_table two) inside ≡ ok (longest_prefix_match (of_family ipv4 two) inside)
lookup-longest_prefix_match_example =
    lookup-longest_prefix_match CheckedAddr-IsSliced inside two Fit-two two_boundaries

lookup_misplaced_example :
    (before : List R) × (lookup (build_table three) outside ≡ ok (before ++ narrow ∷ []))
unfolding get_masked_value
lookup_misplaced_example =
    lookup_misplaced outside three wide middle narrow Fit-three refl (omega arith) (omega arith)
      (omega arith) refl refl
