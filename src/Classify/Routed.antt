-- ===== src/Classify/Routed.antt =====
-- web/apis/useAddressClassify.ts with web/utls/router.ts: the hook in terms of the two lookups.
use rbmq_demo.Common.{
  ◌≤◌, ◌≡◌, refl, ap, ◌∙◌, String, Option, none, some, List, [], ◌∷◌, map, true, ◌==◌, string_key,
  Bool-cases, inl, inr, if◌then◌else◌,
}
use rbmq_demo.Common.Codes.{codes, dedup}
use rbmq_demo.IpAddr.{IpAddr, IpaddrJs, kind_family, from_string, ip_addr_like}
use rbmq_demo.Router.{
  Route, ok, ◌>>=◌, family_max_bits, get_max_bits, build_table, get_trie_tree_segment_lengths,
  of_family,
}
use rbmq_demo.Router.Levels.{deepest_level}
use rbmq_demo.Router.Lookup.{Fit, lookup-build_table}
use rbmq_demo.Zones.{Text, DomainDescriptor, domain_descriptor_lookup}
use rbmq_demo.Classify.{
  NetworkDescriptor, CidrJs, routes_of, route_ids, matched_route_ids, matched_domain_ids,
  use_address_classify,
}

-- The package reads no range that is longer than its address.
abbrev pub RangesFit : CidrJs → Type 0
RangesFit cidr =
    (t : String)
    → cidr.is_valid_cidr t ≡ true
    → cidr.prefix_length t ≤ family_max_bits (kind_family (cidr.kind t == "ipv4"))

routes_of-Fit :
    (cidr : CidrJs) (descs : List NetworkDescriptor) → RangesFit cidr → Fit (routes_of cidr descs)
unfolding routes_of get_max_bits
routes_of-Fit cidr [] fits = tt
routes_of-Fit cidr (desc ∷ descs) fits = elim (Bool-cases (cidr.is_valid_cidr desc.prefix_text)) [
  | inl e ↦ rw e (fits desc.prefix_text e, routes_of-Fit cidr descs fits)
  | inr e ↦ rw e (routes_of-Fit cidr descs fits)
]

-- The networks on the deepest level of the table along an address.
abbrev pub networks_of : Option IpAddr → List (Route IpAddr NetworkDescriptor) → List String
networks_of none rs = []
networks_of (some a) rs = dedup (
    route_ids (
      deepest_level (of_family a.family rs) a
        (get_trie_tree_segment_lengths (of_family a.family rs)) 0))

-- The domains of a text that is no address and not empty.
abbrev pub domains_of : (Text → Text) → Option IpAddr → String → List DomainDescriptor → List String
domains_of to_lower_case (some a) input descs = []
domains_of to_lower_case none input descs =
    if input == ""
    then []
    else dedup (map (λ d. d.id) (domain_descriptor_lookup to_lower_case descs (codes input)))

matched_route_ids-ok :
    (o : Option IpAddr) (rs : List (Route IpAddr NetworkDescriptor))
    → Fit rs
    → matched_route_ids o (some (build_table rs)) ≡ ok (networks_of o rs)
unfolding matched_route_ids
matched_route_ids-ok none rs fit = refl
matched_route_ids-ok (some a) rs fit =
    ap (λ found. found >>= λ ids. ok (dedup (route_ids ids))) (lookup-build_table rs a fit)

matched_domain_ids-domains_of :
    (to_lower_case : Text → Text) (o : Option IpAddr) (input : String)
    (descs : List DomainDescriptor)
    → matched_domain_ids to_lower_case o input (some descs) ≡ domains_of to_lower_case o input descs
unfolding matched_domain_ids
matched_domain_ids-domains_of to_lower_case none input descs = refl
matched_domain_ids-domains_of to_lower_case (some a) input descs = refl

-- The hook throws nothing, in the terms of its own parts.
pub use_address_classify_ok :
    (js : IpaddrJs) (cidr : CidrJs) (to_lower_case : Text → Text) (input : String)
    (networks : List NetworkDescriptor) (domains : List DomainDescriptor)
    → RangesFit cidr
    → use_address_classify js cidr to_lower_case input (some networks) (some domains)
      ≡ ok (record {
        parsed = from_string js input;
        route_ids = networks_of (from_string js input) (routes_of cidr networks);
        domain_ids = domains_of to_lower_case (from_string js input) input domains;
      })
unfolding use_address_classify
use_address_classify_ok js cidr to_lower_case input networks domains fits =
    let parsed : Option IpAddr = from_string js input in
    ap
      (λ found. found >>= λ ids. ok (record {
        parsed = parsed;
        route_ids = ids;
        domain_ids = matched_domain_ids to_lower_case parsed input (some domains);
      }))
      (matched_route_ids-ok parsed (routes_of cidr networks) (routes_of-Fit cidr networks fits))
    ∙ ap
        (λ ids. ok (record {
          parsed = parsed;
          route_ids = networks_of parsed (routes_of cidr networks);
          domain_ids = ids;
        }))
        (matched_domain_ids-domains_of to_lower_case parsed input domains)
