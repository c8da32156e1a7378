-- ===== src/Classify/Matched.antt =====
-- web/apis/useAddressClassify.ts: which networks and which domains an input gets.
use rbmq_demo.Common.{
  ◌≡◌, ◌≢◌, ◌↔◌, ◌⊎◌, refl, sym, ap, subst, ◌∙◌, String, Option, none, some, List, [], ◌∷◌, map,
  filter, true, false, ◌==◌, string_key, Bool-cases, inl, inr, arith,
}
use rbmq_demo.Common.Codes.{codes}
use rbmq_demo.Common.Members.{
  IsIn, IsIn-filter, IsIn-sort_by, IsIn-map, IsIn-dedup, AreDistinct, dedup-AreDistinct,
}
use rbmq_demo.IpAddr.{IpAddr, IpaddrJs, kind_family, from_string, ip_addr_like}
use rbmq_demo.Router.{Route, ok, ipv4, ipv6, get_trie_tree_segment_lengths, of_family}
use rbmq_demo.Router.Levels.{deepest_level}
use rbmq_demo.Trace.{or_else}
use rbmq_demo.Zones.{
  Text, DomainDescriptor, normalize, in_zone, longer_first, domain_descriptor_lookup,
}
use rbmq_demo.Zones.Within.{IsWithin, in_zone_iff}
use rbmq_demo.Classify.{
  NetworkDescriptor, CidrJs, Classified, route_of, routes_of, push_id, route_ids,
  use_address_classify,
}
use rbmq_demo.Classify.Routed.{RangesFit, networks_of, domains_of, use_address_classify_ok}

-- The address that an input is.
abbrev pub IsParsed : IpaddrJs → String → Option IpAddr → Type 0
IsParsed js input none = js.is_valid input ≡ false
IsParsed js input (some a) =
    (js.is_valid input ≡ true)
    × (a.bytes ≡ js.to_byte_array input)
    × (((js.kind input ≡ "ipv4") × (a.family ≡ ipv4))
        ⊎ ((js.kind input ≢ "ipv4") × (a.family ≡ ipv6)))

from_string-IsParsed : (js : IpaddrJs) (input : String) → IsParsed js input (from_string js input)
unfolding from_string
from_string-IsParsed js input = elim (Bool-cases (js.is_valid input)) [
  | inl e ↦ rw e (elim (Bool-cases (js.kind input == "ipv4")) [
    | inl h ↦ rw h (e, refl, inl ((string_key.same_iff _ _).0 h, refl))
    | inr h ↦ rw h (
      e,
      refl,
      inr (
        λ k. let same = (string_key.same_iff (js.kind input) "ipv4").1 k in ground (arith, h, same),
        refl,
      ),
    )
  ])
  | inr e ↦ rw e e
]

-- The routes of the networks with a prefix that the package can read.
abbrev pub readable_routes : CidrJs → List NetworkDescriptor → List (Route IpAddr NetworkDescriptor)
readable_routes cidr networks =
    map
      (λ (d : NetworkDescriptor). record {
        network_addr = record {
          bytes = cidr.to_byte_array d.prefix_text;
          family = kind_family (cidr.kind d.prefix_text == "ipv4");
        };
        prefix_length = cidr.prefix_length d.prefix_text;
        value = some d;
      })
      (filter (λ d. cidr.is_valid_cidr d.prefix_text) networks)

routes_of-readable_routes :
    (cidr : CidrJs) (networks : List NetworkDescriptor)
    → routes_of cidr networks ≡ readable_routes cidr networks
unfolding routes_of
routes_of-readable_routes cidr [] = refl
routes_of-readable_routes cidr (d ∷ ds) = elim (Bool-cases (cidr.is_valid_cidr d.prefix_text)) [
  | inl e ↦ rw e (ap (◌∷◌ (route_of cidr d)) (routes_of-readable_routes cidr ds))
  | inr e ↦ rw e (routes_of-readable_routes cidr ds)
]

-- The identifier is that of a network on the deepest level of the table along the address.
abbrev pub IsNetworkId : List (Route IpAddr NetworkDescriptor) → Option IpAddr → String → Type 0
IsNetworkId rs none id = ⊥
IsNetworkId rs (some a) id =
    (r : Route IpAddr NetworkDescriptor) × (IsIn r (
        deepest_level (of_family a.family rs) a
          (get_trie_tree_segment_lengths (of_family a.family rs)) 0)
      × ((d : NetworkDescriptor) × ((r.value ≡ some d) × (d.id ≡ id))))

-- The identifier is that of a domain whose zone's labels are the last labels of the input.
abbrev pub IsDomainId :
    (Text → Text) → List DomainDescriptor → Option IpAddr → String → String → Type 0
IsDomainId to_lower_case domains (some a) input id = ⊥
IsDomainId to_lower_case domains none input id =
    (input ≢ "")
    × ((d : DomainDescriptor) × (IsIn d domains
          × IsWithin (normalize to_lower_case (codes input)) (normalize to_lower_case d.zone)
          × (d.id ≡ id)))

IsIn-push_id :
    (id : String) (o : Option NetworkDescriptor) (ids : List String)
    → IsIn id (push_id o ids)
      ↔ (((d : NetworkDescriptor) × ((o ≡ some d) × (d.id ≡ id))) ⊎ IsIn id ids)
IsIn-push_id id none ids = (λ h. inr h, λ h. elim h [ inl k ↦ ground (arith, k.1.0) | inr m ↦ m ])
IsIn-push_id id (some d) ids = (
  λ h. elim h [ inl same ↦ inl (d, (refl, sym same)) | inr m ↦ inr m ],
  λ h. elim h [
    | inl (c, (e, i)) ↦
        let same : d ≡ c = ap (λ o. or_else o d) e in
        inl (sym i ∙ ap (λ (x : NetworkDescriptor). x.id) (sym same))
    | inr m ↦ inr m
  ],
)

IsIn-route_ids :
    (id : String) (rs : List (Route IpAddr NetworkDescriptor))
    → IsIn id (route_ids rs) ↔ (
        (r : Route IpAddr NetworkDescriptor) × (IsIn r rs
          × ((d : NetworkDescriptor) × ((r.value ≡ some d) × (d.id ≡ id)))))
IsIn-route_ids id [] = (λ h. absurd h, λ h. absurd h.1.0)
IsIn-route_ids id (r ∷ rs) =
    let rest = IsIn-route_ids id rs in
    let first = IsIn-push_id id r.value (route_ids rs) in
    (
      λ h. elim (first.0 h) [
        | inl k ↦ (r, (inl refl, k))
        | inr m ↦ let found = rest.0 m in (found.0, (inr found.1.0, found.1.1))
      ],
      λ (s, (h, (d, (v, i)))). elim h [
        | inl same ↦
            let there : r.value ≡ some d =
              ap (λ (t : Route IpAddr NetworkDescriptor). t.value) (sym same) ∙ v in
            first.1 (inl (d, (there, i)))
        | inr m ↦ first.1 (inr (rest.1 (s, (m, (d, (v, i))))))
      ],
    )

networks_of-IsNetworkId :
    (id : String) (rs : List (Route IpAddr NetworkDescriptor)) (o : Option IpAddr)
    → IsIn id (networks_of o rs) ↔ IsNetworkId rs o id
networks_of-IsNetworkId id rs none = (λ h. absurd h, λ h. absurd h)
networks_of-IsNetworkId id rs (some a) =
    let level : List (Route IpAddr NetworkDescriptor) =
      deepest_level (of_family a.family rs) a
        (get_trie_tree_segment_lengths (of_family a.family rs)) 0 in
    let set = IsIn-dedup id (route_ids level) in
    let ids = IsIn-route_ids id level in (λ h. ids.0 (set.0 h), λ h. set.1 (ids.1 h))

module _ (to_lower_case : Text → Text) where
  IsIn-lookup :
      (d : DomainDescriptor) (descs : List DomainDescriptor) (domain : Text)
      → IsIn d (domain_descriptor_lookup to_lower_case descs domain) ↔ (
          IsIn d descs × IsWithin (normalize to_lower_case domain) (normalize to_lower_case d.zone))
  unfolding domain_descriptor_lookup
  IsIn-lookup d descs domain =
      let fqdn : Text = normalize to_lower_case domain in
      let sorted = IsIn-sort_by longer_first d (filter (in_zone to_lower_case fqdn) descs) in
      let kept = IsIn-filter (in_zone to_lower_case fqdn) d descs in
      let within = in_zone_iff to_lower_case fqdn d in
      (
        λ h. let k = kept.0 (sorted.0 h) in (k.0, within.0 k.1),
        λ (h, k). sorted.1 (kept.1 (h, within.1 k)),
      )

  domains_of-IsDomainId :
      (id : String) (domains : List DomainDescriptor) (o : Option IpAddr) (input : String)
      → IsIn id (domains_of to_lower_case o input domains)
        ↔ IsDomainId to_lower_case domains o input id
  domains_of-IsDomainId id domains (some a) input = (λ h. absurd h, λ h. absurd h)
  domains_of-IsDomainId id domains none input = elim (Bool-cases (input == "")) [
    | inl e ↦ rw e (λ h. absurd h, λ h. absurd (h.0 ((string_key.same_iff input "").0 e)))
    | inr e ↦
        let found : List DomainDescriptor =
          domain_descriptor_lookup to_lower_case domains (codes input) in
        let set = IsIn-dedup id (map (λ (d : DomainDescriptor). d.id) found) in
        let ids = IsIn-map (λ (d : DomainDescriptor). d.id) id found in
        let full : input ≢ "" =
          λ h. let empty = (string_key.same_iff input "").1 h in ground (arith, e, empty) in
        rw e (
          λ h.
              let k = ids.0 (set.0 h) in
              let there = (IsIn-lookup k.0 domains (codes input)).0 k.1.0 in
              (full, (k.0, (there.0, there.1, k.1.1))),
          λ h.
              let d = h.1.0 in
              let there = (IsIn-lookup d domains (codes input)).1 (h.1.1.0, h.1.1.1) in
              set.1 (ids.1 (d, (there, h.1.1.2))),
        )
  ]

networks_of-AreDistinct :
    (o : Option IpAddr) (rs : List (Route IpAddr NetworkDescriptor))
    → AreDistinct (networks_of o rs)
networks_of-AreDistinct none rs = tt
networks_of-AreDistinct (some a) rs =
    let level : List (Route IpAddr NetworkDescriptor) =
      deepest_level (of_family a.family rs) a
        (get_trie_tree_segment_lengths (of_family a.family rs)) 0 in
    dedup-AreDistinct (route_ids level)

domains_of-AreDistinct :
    (to_lower_case : Text → Text) (o : Option IpAddr) (input : String)
    (domains : List DomainDescriptor)
    → AreDistinct (domains_of to_lower_case o input domains)
domains_of-AreDistinct to_lower_case (some a) input domains = tt
domains_of-AreDistinct to_lower_case none input domains = elim (Bool-cases (input == "")) [
  | inl e ↦ rw e tt
  | inr e ↦
      let found : List DomainDescriptor =
        domain_descriptor_lookup to_lower_case domains (codes input) in
      rw e (dedup-AreDistinct (map (λ (d : DomainDescriptor). d.id) found))
]

-- If the package reads no range longer than its address, then once both lists have loaded no input
-- makes the hook throw. The input is taken for an address exactly if the package takes it for one.
-- An address gets the identifiers of the networks on the deepest level, along it, of the table of
-- those with a prefix that can be read, and no domain; any other text that is not empty those of
-- the domains whose normalised zones' labels are the last labels of the normalised text, and no
-- network; each of them once.
pub use_address_classify-ok :
    (js : IpaddrJs) (cidr : CidrJs) (to_lower_case : Text → Text) (input : String)
    (networks : List NetworkDescriptor) (domains : List DomainDescriptor)
    → RangesFit cidr
    → (c : Classified) × ((use_address_classify js cidr to_lower_case input
            (some networks)
            (some domains)
          ≡ ok c)
        × IsParsed js input c.parsed
        × AreDistinct c.route_ids
        × AreDistinct c.domain_ids
        × ((id : String)
            → IsIn id c.route_ids ↔ IsNetworkId (readable_routes cidr networks) c.parsed id)
        × ((id : String)
            → IsIn id c.domain_ids ↔ IsDomainId to_lower_case domains c.parsed input id))
use_address_classify-ok js cidr to_lower_case input networks domains fits =
    let parsed : Option IpAddr = from_string js input in
    (
      record {
        parsed = parsed;
        route_ids = networks_of parsed (routes_of cidr networks);
        domain_ids = domains_of to_lower_case parsed input domains;
      },
      (
        use_address_classify_ok js cidr to_lower_case input networks domains fits,
        from_string-IsParsed js input,
        networks_of-AreDistinct parsed (routes_of cidr networks),
        domains_of-AreDistinct to_lower_case parsed input domains,
        λ id.
            subst
              (λ rs.
                IsIn id (networks_of parsed rs)
                ↔ IsNetworkId (readable_routes cidr networks) parsed id)
              (sym (routes_of-readable_routes cidr networks))
              (networks_of-IsNetworkId id (readable_routes cidr networks) parsed),
        λ id. domains_of-IsDomainId to_lower_case id domains parsed input,
      ),
    )
