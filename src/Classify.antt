-- ===== src/Classify.antt =====
-- web/apis/useAddressClassify.ts: the networks and the domains that an input belongs to. The table
-- of Router is built from a list of networks, and Zones finds the domains.
pub mod Routed
pub mod Matched
use rbmq_demo.Common.{
  ℕ, String, Option, none, some, List, [], ◌∷◌, map, Bool, true, false, not, ◌&&◌, ◌==◌, string_key,
  if◌then◌else◌,
}
use rbmq_demo.Common.Codes.{codes, dedup}
use rbmq_demo.IpAddr.{IpAddr, IpaddrJs, kind_family, from_string, ip_addr_like}
use rbmq_demo.Router.{Route, RouteTable, Result, ok, err, ◌>>=◌, build_table, lookup}
use rbmq_demo.Zones.{Text, DomainDescriptor, domain_descriptor_lookup}

pub record NetworkDescriptor : Type 0 where
  pub id : String
  pub prefix_text : String
  pub name : String
  pub description : Option String

-- What `parseCIDR` of the package ipaddr.js gives of a valid text: the bytes and the kind of its
-- address, and its length.
pub record CidrJs : Type 0 where
  pub is_valid_cidr : String → Bool
  pub to_byte_array : String → List ℕ
  pub kind : String → String
  pub prefix_length : String → ℕ

module _ (cidr : CidrJs) where
  abbrev pub route_of : NetworkDescriptor → Route IpAddr NetworkDescriptor
  route_of desc = record {
    network_addr = record {
      bytes = cidr.to_byte_array desc.prefix_text;
      family = kind_family (cidr.kind desc.prefix_text == "ipv4");
    };
    prefix_length = cidr.prefix_length desc.prefix_text;
    value = some desc;
  }

  -- The loop of the query, which skips a prefix that cannot be read.
  unfoldable pub routes_of : List NetworkDescriptor → List (Route IpAddr NetworkDescriptor)
  routes_of [] = []
  routes_of (desc ∷ descs) =
      let rest = routes_of descs in
      if cidr.is_valid_cidr desc.prefix_text then route_of desc ∷ rest else rest

-- `(r.value as NetworkDescriptor).id`
abbrev pub push_id : Option NetworkDescriptor → List String → List String
push_id none rest = rest
push_id (some desc) rest = desc.id ∷ rest

abbrev pub route_ids : List (Route IpAddr NetworkDescriptor) → List String
route_ids [] = []
route_ids (r ∷ rs) = let rest = route_ids rs in push_id r.value rest

-- The lists are none until their queries have loaded.
abbrev pub matched_route_ids :
    Option IpAddr → Option (RouteTable IpAddr NetworkDescriptor) → Result (List String)
unfolding lookup dedup
matched_route_ids (some a) (some table) = lookup table a >>= λ rs. ok (dedup (route_ids rs))
matched_route_ids _ _ = ok []

module _ (to_lower_case : Text → Text) where
  abbrev pub matched_domain_ids :
      Option IpAddr → String → Option (List DomainDescriptor) → List String
  unfolding domain_descriptor_lookup dedup
  matched_domain_ids none input (some descs) =
      if input == ""
      then []
      else dedup (map (λ d. d.id) (domain_descriptor_lookup to_lower_case descs (codes input)))
  matched_domain_ids _ input _ = []

-- What the hook computes; it passes the lists on, and whether they still load.
pub record Classified : Type 0 where
  pub parsed : Option IpAddr
  pub route_ids : List String
  pub domain_ids : List String

abbrev pub table_if :
    CidrJs → Option (List NetworkDescriptor) → Option (RouteTable IpAddr NetworkDescriptor)
unfolding build_table routes_of
table_if cidr none = none
table_if cidr (some networks) = some (build_table (routes_of cidr networks))

-- What the hook returns for an input, or the error that it throws.
unfoldable pub use_address_classify :
    IpaddrJs
    → CidrJs
    → (Text → Text)
    → String
    → Option (List NetworkDescriptor)
    → Option (List DomainDescriptor)
    → Result Classified
unfolding from_string table_if matched_route_ids matched_domain_ids
use_address_classify js cidr to_lower_case input networks domains =
    let parsed : Option IpAddr = from_string js input in
    matched_route_ids parsed (table_if cidr networks) >>= λ ids. ok (record {
      parsed = parsed;
      route_ids = ids;
      domain_ids = matched_domain_ids to_lower_case parsed input domains;
    })
