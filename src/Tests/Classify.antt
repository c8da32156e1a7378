-- ===== src/Tests/Classify.antt =====
-- web/apis/useAddressClassify.ts: one network, one domain, and inputs of both kinds.
use rbmq_demo.Common.{◌≡◌, ◌↔◌, String, refl, none, some, List, [], ◌∷◌, ◌==◌, string_key, arith}
use rbmq_demo.Common.Codes.{Codes, codes, codes_key}
use rbmq_demo.Common.Members.{IsIn, AreDistinct}
use rbmq_demo.IpAddr.{IpaddrJs, get_masked_value}
use rbmq_demo.Router.{ipv4, ok}
use rbmq_demo.Zones.{DomainDescriptor}
use rbmq_demo.Classify.{NetworkDescriptor, CidrJs, Classified, use_address_classify}
use rbmq_demo.Classify.Matched.{
  IsParsed, IsNetworkId, IsDomainId, readable_routes, use_address_classify-ok,
}
use rbmq_demo.Classify.Routed.{RangesFit}

abbrev one_address : IpaddrJs
one_address = record {
  is_valid = λ s. s == "10.1.2.3";
  to_byte_array = λ s. 10 ∷ 1 ∷ 2 ∷ 3 ∷ [];
  kind = λ s. "ipv4";
}

abbrev one_range : CidrJs
one_range = record {
  is_valid_cidr = λ s. s == "10.0.0.0/8";
  to_byte_array = λ s. 10 ∷ 0 ∷ 0 ∷ 0 ∷ [];
  kind = λ s. "ipv4";
  prefix_length = λ s. 8;
}

one_range-RangesFit : RangesFit one_range
one_range-RangesFit t h = omega arith

abbrev networks : List NetworkDescriptor
networks =
    record { id = "bad"; prefix_text = "10"; name = ""; description = none }
    ∷ record { id = "ten"; prefix_text = "10.0.0.0/8"; name = ""; description = none }
    ∷ []

abbrev domains : List DomainDescriptor
domains = record { id = "zone"; zone = codes "dn42"; name = ""; description = none } ∷ []

abbrev as_is : Codes → Codes
as_is s = s

use_address_classify-ok_example :
    (c : Classified) × ((use_address_classify one_address one_range as_is "10.1.2.3"
          (some networks)
          (some domains)
        ≡ ok c)
      × IsParsed one_address "10.1.2.3" c.parsed
      × AreDistinct c.route_ids
      × AreDistinct c.domain_ids
      × ((id : String)
          → IsIn id c.route_ids ↔ IsNetworkId (readable_routes one_range networks) c.parsed id)
      × ((id : String) → IsIn id c.domain_ids ↔ IsDomainId as_is domains c.parsed "10.1.2.3" id))
use_address_classify-ok_example =
    use_address_classify-ok one_address one_range as_is "10.1.2.3" networks domains
      one_range-RangesFit

classify_runs :
    (use_address_classify one_address one_range as_is "10.1.2.3" (some networks) (some domains)
      ≡ ok (record {
        parsed = some (record { bytes = 10 ∷ 1 ∷ 2 ∷ 3 ∷ []; family = ipv4 });
        route_ids = "ten" ∷ [];
        domain_ids = [];
      }))
    × (use_address_classify one_address one_range as_is "a.dn42" (some networks) (some domains)
        ≡ ok (record { parsed = none; route_ids = []; domain_ids = "zone" ∷ [] }))
unfolding use_address_classify get_masked_value
classify_runs = (refl, refl)
