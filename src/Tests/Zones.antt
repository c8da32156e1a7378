-- ===== src/Tests/Zones.antt =====
-- web/apis/nwdesc.ts: the zones of ab.cd, with ASCII letters lowered.
use rbmq_demo.Common.{
  ℕ, ◌+◌, ◌≡◌, refl, none, true, false, List, [], ◌∷◌, map, leb, All, if◌then◌else◌, ◌&&◌, ◌↔◌,
}
use rbmq_demo.Common.Sort.{sort_by, insert_by}
use rbmq_demo.Zones.{
  Text, dot, DomainDescriptor, same_text, ends_with, normalize, in_zone, domain_descriptor_lookup,
}
use rbmq_demo.Zones.Within.{IsWithin, in_zone_iff}
use rbmq_demo.Zones.Specific.{IsProper, AreNested, domain_descriptor_lookup-AreNested}

abbrev lower_letter : ℕ → ℕ
lower_letter c = if leb 65 c && leb c 90 then c + 32 else c

abbrev lower : Text → Text
lower s = map lower_letter s

-- CD
abbrev top : DomainDescriptor
top = record { id = "top"; zone = 67 ∷ 68 ∷ []; name = "cd"; description = none }

-- b.cd.
abbrev sibling : DomainDescriptor
sibling = record {
  id = "sibling";
  zone = 98 ∷ 46 ∷ 99 ∷ 100 ∷ 46 ∷ [];
  name = "b.cd";
  description = none;
}

-- ab.cd
abbrev own : DomainDescriptor
own = record { id = "own"; zone = 97 ∷ 98 ∷ 46 ∷ 99 ∷ 100 ∷ []; name = "ab.cd"; description = none }

-- Ab.cd
abbrev domain : Text
domain = 65 ∷ 98 ∷ 46 ∷ 99 ∷ 100 ∷ []

abbrev descriptors : List DomainDescriptor
descriptors = top ∷ sibling ∷ own ∷ []

lookup_run : domain_descriptor_lookup lower descriptors domain ≡ own ∷ top ∷ []
unfolding domain_descriptor_lookup in_zone normalize ends_with same_text sort_by insert_by
lookup_run = refl

-- The root zone has no domain but itself.
root_run :
    domain_descriptor_lookup lower
      (record { id = "root"; zone = []; name = "root"; description = none } ∷ [])
      domain
    ≡ []
unfolding domain_descriptor_lookup in_zone normalize ends_with same_text sort_by insert_by
root_run = refl

in_zone_iff_example : (in_zone lower domain top ≡ true) ↔ IsWithin domain (normalize lower top.zone)
in_zone_iff_example = in_zone_iff lower domain top

proper : All (IsProper lower) descriptors
unfolding normalize ends_with same_text
proper = ((refl, refl), ((refl, refl), ((refl, refl), tt)))

domain_descriptor_lookup-AreNested_example :
    AreNested lower (domain_descriptor_lookup lower descriptors domain)
domain_descriptor_lookup-AreNested_example =
    domain_descriptor_lookup-AreNested lower descriptors domain proper

undotted : ends_with (lower domain) (dot ∷ []) ≡ false
unfolding ends_with same_text
undotted = refl
