-- ===== src/Zones.antt =====
-- web/apis/nwdesc.ts: the domain descriptors whose zone a domain lies in. A text is the list of its
-- code units. The tables that `toLowerCase` reads are not in the repository: it is the parameter
-- `to_lower_case`.
pub mod Texts
pub mod Within
pub mod Specific
use rbmq_demo.Common.{
  ℕ, ◌≡◌, String, Option, List, [], ◌∷◌, ◌++◌, Bool, true, false, ◌&&◌, ◌||◌, nat_beq, leb, filter,
  length, if◌then◌else◌,
}
use rbmq_demo.Common.Sort.{sort_by}

abbrev pub Text : Type 0
Text = List ℕ

abbrev pub dot : ℕ
dot = 46

pub record DomainDescriptor : Type 0 where
  pub id : String
  pub zone : Text
  pub name : String
  pub description : Option String

-- `===` on strings.
unfoldable pub same_text : Text → Text → Bool
same_text [] [] = true
same_text (c ∷ s) (d ∷ t) = nat_beq c d && same_text s t
same_text _ _ = false

-- `s.endsWith(t)`.
unfoldable pub ends_with : Text → Text → Bool
unfolding same_text
ends_with [] t = same_text [] t
ends_with (c ∷ s) t = same_text (c ∷ s) t || ends_with s t

-- `compare(a, b) <= 0`: the longer zone is first.
abbrev pub longer_first : DomainDescriptor → DomainDescriptor → Bool
longer_first a b = leb (length b.zone) (length a.zone)

module _ (to_lower_case : Text → Text) where
  unfoldable pub normalize : Text → Text
  unfolding ends_with
  normalize zone_or_domain =
      let lower : Text = to_lower_case zone_or_domain in
      if ends_with lower (dot ∷ []) then lower else lower ++ dot ∷ []

  unfoldable pub in_zone : Text → DomainDescriptor → Bool
  unfolding normalize ends_with same_text
  in_zone fqdn desc =
      let zone_fqdn : Text = normalize desc.zone in
      same_text fqdn zone_fqdn || ends_with fqdn (dot ∷ zone_fqdn)

  unfoldable pub domain_descriptor_lookup : List DomainDescriptor → Text → List DomainDescriptor
  unfolding in_zone normalize
  domain_descriptor_lookup descriptors domain =
      let fqdn : Text = normalize domain in sort_by longer_first (filter (in_zone fqdn) descriptors)
