-- ===== src/Zones/Within.antt =====
-- web/apis/nwdesc.ts: when a domain is in a zone, and what the lookup returns.
use rbmq_demo.Common.{
  ◌≡◌, refl, ap, subst, sym, ◌∙◌, ◌↔◌, inl, inr, List, [], ◌∷◌, ◌++◌, true, Bool-cases, All-impl,
  ◌||◌, filter, All, arith,
}
use mathlib.Core.List.{Perm}
use rbmq_demo.Common.Filters.{filter-All}
use rbmq_demo.Common.Sort.{IsSorted, sort_by-perm, sort_by-IsSorted, sort_by-All}
use rbmq_demo.Zones.{
  Text, dot, DomainDescriptor, same_text, ends_with, normalize, in_zone, longer_first,
  domain_descriptor_lookup,
}
use rbmq_demo.Zones.Texts.{
  same_text_self, same_text_eq, ends_with-append, ends_with_split, labels, labels_ne, joined,
  labels-append, joined-labels, joined-append,
}

-- The labels of the zone are the last labels of the domain.
abbrev pub IsWithin : Text → Text → Type 0
IsWithin domain zone = (front : List Text) × (labels domain ≡ front ++ labels zone)

IsWithin_text :
    (domain zone : Text) (front : List Text)
    → labels domain ≡ front ++ labels zone
    → (same_text domain zone || ends_with domain (dot ∷ zone)) ≡ true
IsWithin_text domain zone [] e =
    let same : domain ≡ zone = sym (joined-labels domain) ∙ ap joined e ∙ joined-labels zone in
    let equal : same_text domain zone ≡ true =
      subst (λ t. same_text domain t ≡ true) same (same_text_self domain) in
    rw equal refl
IsWithin_text domain zone (l ∷ ls) e =
    let same : domain ≡ joined (l ∷ ls) ++ dot ∷ zone =
      sym (joined-labels domain)
      ∙ ap joined e
      ∙ joined-append l ls (labels zone) (labels_ne zone)
      ∙ ap (λ t. joined (l ∷ ls) ++ dot ∷ t) (joined-labels zone) in
    let ends : ends_with domain (dot ∷ zone) ≡ true =
      subst (λ t. ends_with t (dot ∷ zone) ≡ true) (sym same)
        (ends_with-append (joined (l ∷ ls)) (dot ∷ zone)) in
    ground (arith, ends)

text-IsWithin :
    (domain zone : Text)
    → (same_text domain zone || ends_with domain (dot ∷ zone)) ≡ true
    → IsWithin domain zone
text-IsWithin domain zone h = elim (Bool-cases (same_text domain zone)) [
  | inl e ↦ ([], ap labels (same_text_eq domain zone e))
  | inr e ↦
      let ends : ends_with domain (dot ∷ zone) ≡ true = ground arith in
      let found : (p : Text) × (domain ≡ p ++ dot ∷ zone) =
        ends_with_split domain (dot ∷ zone) ends in
      (labels found.0, ap labels found.1 ∙ labels-append found.0 zone)
]

module _ (to_lower_case : Text → Text) where
  -- A name passes the filter of the lookup for a descriptor exactly if the labels of the
  -- normalised zone, cut at the dots, are the last labels of the name.
  pub in_zone_iff :
      (fqdn : Text) (desc : DomainDescriptor)
      → (in_zone to_lower_case fqdn desc ≡ true) ↔ IsWithin fqdn (normalize to_lower_case desc.zone)
  unfolding in_zone
  in_zone_iff fqdn desc = (
    text-IsWithin fqdn (normalize to_lower_case desc.zone),
    λ found. IsWithin_text fqdn (normalize to_lower_case desc.zone) found.0 found.1,
  )

  -- The lookup returns the descriptors that pass its filter, each as often as it is listed, with
  -- the longer zones first, and the labels of each one's zone are the last labels of the domain.
  pub domain_descriptor_lookup_lem :
      (descriptors : List DomainDescriptor) (domain : Text)
      → let found = domain_descriptor_lookup to_lower_case descriptors domain in
        let fqdn = normalize to_lower_case domain in
        IsSorted longer_first found
        × All (λ d. IsWithin fqdn (normalize to_lower_case d.zone)) found
        × Perm found (filter (in_zone to_lower_case fqdn) descriptors)
  unfolding domain_descriptor_lookup
  domain_descriptor_lookup_lem descriptors domain =
      let fqdn : Text = normalize to_lower_case domain in
      let kept : List DomainDescriptor = filter (in_zone to_lower_case fqdn) descriptors in
      (
        sort_by-IsSorted longer_first (λ a b c. ground arith) (λ a b. ground arith) kept,
        sort_by-All longer_first _ kept (
            All-impl (λ d. (in_zone_iff fqdn d).0) kept
              (filter-All (in_zone to_lower_case fqdn) descriptors)),
        sort_by-perm longer_first kept,
      )
