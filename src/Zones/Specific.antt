-- ===== src/Zones/Specific.antt =====
-- web/apis/nwdesc.ts: the order of what the lookup returns, most specific zone first.
use rbmq_demo.Common.{
  ◌+◌, ◌≤◌, ◌≡◌, refl, ap, subst, sym, ◌∙◌, ◌⊎◌, inl, inr, List, [], ◌∷◌, ◌++◌, Bool, true, false,
  Bool-cases, nat_beq, leb→le, filter, All, All-filter, length, length-append, arith,
}
use rbmq_demo.Common.Filters.{All-zip}
use rbmq_demo.Common.Sort.{IsSorted, sort_by-All}
use rbmq_demo.Zones.{
  Text, dot, DomainDescriptor, ends_with, normalize, in_zone, longer_first,
  domain_descriptor_lookup,
}
use rbmq_demo.Zones.Texts.{
  ends_with-append, labels, labels_ne, joined, joined-labels, joined-append,
}
use rbmq_demo.Zones.Within.{IsWithin, domain_descriptor_lookup_lem}

abbrev pub starts_with_dot : Text → Bool
starts_with_dot [] = false
starts_with_dot (c ∷ s) = nat_beq c dot

-- Of two tails of a list, one is a tail of the other.
two_tails {ℓ} :
    {A : Type ℓ} (ms ns xs ys : List A)
    → ms ++ xs ≡ ns ++ ys
    → ((ks : List A) × (xs ≡ ks ++ ys)) ⊎ ((ks : List A) × (ys ≡ ks ++ xs))
two_tails [] ns xs ys e = inl (ns, e)
two_tails (m ∷ ms) [] xs ys e = inr (m ∷ ms, sym e)
two_tails (m ∷ ms) (n ∷ ns) xs ys e = two_tails ms ns xs ys (ground arith)

longer_name :
    (front zone name : Text)
    → name ≡ front ++ dot ∷ zone
    → starts_with_dot name ≡ false
    → length zone + 2 ≤ length name
longer_name [] zone name e h =
    let bad : starts_with_dot (dot ∷ zone) ≡ false = subst (λ t. starts_with_dot t ≡ false) e h in
    ground (arith, bad)
longer_name (c ∷ front) zone name e h =
    let size : length name ≡ length ((c ∷ front) ++ dot ∷ zone) = ap length e in
    omega (arith, size, length-append front (dot ∷ zone))

longer-IsWithin :
    (domain a b : Text)
    → IsWithin domain a
    → IsWithin domain b
    → starts_with_dot b ≡ false
    → length b ≤ length a + 1
    → IsWithin a b
longer-IsWithin domain a b (f, e) (g, k) h size =
    elim (two_tails f g (labels a) (labels b) (sym e ∙ k)) [
      | inl found ↦ found
      | inr ([], same) ↦ ([], sym same)
      | inr (l ∷ ls, same) ↦
          let longer : b ≡ joined (l ∷ ls) ++ dot ∷ a =
            sym (joined-labels b)
            ∙ ap joined same
            ∙ joined-append l ls (labels a) (labels_ne a)
            ∙ ap (λ t. joined (l ∷ ls) ++ dot ∷ t) (joined-labels a) in
          let more : length a + 2 ≤ length b = longer_name (joined (l ∷ ls)) a b longer h in
          absurd (omega (arith, more))
    ]

module _ (to_lower_case : Text → Text) where
  -- The zone does not start with a dot, and lowering keeps its length.
  abbrev pub IsProper : DomainDescriptor → Type 0
  IsProper d =
      (starts_with_dot (normalize to_lower_case d.zone) ≡ false)
      × (length (to_lower_case d.zone) ≡ length d.zone)

  abbrev IsNamed : Text → DomainDescriptor → Type 0
  IsNamed fqdn d = IsWithin fqdn (normalize to_lower_case d.zone) × IsProper d

  -- Each zone lies in every later one.
  abbrev pub AreNested : List DomainDescriptor → Type 0
  AreNested [] = Unit
  AreNested (d ∷ ds) =
      All (λ e. IsWithin (normalize to_lower_case d.zone) (normalize to_lower_case e.zone)) ds
      × AreNested ds

  -- If lowering leaves a final dot in its place and the lowered domain does not end with one, a
  -- final dot on the domain does not change what the lookup returns.
  pub domain_descriptor_lookup_dotted :
      (descriptors : List DomainDescriptor) (domain : Text)
      → to_lower_case (domain ++ dot ∷ []) ≡ to_lower_case domain ++ dot ∷ []
      → ends_with (to_lower_case domain) (dot ∷ []) ≡ false
      → domain_descriptor_lookup to_lower_case descriptors (domain ++ dot ∷ [])
        ≡ domain_descriptor_lookup to_lower_case descriptors domain
  unfolding domain_descriptor_lookup normalize
  domain_descriptor_lookup_dotted descriptors domain e h =
      let with_dot = ends_with-append (to_lower_case domain) (dot ∷ []) in rw (e, h, with_dot) refl

module _ (to_lower_case : Text → Text) where
  length-normalize :
      (s : Text)
      → length (to_lower_case s) ≡ length s
      → (length s ≤ length (normalize to_lower_case s))
        × (length (normalize to_lower_case s) ≤ length s + 1)
  unfolding normalize
  length-normalize s same_length =
      let lower : Text = to_lower_case s in
      elim (Bool-cases (ends_with lower (dot ∷ []))) [
        | inl e ↦ rw e (omega (arith, same_length), omega (arith, same_length))
        | inr e ↦
            let size = length-append lower (dot ∷ []) in
            rw e (omega (arith, same_length, size), omega (arith, same_length, size))
      ]

  below :
      (fqdn : Text) (d : DomainDescriptor) (ds : List DomainDescriptor)
      → IsNamed to_lower_case fqdn d
      → All (λ e. longer_first d e ≡ true) ds
      → All (IsNamed to_lower_case fqdn) ds
      → All (λ e. IsWithin (normalize to_lower_case d.zone) (normalize to_lower_case e.zone)) ds
  below fqdn d [] n h k = tt
  below fqdn d (e ∷ es) n (h, hs) (k, ks) =
      let size = leb→le (length e.zone) (length d.zone) h in
      (
        longer-IsWithin fqdn (normalize to_lower_case d.zone) (normalize to_lower_case e.zone) n.0
            k.0 k.1.0
            (omega
              (arith, size, (length-normalize d.zone n.1.1).0, (length-normalize e.zone k.1.1).1)),
        below fqdn d es n hs ks,
      )

  sorted-AreNested :
      (fqdn : Text) (ds : List DomainDescriptor)
      → IsSorted longer_first ds
      → All (IsNamed to_lower_case fqdn) ds
      → AreNested to_lower_case ds
  sorted-AreNested fqdn [] s n = tt
  sorted-AreNested fqdn (d ∷ ds) (h, s) (n, ns) =
      (below fqdn d ds n h ns, sorted-AreNested fqdn ds s ns)

  -- If lowering keeps the length of each zone of the list and no normalised zone starts with a
  -- dot, the zones that the lookup returns are ordered by specificity: the labels of each later
  -- zone are the last labels of each earlier one.
  pub domain_descriptor_lookup-AreNested :
      (descriptors : List DomainDescriptor) (domain : Text)
      → All (IsProper to_lower_case) descriptors
      → AreNested to_lower_case (domain_descriptor_lookup to_lower_case descriptors domain)
  unfolding domain_descriptor_lookup
  domain_descriptor_lookup-AreNested descriptors domain h =
      let fqdn : Text = normalize to_lower_case domain in
      let kept : List DomainDescriptor = filter (in_zone to_lower_case fqdn) descriptors in
      let known = domain_descriptor_lookup_lem to_lower_case descriptors domain in
      sorted-AreNested fqdn (domain_descriptor_lookup to_lower_case descriptors domain) known.0 (
        All-zip _ _ _ known.1 (
          sort_by-All longer_first _ kept
            (All-filter _ (in_zone to_lower_case fqdn) descriptors h)))
