-- ===== src/DnsPlan/Expanded.antt =====
-- web/apis/types.ts: which targets a plan has.
use rbmq_demo.Common.{
  ℕ, zero, suc, ◌+◌, ◌≤◌, ◌≡◌, refl, ap, ap₂, subst, sym, ◌∙◌, some, List, [], ◌∷◌, ◌++◌,
  append_assoc, append-nil, map, length, length-append, get_elem?, true, nat_beq, All, Bool-cases,
  inl, inr, if◌then◌else◌, string_key, ◌==◌, arith,
}
use rbmq_demo.Common.Codes.{Codes, codes_key}
use rbmq_demo.Common.Decimal.{number_text}
use rbmq_demo.Common.Dict.{Assoc, get, get-set}
use rbmq_demo.Common.Groups.{foldl}
use rbmq_demo.Common.Parse.{parse_int, parse_int-number_text}
use rbmq_demo.Common.Sort.{IsSorted, sort_by, sort_by_sorted}
use rbmq_demo.Trace.{or_else}
use rbmq_demo.DnsPlan.{
  get_server_name, strip_resolver, DnsTarget, DnsTargets, DnsProbePlan, target_of, add_target,
  add_domain, corr_number, by_number, expand_dns_probe_plan,
}
use rbmq_demo.DnsPlan.Asked.{asked_type, asked_name, number_text-same, type_asked, name_asked}

-- Each domain with each resolver, domain by domain.
abbrev pub pairs : List Codes → List Codes → List (Codes × Codes)
pairs [] resolvers = []
pairs (d ∷ ds) resolvers = map (λ (r : Codes). (d, r)) resolvers ++ pairs ds resolvers

get_elem?-snoc {ℓ} :
    {A : Type ℓ} (xs : List A) (x : A) (i : ℕ)
    → get_elem? (xs ++ x ∷ []) i ≡ (if nat_beq (length xs) i then some x else get_elem? xs i)
get_elem?-snoc [] x zero = refl
get_elem?-snoc [] x (suc i) = ground arith
get_elem?-snoc (y ∷ xs) x zero = ground arith
get_elem?-snoc (y ∷ xs) x (suc i) = ground (arith, get_elem?-snoc xs x i)

module _ (plan : DnsProbePlan) (name_map : Assoc Codes Codes) where
  -- The targets of pairs, numbered from `n` on.
  abbrev pub numbered : ℕ → List (Codes × Codes) → List DnsTarget
  unfolding number_text get strip_resolver
  numbered n [] = []
  numbered n ((domain, resolver) ∷ ps) =
      record {
        corr_id = number_text n;
        addrport = resolver;
        target = domain;
        transport = plan.transport;
        query_type = asked_type plan.type_of;
        dot_server_name = asked_name plan.transport (get name_map (strip_resolver resolver));
      }
      ∷ numbered (suc n) ps

  -- The targets as the loops make them.
  abbrev made : ℕ → List (Codes × Codes) → List DnsTarget
  unfolding target_of
  made n [] = []
  made n ((d, r) ∷ ps) = target_of plan name_map n d r ∷ made (suc n) ps

  made-numbered : (n : ℕ) (ps : List (Codes × Codes)) → made n ps ≡ numbered n ps
  unfolding made numbered target_of get_server_name
  made-numbered n [] = refl
  made-numbered n ((d, r) ∷ ps) =
      ap₂ ◌∷◌
        (ap₂
          (λ t s. record {
            corr_id = number_text n;
            addrport = r;
            target = d;
            transport = plan.transport;
            query_type = t;
            dot_server_name = s;
          })
          (type_asked plan.type_of) (name_asked plan.transport (get name_map (strip_resolver r))))
        (made-numbered (suc n) ps)

  made-append :
      (n : ℕ) (ps qs : List (Codes × Codes))
      → made n (ps ++ qs) ≡ made n ps ++ made (n + length ps) qs
  unfolding made
  made-append n [] qs = ap (λ k. made k qs) (omega arith)
  made-append n ((d, r) ∷ ps) qs =
      ap (◌∷◌ (target_of plan name_map n d r))
        (made-append (suc n) ps qs ∙ ap (λ k. made (suc n) ps ++ made k qs) (omega arith))

  length-made : (n : ℕ) (ps : List (Codes × Codes)) → length (made n ps) ≡ length ps
  unfolding made
  length-made n [] = refl
  length-made n ((d, r) ∷ ps) = ap suc (length-made (suc n) ps)

  add_target-made :
      (d : Codes) (rs : List Codes) (st : DnsTargets)
      → (foldl (add_target plan name_map d) st rs).targets
        ≡ st.targets ++ made (length st.targets) (map (λ (r : Codes). (d, r)) rs)
  unfolding add_target made
  add_target-made d [] st = sym (append-nil st.targets)
  add_target-made d (r ∷ rs) st =
      add_target-made d rs (add_target plan name_map d st r)
      ∙ append_assoc st.targets (target_of plan name_map (length st.targets) d r ∷ []) _
      ∙ ap
          (λ k.
            st.targets
            ++ target_of plan name_map (length st.targets) d r
              ∷ made k (map (λ (r : Codes). (d, r)) rs))
          (length-append st.targets (target_of plan name_map (length st.targets) d r ∷ [])
            ∙ omega arith)

  add_domain-made :
      (ds : List Codes) (st : DnsTargets)
      → (foldl (add_domain plan name_map) st ds).targets
        ≡ st.targets ++ made (length st.targets) (pairs ds (or_else plan.resolvers []))
  unfolding add_domain made
  add_domain-made [] st = sym (append-nil st.targets)
  add_domain-made (d ∷ ds) st =
      let rs : List Codes = or_else plan.resolvers [] in
      let here : List (Codes × Codes) = map (λ (r : Codes). (d, r)) rs in
      let size : length (st.targets ++ made (length st.targets) here)
          ≡ length st.targets + length here =
        length-append st.targets (made (length st.targets) here)
        ∙ ap (λ k. length st.targets + k) (length-made (length st.targets) here) in
      add_domain-made ds (add_domain plan name_map st d)
      ∙ ap (λ ts. ts ++ made (length ts) (pairs ds rs)) (add_target-made d rs st)
      ∙ append_assoc st.targets (made (length st.targets) here) _
      ∙ ap (λ k. st.targets ++ (made (length st.targets) here ++ made k (pairs ds rs))) size
      ∙ ap (λ ts. st.targets ++ ts) (sym (made-append (length st.targets) here (pairs ds rs)))

  -- The map has each target under its number.
  abbrev IsKept : DnsTargets → Type 0
  IsKept st = (i : ℕ) → get st.targets_map (number_text i) ≡ get_elem? st.targets i

  add_target-IsKept :
      (d r : Codes) (st : DnsTargets) → IsKept st → IsKept (add_target plan name_map d st r)
  unfolding add_target target_of
  add_target-IsKept d r st h i =
      get-set st.targets_map (number_text (length st.targets)) (number_text i) _
      ∙ ap
          (λ b.
            if b
            then some (target_of plan name_map (length st.targets) d r)
            else get st.targets_map (number_text i))
          (number_text-same (length st.targets) i)
      ∙ ap
          (λ o.
            if nat_beq (length st.targets) i
            then some (target_of plan name_map (length st.targets) d r)
            else o)
          (h i)
      ∙ sym (get_elem?-snoc st.targets (target_of plan name_map (length st.targets) d r) i)

  add_targets-IsKept :
      (d : Codes) (rs : List Codes) (st : DnsTargets)
      → IsKept st
      → IsKept (foldl (add_target plan name_map d) st rs)
  add_targets-IsKept d [] st h = h
  add_targets-IsKept d (r ∷ rs) st h =
      add_targets-IsKept d rs (add_target plan name_map d st r) (add_target-IsKept d r st h)

  add_domains-IsKept :
      (ds : List Codes) (st : DnsTargets)
      → IsKept st
      → IsKept (foldl (add_domain plan name_map) st ds)
  unfolding add_domain
  add_domains-IsKept [] st h = h
  add_domains-IsKept (d ∷ ds) st h =
      add_domains-IsKept ds (add_domain plan name_map st d)
        (add_targets-IsKept d (or_else plan.resolvers []) st h)

  corr_number-target_of :
      (n : ℕ) (d r : Codes) → corr_number plan name_map (target_of plan name_map n d r) ≡ n
  unfolding corr_number target_of
  corr_number-target_of n d r = elim (Bool-cases (number_text n == "")) [
    | inl e ↦
        let none : number_text n ≡ "" = (string_key.same_iff (number_text n) "").0 e in
        rw e (unfold parse_int in sym (ap parse_int none) ∙ parse_int-number_text n)
    | inr e ↦ rw e (parse_int-number_text n)
  ]

  above :
      (s : DnsTarget) (m n : ℕ) (ps : List (Codes × Codes))
      → corr_number plan name_map s ≡ m
      → m ≤ n
      → All (λ t. by_number plan name_map s t ≡ true) (made n ps)
  unfolding made by_number
  above s m n [] e h = tt
  above s m n ((d, r) ∷ ps) e h =
      (rw (e, corr_number-target_of n d r) (ground arith), above s m (suc n) ps e (omega arith))

  made-IsSorted :
      (n : ℕ) (ps : List (Codes × Codes)) → IsSorted (by_number plan name_map) (made n ps)
  unfolding made
  made-IsSorted n [] = tt
  made-IsSorted n ((d, r) ∷ ps) = (
    above (target_of plan name_map n d r) n (suc n) ps (corr_number-target_of n d r) (omega arith),
    made-IsSorted (suc n) ps,
  )

  -- A plan has a target for each domain with each resolver, domain by domain, numbered from 0 in
  -- this order, which the sort by number keeps: the domain is what is asked about and the resolver
  -- where, with the transport of the plan, its type of query or else A, and, for a transport other
  -- than UDP and TCP, the name that is listed for the stripped resolver, trimmed, if it is not empty;
  -- and the map has under the text of each number the target with that number, and nothing under
  -- that of a greater one.
  pub expand_dns_probe_plan_lem :
      let expanded = expand_dns_probe_plan plan name_map in
      let all_pairs = pairs (or_else plan.domains []) (or_else plan.resolvers []) in
      (expanded.targets ≡ numbered 0 all_pairs)
      × ((i : ℕ) → get expanded.targets_map (number_text i) ≡ get_elem? (numbered 0 all_pairs) i)
  unfolding expand_dns_probe_plan
  expand_dns_probe_plan_lem =
      let start : DnsTargets = record { targets = []; targets_map = [] } in
      let ds : List Codes = or_else plan.domains [] in
      let all : (foldl (add_domain plan name_map) start ds).targets
          ≡ numbered 0 (pairs ds (or_else plan.resolvers [])) =
        add_domain-made ds start ∙ made-numbered 0 (pairs ds (or_else plan.resolvers [])) in
      let sorted : sort_by (by_number plan name_map)
            (numbered 0 (pairs ds (or_else plan.resolvers [])))
          ≡ numbered 0 (pairs ds (or_else plan.resolvers [])) =
        subst (λ ts. sort_by (by_number plan name_map) ts ≡ ts)
          (made-numbered 0 (pairs ds (or_else plan.resolvers [])))
          (sort_by_sorted (by_number plan name_map) _ (made-IsSorted 0 _)) in
      (
        ap (sort_by (by_number plan name_map)) all ∙ sorted,
        λ i.
            add_domains-IsKept ds start (λ j. unfold get in refl) i ∙ ap (λ ts. get_elem? ts i) all,
      )
