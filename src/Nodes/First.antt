-- ===== src/Nodes/First.antt =====
-- web/apis/globalping.ts: the nodes without repeats, by recursion on the list.
use rbmq_demo.Common.{
  ◌≡◌, ◌↔◌, refl, sym, ap, subst, All-filter, ◌∙◌, String, inl, inr, List, [], ◌∷◌, ◌++◌,
  append_assoc, append-nil, Bool, true, false, ◌&&◌, not, ◌==◌, string_key, filter, All, Bool-cases,
  if◌then◌else◌, arith, none, some, Option,
}
use mathlib.Core.List.{Perm}
use rbmq_demo.Common.Dict.{Assoc}
use rbmq_demo.Common.Filters.{filter-congr, filter-filter, filter-true, filter-All}
use rbmq_demo.Common.Sort.{IsSorted, sort_by, sort_by-perm, sort_by-IsSorted}
use rbmq_demo.IpQuery.{contains_text}
use rbmq_demo.Trace.{is_set, or_else}
use rbmq_demo.Nodes.{
  ConnNodeEntry, Dedup, name_of, add_node, add_nodes, sort_and_dedup, is_pinger,
  get_current_pinger_options,
}
use rbmq_demo.Nodes.Offered.{IsOffered, is_pinger_iff}

abbrev pub other_name : ConnNodeEntry → ConnNodeEntry → Bool
other_name node other = not (name_of node == name_of other)

-- The named nodes, each without the later ones of its name.
abbrev pub first_nodes : List ConnNodeEntry → List ConnNodeEntry
first_nodes [] = []
first_nodes (node ∷ nodes) =
    let rest = first_nodes nodes in
    if is_set node.node_name then node ∷ filter (other_name node) rest else rest

abbrev not_seen : List String → ConnNodeEntry → Bool
not_seen names node = not (contains_text (name_of node) names)

always {ℓ κ} : {A : Type ℓ} {P : A → Type κ} (xs : List A) → ((x : A) → P x) → All P xs
always [] f = tt
always (x ∷ xs) f = (f x, always xs f)

-- A name that was seen before is among the names that are left out.
seen_other :
    (names : List String) (node other : ConnNodeEntry)
    → contains_text (name_of node) names ≡ true
    → (other_name node other && not_seen names other) ≡ not_seen names other
seen_other names node other h = elim (Bool-cases (name_of node == name_of other)) [
  | inl e ↦
      let same : name_of node ≡ name_of other = (string_key.same_iff _ _).0 e in
      let seen : contains_text (name_of other) names ≡ true =
        ap (λ t. contains_text t names) (sym same) ∙ h in
      rw (e, seen) refl
  | inr e ↦ rw e refl
]

new_other :
    (names : List String) (node other : ConnNodeEntry)
    → (other_name node other && not_seen names other) ≡ not_seen (name_of node ∷ names) other
new_other names node other = elim (Bool-cases (name_of node == name_of other)) [
  | inl e ↦ rw e refl
  | inr e ↦ rw e refl
]

add_node_seen :
    (st : Dedup) (node : ConnNodeEntry)
    → (is_set node.node_name && not (contains_text (name_of node) st.node_set)) ≡ false
    → add_node st node ≡ st
add_node_seen st node h = rw h refl

add_node_new :
    (st : Dedup) (node : ConnNodeEntry)
    → (is_set node.node_name && not (contains_text (name_of node) st.node_set)) ≡ true
    → add_node st node ≡ record {
      node_set = name_of node ∷ st.node_set;
      nodes_deduped = st.nodes_deduped ++ node ∷ [];
    }
add_node_new st node h = rw h refl

-- What the node adds, for the list after it.
step_first_nodes :
    (st next : Dedup) (node : ConnNodeEntry) (nodes rest : List ConnNodeEntry)
    → add_node st node ≡ next
    → (add_nodes next nodes).nodes_deduped ≡ rest
    → (add_nodes (add_node st node) nodes).nodes_deduped ≡ rest
step_first_nodes st next node nodes rest e h = ap (λ s. (add_nodes s nodes).nodes_deduped) e ∙ h

add_nodes-first_nodes :
    (st : Dedup) (nodes : List ConnNodeEntry)
    → (add_nodes st nodes).nodes_deduped
      ≡ st.nodes_deduped ++ filter (not_seen st.node_set) (first_nodes nodes)
unfolding add_nodes
add_nodes-first_nodes st [] = sym (append-nil st.nodes_deduped)
add_nodes-first_nodes st (node ∷ nodes) = elim (Bool-cases (is_set node.node_name)) [
  | inr e ↦
      step_first_nodes st st node nodes _ (add_node_seen st node (ground (arith, e)))
        (rw e (add_nodes-first_nodes st nodes))
  | inl e ↦ elim (Bool-cases (contains_text (name_of node) st.node_set)) [
    | inl h ↦ step_first_nodes st st node nodes _ (add_node_seen st node (ground (arith, e, h))) (
        rw e (
          rw h (
            add_nodes-first_nodes st nodes
            ∙ ap (λ ns. st.nodes_deduped ++ ns)
                (sym (
                  later st.node_set node nodes (not_seen st.node_set)
                    (λ other. seen_other st.node_set node other h))))))
    | inr h ↦
        let next : Dedup = record {
          node_set = name_of node ∷ st.node_set;
          nodes_deduped = st.nodes_deduped ++ node ∷ [];
        } in
        step_first_nodes st next node nodes _ (add_node_new st node (ground (arith, e, h))) (
          rw e (
            rw h (
              add_nodes-first_nodes next nodes
              ∙ append_assoc st.nodes_deduped (node ∷ [])
                  (filter (not_seen next.node_set) (first_nodes nodes))
              ∙ ap (λ ns. st.nodes_deduped ++ node ∷ ns)
                  (sym (
                    later st.node_set node nodes (not_seen next.node_set)
                      (λ other. new_other st.node_set node other))))))
  ]
]
  where
    later :
        (names : List String) (node : ConnNodeEntry) (nodes : List ConnNodeEntry)
        (p : ConnNodeEntry → Bool)
        → ((other : ConnNodeEntry) → (other_name node other && not_seen names other) ≡ p other)
        → filter (not_seen names) (filter (other_name node) (first_nodes nodes))
          ≡ filter p (first_nodes nodes)
    later names node nodes p f =
        filter-filter (not_seen names) (other_name node) (first_nodes nodes)
        ∙ filter-congr _ _ (first_nodes nodes) (always (first_nodes nodes) f)

filter-IsPairwise {ℓ} :
    {A : Type ℓ} (le : A → A → Bool) (p : A → Bool) (xs : List A)
    → IsSorted le xs
    → IsSorted le (filter p xs)
filter-IsPairwise le p [] s = tt
filter-IsPairwise le p (x ∷ xs) (h, s) = elim (Bool-cases (p x)) [
  | inl e ↦ rw e (All-filter _ p xs h, filter-IsPairwise le p xs s)
  | inr e ↦ rw e (filter-IsPairwise le p xs s)
]

first_nodes_distinct : (nodes : List ConnNodeEntry) → IsSorted other_name (first_nodes nodes)
first_nodes_distinct [] = tt
first_nodes_distinct (node ∷ nodes) = elim (Bool-cases (is_set node.node_name)) [
  | inl e ↦ rw e (
    filter-All (other_name node) (first_nodes nodes),
    filter-IsPairwise other_name (other_name node) (first_nodes nodes) (first_nodes_distinct nodes),
  )
  | inr e ↦ rw e (first_nodes_distinct nodes)
]

-- If the order of names is transitive and total, the nodes returned stand in the order of their
-- names, and they are, of the nodes of the response that have each label that is asked for with its
-- text, and some NodeName and CapabilityPing, none of these empty, those with a name, each without
-- the later ones of its name, so that no two share a name. A request that fails gives no node.
pub get_current_pinger_options_lem :
    (name_le : String → String → Bool)
    → ((a b c : String) → name_le a b ≡ true → name_le b c ≡ true → name_le a c ≡ true)
    → ((a b : String) → name_le a b ≡ false → name_le b a ≡ true)
    → (extra_labels : Option (Assoc String String)) (nodes : List ConnNodeEntry)
    → (offered : ConnNodeEntry → Bool) × ((node : ConnNodeEntry)
        → (offered node ≡ true) ↔ IsOffered (or_else extra_labels []) node.attributes)
      × IsSorted
          (λ a b. name_le (name_of a) (name_of b))
          (get_current_pinger_options name_le extra_labels (some nodes))
      × Perm
          (get_current_pinger_options name_le extra_labels (some nodes))
          (first_nodes (filter offered nodes))
      × IsSorted other_name (first_nodes (filter offered nodes))
      × (get_current_pinger_options name_le extra_labels none ≡ [])
unfolding get_current_pinger_options sort_and_dedup
get_current_pinger_options_lem name_le trans total extra_labels nodes =
    let by_name : ConnNodeEntry → ConnNodeEntry → Bool = λ a b. name_le (name_of a) (name_of b) in
    let offered : List ConnNodeEntry = filter (is_pinger extra_labels) nodes in
    let start : Dedup = record { node_set = []; nodes_deduped = [] } in
    let kept : List ConnNodeEntry = (add_nodes start offered).nodes_deduped in
    let same : kept ≡ first_nodes offered =
      add_nodes-first_nodes start offered
      ∙ filter-true (not_seen []) (first_nodes offered)
          (always (first_nodes offered) (λ n. refl)) in
    (
      is_pinger extra_labels,
      is_pinger_iff extra_labels,
      sort_by-IsSorted by_name (λ a b c. trans (name_of a) (name_of b) (name_of c))
          (λ a b. total (name_of a) (name_of b)) kept,
      subst (λ ns. Perm (sort_by by_name kept) ns) same (sort_by-perm by_name kept),
      first_nodes_distinct offered,
      refl,
    )
