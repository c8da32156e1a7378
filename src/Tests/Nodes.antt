-- ===== src/Tests/Nodes.antt =====
-- web/apis/globalping.ts: a response with a repeated node, one without a name and one that cannot
-- ping. The name "ams" is first.
use rbmq_demo.Common.{
  ◌≡◌, ◌↔◌, refl, arith, ℕ, String, Option, none, some, Bool, true, false, List, [], ◌∷◌, filter,
  leb, ◌==◌, string_key, if◌then◌else◌,
}
use mathlib.Core.List.{Perm}
use rbmq_demo.Common.Dict.{get}
use rbmq_demo.Common.Sort.{IsSorted, sort_by, insert_by}
use rbmq_demo.Nodes.{ConnNodeEntry, add_nodes, name_of, sort_and_dedup, get_current_pinger_options}
use rbmq_demo.Nodes.Offered.{IsOffered}
use rbmq_demo.Nodes.First.{other_name, first_nodes, get_current_pinger_options_lem}

abbrev rank : String → ℕ
rank t = if t == "ams" then 0 else 1

abbrev name_le : String → String → Bool
name_le a b = leb (rank a) (rank b)

abbrev conn_entry : Option String → String → ConnNodeEntry
conn_entry name cap = record {
  attributes = some (("NodeName", "n") ∷ ("CapabilityPing", cap) ∷ []);
  node_name = name;
}

abbrev nodes : List ConnNodeEntry
nodes =
    conn_entry (some "fra") "true"
    ∷ conn_entry none "true"
    ∷ conn_entry (some "ams") "true"
    ∷ conn_entry (some "lon") ""
    ∷ conn_entry (some "fra") "yes"
    ∷ []

options_run :
    get_current_pinger_options name_le (some (("NodeName", "n") ∷ [])) (some nodes)
    ≡ conn_entry (some "ams") "true" ∷ conn_entry (some "fra") "true" ∷ []
unfolding get_current_pinger_options sort_and_dedup add_nodes sort_by insert_by get
options_run = refl

-- A label with another text, or one that asks for no text, is not met.
unmet_run :
    (get_current_pinger_options name_le (some (("NodeName", "m") ∷ [])) (some nodes) ≡ [])
    × (get_current_pinger_options name_le (some (("CapabilityPing", "") ∷ [])) (some nodes) ≡ [])
unfolding get_current_pinger_options sort_and_dedup add_nodes sort_by insert_by get
unmet_run = (refl, refl)

get_current_pinger_options_lem_example :
    (offered : ConnNodeEntry → Bool) × ((node : ConnNodeEntry)
      → (offered node ≡ true) ↔ IsOffered [] node.attributes)
    × IsSorted
        (λ a b. name_le (name_of a) (name_of b))
        (get_current_pinger_options name_le none (some nodes))
    × Perm
        (get_current_pinger_options name_le none (some nodes))
        (first_nodes (filter offered nodes))
    × IsSorted other_name (first_nodes (filter offered nodes))
    × (get_current_pinger_options name_le none none ≡ [])
get_current_pinger_options_lem_example =
    get_current_pinger_options_lem name_le (λ a b c. name_le_trans (rank a) (rank b) (rank c))
      (λ a b. name_le_total (rank a) (rank b)) none nodes
  where
    name_le_trans : (a b c : ℕ) → leb a b ≡ true → leb b c ≡ true → leb a c ≡ true
    name_le_trans a b c h k = ground arith

    name_le_total : (a b : ℕ) → leb a b ≡ false → leb b a ≡ true
    name_le_total a b h = ground arith
