-- ===== src/Tests/NodeGroups.antt =====
-- web/apis/utils.ts: nodes at whole degrees of two digits, in cells of 12 degrees.
use rbmq_demo.Common.{
  ◌≡◌, refl, ℕ, ◌+◌, ◌-◌, ◌*◌, ◌/◌, Option, none, some, String, List, [], ◌∷◌, filter,
}
use rbmq_demo.Common.Codes.{Codes, codes, codes_key, split}
use rbmq_demo.Common.Dict.{get, set}
use rbmq_demo.Nodes.{ConnNodeEntry}
use rbmq_demo.NodeGroups.{get_node_lat_lon, node_groups, get_node_groups, add_conn}
use rbmq_demo.NodeGroups.Grouped.{group_of_nodes, belongs, get-node_groups}

abbrev whole : Codes → Option ℕ
whole (c ∷ d ∷ []) = some ((c - 48) * 10 + (d - 48))
whole _ = none

abbrev quotient : ℕ → ℕ → ℕ
quotient n m = n / m

abbrev digit_of : ℕ → Codes
digit_of n = (48 + n) ∷ []

abbrev placed : String → String → ConnNodeEntry
placed name loc = record { attributes = some (("ExactLocation", loc) ∷ []); node_name = some name }

abbrev conns : List ConnNodeEntry
conns = placed "a" "13,25" ∷ placed "b" "nowhere" ∷ placed "c" "50,50" ∷ placed "d" "23,35" ∷ []

groups_run :
    get_node_groups whole quotient digit_of conns ("a" ∷ "d" ∷ [])
    ≡ record {
      nodes = placed "a" "13,25" ∷ placed "d" "23,35" ∷ [];
      group_name = codes "1,2";
      lat_lon = (13, 25);
    }
      ∷ []
unfolding get_node_groups add_conn get_node_lat_lon split get set
groups_run = refl

get-node_groups_example :
    get (node_groups whole quotient digit_of ("a" ∷ "d" ∷ []) [] conns) (codes "1,2")
    ≡ group_of_nodes whole quotient digit_of
        (filter (belongs whole quotient digit_of ("a" ∷ "d" ∷ []) (codes "1,2")) conns)
get-node_groups_example =
    get-node_groups whole quotient digit_of ("a" ∷ "d" ∷ []) (codes "1,2") conns
