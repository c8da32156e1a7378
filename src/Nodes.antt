-- ===== src/Nodes.antt =====
-- web/apis/globalping.ts: the nodes that can run a ping, without repeats and by name.
-- `localeCompare` depends on the locale: `name_le a b`, which stands for
-- `a.localeCompare(b) <= 0`, is a parameter.
pub mod First
pub mod Offered
use rbmq_demo.Common.{
  String, Option, List, [], ◌∷◌, ◌++◌, Bool, false, ◌&&◌, not, none, some, ◌==◌, string_key, all,
  filter, if◌then◌else◌,
}
use rbmq_demo.Common.Dict.{Assoc, get}
use rbmq_demo.Common.Sort.{sort_by}
use rbmq_demo.Trace.{is_set, or_else}
use rbmq_demo.IpQuery.{contains_text}

pub record ConnNodeEntry : Type 0 where
  pub attributes : Option (Assoc String String)
  pub node_name : Option String

-- The local variables of the loop.
pub record Dedup : Type 0 where
  pub node_set : List String
  pub nodes_deduped : List ConnNodeEntry

abbrev pub name_of : ConnNodeEntry → String
name_of node = or_else node.node_name ""

abbrev pub add_node : Dedup → ConnNodeEntry → Dedup
add_node st node =
    if is_set node.node_name && not (contains_text (name_of node) st.node_set)
    then record {
      node_set = name_of node ∷ st.node_set;
      nodes_deduped = st.nodes_deduped ++ node ∷ [];
    }
    else st

unfoldable pub add_nodes : Dedup → List ConnNodeEntry → Dedup
add_nodes st [] = st
add_nodes st (node ∷ nodes) = add_nodes (add_node st node) nodes

unfoldable pub sort_and_dedup : (String → String → Bool) → List ConnNodeEntry → List ConnNodeEntry
unfolding add_nodes
sort_and_dedup name_le nodes =
    sort_by (λ a b. name_le (name_of a) (name_of b))
      (add_nodes (record { node_set = []; nodes_deduped = [] }) nodes).nodes_deduped

-- The labels of a node, each with the text that is asked for.
abbrev pub has_label : Assoc String String → String × String → Bool
has_label attributes (key, value) =
    is_set (get attributes key) && or_else (get attributes key) "" == value

abbrev pub is_pinger : Option (Assoc String String) → ConnNodeEntry → Bool
is_pinger extra_labels node = offers node.attributes
  where
    offers : Option (Assoc String String) → Bool
    offers none = false
    offers (some attributes) =
        all (has_label attributes) (or_else extra_labels [])
        && is_set (get attributes "NodeName")
        && is_set (get attributes "CapabilityPing")

-- The response is none if the request or its decoding fails, else the objects in it.
unfoldable pub get_current_pinger_options :
    (String → String → Bool)
    → Option (Assoc String String)
    → Option (List ConnNodeEntry)
    → List ConnNodeEntry
unfolding sort_and_dedup
get_current_pinger_options name_le extra_labels none = []
get_current_pinger_options name_le extra_labels (some nodes) =
    sort_and_dedup name_le (filter (is_pinger extra_labels) nodes)
