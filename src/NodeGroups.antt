-- ===== src/NodeGroups.antt =====
-- web/apis/utils.ts: the nodes in groups by a grid of degrees. There are no floats here: `F` is
-- their type, `parse_float` is none for what is no finite number, `floor_div` is
-- `Math.floor(x / n)` and `index_text` the text of its result.
pub mod Grouped
use Prim.Native.Char.{code}
use rbmq_demo.Common.{
  ℕ, String, Option, none, some, List, [], ◌∷◌, ◌++◌, map, Bool, true, false, not, ◌&&◌, string_key,
  if◌then◌else◌,
}
use rbmq_demo.Common.Codes.{Codes, codes, codes_key, split}
use rbmq_demo.Common.Dict.{Assoc, get, set}
use rbmq_demo.IpQuery.{contains_text}
use rbmq_demo.Nodes.{ConnNodeEntry, name_of}
use rbmq_demo.Samples.{field_of}
use rbmq_demo.Trace.{is_set, or_else}

-- `conn.node_name && !sourceSet.has(conn.node_name)`
abbrev pub is_left_out : List String → ConnNodeEntry → Bool
is_left_out sources conn = is_set conn.node_name && not (contains_text (name_of conn) sources)

module _ (F : Type 0) where
  pub record NodeGroup : Type 0 where
    pub nodes : List ConnNodeEntry
    pub group_name : Codes
    pub lat_lon : F × F

module _ {F I : Type 0} (parse_float : Codes → Option F) (floor_div : F → ℕ → I)
    (index_text : I → Codes) where
  abbrev both_numbers : Option F → Option F → Option (F × F)
  both_numbers (some lat) (some lon) = some (lat, lon)
  both_numbers _ _ = none

  abbrev parse_parts : List Codes → Option (F × F)
  parse_parts (lat ∷ lon ∷ []) = both_numbers (parse_float lat) (parse_float lon)
  parse_parts _ = none

  abbrev parse_location : Option String → Option (F × F)
  unfolding split
  parse_location loc =
      if is_set loc then parse_parts (split b',' (codes (or_else loc ""))) else none

  unfoldable pub get_node_lat_lon : ConnNodeEntry → Option (F × F)
  unfolding parse_location get
  get_node_lat_lon conn =
      parse_location (field_of conn.attributes (λ attrs. get attrs "ExactLocation"))

  abbrev pub get_grid_index : F × F → I × I
  get_grid_index lat_lon = (floor_div lat_lon.0 12, floor_div lat_lon.1 12)

  abbrev pub get_grid_key : F × F → Codes
  get_grid_key lat_lon =
      let index : I × I = get_grid_index lat_lon in index_text index.0 ++ b',' ∷ index_text index.1

  abbrev pub pushed : Option (NodeGroup F) → ConnNodeEntry → F × F → NodeGroup F
  pushed none conn lat_lon = record {
    nodes = conn ∷ [];
    group_name = get_grid_key lat_lon;
    lat_lon = lat_lon;
  }
  pushed (some group) conn lat_lon = record group { nodes = group.nodes ++ conn ∷ [] }

  abbrev pub add_located :
      Assoc Codes (NodeGroup F) → ConnNodeEntry → Option (F × F) → Assoc Codes (NodeGroup F)
  unfolding get set
  add_located groups conn none = groups
  add_located groups conn (some lat_lon) =
      let key : Codes = get_grid_key lat_lon in
      set groups key (pushed (get groups key) conn lat_lon)

  unfoldable pub add_conn :
      List String → Assoc Codes (NodeGroup F) → ConnNodeEntry → Assoc Codes (NodeGroup F)
  unfolding add_located get_node_lat_lon
  add_conn sources groups conn =
      if is_left_out sources conn then groups else add_located groups conn (get_node_lat_lon conn)

  -- The groups under their keys; `Object.values` are the second components.
  unfoldable pub node_groups :
      List String → Assoc Codes (NodeGroup F) → List ConnNodeEntry → Assoc Codes (NodeGroup F)
  unfolding add_conn
  node_groups sources groups [] = groups
  node_groups sources groups (conn ∷ conns) =
      node_groups sources (add_conn sources groups conn) conns

  unfoldable pub get_node_groups : List ConnNodeEntry → List String → List (NodeGroup F)
  unfolding node_groups
  get_node_groups conns sources =
      map (λ (e : Codes × NodeGroup F). e.1) (node_groups sources [] conns)
