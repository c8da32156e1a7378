-- ===== src/PingMap.antt =====
-- web/components/pingdisplay.tsx: the markers that the row of a target puts on the map, and the
-- line about a sample. A point is the pair of its longitude and its latitude.
pub mod Markers
use Prim.Native.Char.{code}
use rbmq_demo.Common.{
  ℕ, nat_beq, ◌&&◌, ◌*◌, ◌/◌, String, Option, none, some, List, [], ◌∷◌, ◌++◌, map, filter, take,
  Bool, true, false, not, ◌||◌, ◌==◌, leb, string_key, if◌then◌else◌,
}
use rbmq_demo.Common.Decimal.{texts, number_text}
use rbmq_demo.Common.Groups.{foldl}
use rbmq_demo.Common.Options.{◌>>=◌}
use rbmq_demo.Common.Sort.{sort_by}
use rbmq_demo.NodeGroups.{NodeGroup}
use rbmq_demo.Nodes.{ConnNodeEntry, name_of}
use rbmq_demo.PingTable.{TableCellDataMap, get_latest_data_from_map}
use rbmq_demo.Report.{join, format_num_str}
use rbmq_demo.Samples.{PingSample}
use rbmq_demo.Trace.{is_set, or_else}
use rbmq_demo.Colors.{LatencyColor, color_grey, get_latency_color}
use rbmq_demo.TraceMap.{Marker}
use rbmq_demo.TraceMap.NodeText.{printed}

-- The colour of a latency in nanoseconds: all ends of the ranges are whole milliseconds.
abbrev pub ns_color : ℕ → LatencyColor
unfolding get_latency_color
ns_color n = get_latency_color (some (n / 1000000))

abbrev pub same_index : Option String → String → Bool
same_index none index = false
same_index (some i) index = i == index

-- The numbers that are there.
abbrev pub push_latency : Option ℕ → List ℕ → List ℕ
push_latency none rest = rest
push_latency (some n) rest = n ∷ rest

-- The colour of the least latency.
unfoldable pub least_color : List ℕ → LatencyColor
unfolding ns_color sort_by
least_color latencies = first_color (sort_by leb latencies)
  where
    first_color : List ℕ → LatencyColor
    first_color [] = color_grey
    first_color (n ∷ ns) = ns_color n

module _ {L : Type 0} where
  -- `marker.index === index`
  abbrev pub has_index : String → Marker L → Bool
  has_index index m = same_index m.index index

  abbrev pub any_index : String → List (Marker L) → Bool
  any_index index [] = false
  any_index index (m ∷ ms) = has_index index m || any_index index ms

  abbrev pub other_index : String → Marker L → Bool
  other_index index m = not (has_index index m)

  abbrev pub index_of_sample : PingSample L → String
  unfolding number_text
  index_of_sample sample =
      texts ("TTL=" ∷ number_text sample.ttl ∷ ", IP=" ∷ printed sample.peer ∷ [])

  abbrev pub marker_of : ℕ → PingSample L → L → ℕ → Marker L
  unfolding ns_color index_of_sample
  marker_of ratio sample loc latency = record {
    lon_lat = some loc;
    fill = ns_color latency;
    radius = some (8 * ratio);
    stroke_width = some (3 * ratio);
    index = some (index_of_sample sample);
    ttl = none;
  }

  -- The marker of a sample, none where the source returns early.
  unfoldable pub sample_marker_of : ℕ → PingSample L → Option (Marker L)
  unfolding marker_of
  sample_marker_of ratio sample = sample.peer_exact_location >>= λ loc.
      sample.latency_ns >>= λ latency. some (marker_of ratio sample loc latency)

  abbrev pub push_marker : String → Marker L → List (Marker L) → List (Marker L)
  push_marker index marker ms =
      (if any_index index ms then filter (other_index index) ms else ms) ++ marker ∷ []

  abbrev pub push_if : String → Option (Marker L) → List (Marker L) → List (Marker L)
  push_if index none ms = ms
  push_if index (some marker) ms = push_marker index marker ms

  unfoldable pub update_markers : ℕ → List (Marker L) → PingSample L → List (Marker L)
  unfolding sample_marker_of index_of_sample
  update_markers ratio ms sample =
      push_if (index_of_sample sample) (sample_marker_of ratio sample) ms

  -- The samples of the sources one after the other, and at most 100 markers.
  unfoldable pub all_markers :
      ℕ → TableCellDataMap L → String → List (Marker L) → List String → List (Marker L)
  unfolding update_markers get_latest_data_from_map
  all_markers ratio m target ms [] = ms
  all_markers ratio m target ms (source ∷ sources) =
      all_markers ratio m target
        (foldl (update_markers ratio) ms (get_latest_data_from_map m target source).history_samples)
        sources

  unfoldable pub extra_markers : ℕ → TableCellDataMap L → String → List String → List (Marker L)
  unfolding all_markers
  extra_markers ratio m target sources = take 100 (all_markers ratio m target [] sources)

  -- The latencies of the nodes with a name. A number of nanoseconds is finite and no less than 0.
  unfoldable pub latencies_of : TableCellDataMap L → String → List ConnNodeEntry → List ℕ
  unfolding get_latest_data_from_map
  latencies_of m target [] = []
  latencies_of m target (node ∷ nodes) =
      let rest = latencies_of m target nodes in
      if is_set node.node_name
      then push_latency (get_latest_data_from_map m target (name_of node)).latency rest
      else rest

-- `[a-zA-Z0-9._-]`
abbrev pub is_prefix_code : ℕ → Bool
is_prefix_code c =
    (leb b'a' c && leb c b'z')
    || (leb b'A' c && leb c b'Z')
    || (leb b'0' c && leb c b'9')
    || nat_beq c b'.'
    || nat_beq c b'_'
    || nat_beq c b'-'

-- What stands behind the first slash, none if the expression does not match; `seen` is whether a
-- letter has been read.
unfoldable pub after_prefix : Bool → String → Option String
after_prefix seen String.[] = none
after_prefix seen (String.◌∷◌ c s) =
    let rest = after_prefix true s in
    if is_prefix_code (code c) then rest else if nat_beq (code c) b'/' && seen then some s else none

unfoldable pub trim_prefix : String → String
unfolding after_prefix
trim_prefix full_node_name = or_else (after_prefix false full_node_name) full_node_name

abbrev pub upper_if : (String → String) → Option String → Option String
unfolding trim_prefix
upper_if to_upper_case name =
    if is_set name then some (to_upper_case (trim_prefix (or_else name ""))) else none

abbrev pub first_name : List ConnNodeEntry → Option String
first_name [] = none
first_name (node ∷ nodes) = node.node_name

-- The marker of a group of nodes, whose index is the name of its first node.
module _ {F : Type 0} (to_upper_case : String → String) where
  unfoldable pub group_marker : ℕ → TableCellDataMap (F × F) → String → NodeGroup F → Marker (F × F)
  unfolding latencies_of least_color upper_if
  group_marker ratio m target group = record {
    lon_lat = some (group.lat_lon.1, group.lat_lon.0);
    fill = least_color (latencies_of m target group.nodes);
    radius = some (8 * ratio);
    stroke_width = some (3 * ratio);
    index = upper_if to_upper_case (first_name group.nodes);
    ttl = none;
  }

  -- `markers` of the row of a target.
  unfoldable pub row_markers :
      ℕ
      → TableCellDataMap (F × F)
      → String
      → List String
      → List (NodeGroup F)
      → List (Marker (F × F))
  unfolding group_marker extra_markers
  row_markers ratio m target sources groups =
      map (group_marker ratio m target) groups ++ extra_markers ratio m target sources

abbrev pub seg_if {ℓ} : {A : Type ℓ} → (A → List String) → Option A → List String
seg_if f none = []
seg_if f (some a) = texts (f a) ∷ []

abbrev pub numbered : String → Option ℕ → List String
unfolding number_text
numbered label n = seg_if (λ k. label ∷ number_text k ∷ []) n

-- The line about a sample: `to_fixed` is the text of a number with three decimals.
module _ {L : Type 0} (to_fixed : ℕ → String) where
  abbrev pub from_seg : PingSample L → List String
  from_seg sample =
      if is_set sample.peer
      then (if is_set sample.peer_rdns
          then texts
              ("from " ∷ or_else sample.peer_rdns "" ∷ " (" ∷ or_else sample.peer "" ∷ "):" ∷ [])
          else texts ("from " ∷ or_else sample.peer "" ∷ ":" ∷ []))
        ∷ []
      else []

  unfoldable pub sample_line : PingSample L → String
  unfolding numbered format_num_str number_text
  sample_line sample =
      if sample.is_timeout
      then join " "
          ("Timeout:" ∷ numbered "seq=" (some sample.seq) ++ numbered "ttl=" (some sample.ttl))
      else join " " (
          seg_if (λ n. number_text n ∷ " bytes" ∷ []) sample.received_size
          ++ from_seg sample
          ++ numbered "seq=" (some sample.seq)
          ++ numbered "ttl=" sample.received_ttl
          ++ numbered "mss=" sample.mss
          ++ seg_if (λ n. "time=" ∷ format_num_str (to_fixed n) ∷ "ms" ∷ []) sample.latency_ns)
