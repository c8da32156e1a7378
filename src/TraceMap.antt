-- ===== src/TraceMap.antt =====
-- web/components/traceroutedisplay.tsx: what the display draws of a trace on the map.
-- `to_geodesic_paths` stands for the function of web/components/worldmap.tsx, which computes with
-- floats, and `L` for the longitude and latitude of a location.
pub mod Markers
pub mod Placed
pub mod NodeText
use rbmq_demo.Common.{
  ℕ, ◌*◌, String, Option, none, some, List, [], ◌∷◌, ◌++◌, map, Bool, true, false, not, ◌&&◌, ◌||◌,
  leb, ltb, nat_beq, nat_key, string_key, if◌then◌else◌,
}
use rbmq_demo.Common.Decimal.{texts, number_text}
use rbmq_demo.Common.Dict.{Assoc, get}
use rbmq_demo.Common.Options.{◌>>=◌}
use rbmq_demo.Nodes.{ConnNodeEntry}
use rbmq_demo.Report.{join, push_set, TracerouteReport, TracerouteReportMode}
use rbmq_demo.Trace.{TraceEvent, is_set, or_else}
use rbmq_demo.Trace.Peer.{PeerStats, avg_rtt}
use rbmq_demo.Trace.Hop.{HopGroup}
use rbmq_demo.Trace.Stats.{TraceStats}
use rbmq_demo.Colors.{LatencyColor, get_latency_color}

-- The text of the tooltip is left out. A marker of a source has no number of hops.
pub record Marker (L : Type 0) : Type 0 where
  pub lon_lat : Option L
  pub fill : LatencyColor
  pub radius : Option ℕ
  pub stroke_width : Option ℕ
  pub index : Option String
  pub ttl : Option ℕ

-- A path in green of this width.
pub record DrawnPath (P : Type 0) : Type 0 where
  pub path : P
  pub stroke_width : ℕ

pub record MarkersAndPaths (L P : Type 0) : Type 0 where
  pub markers : List (Marker L)
  pub extra_paths : Option (List (DrawnPath P))

abbrev pub concat_map {ℓ κ} : {A : Type ℓ} {B : Type κ} → (A → List B) → List A → List B
concat_map f [] = []
concat_map f (x ∷ xs) = f x ++ concat_map f xs

-- `m.radius ? m.radius * ratio : undefined`
abbrev pub scale : ℕ → Option ℕ → Option ℕ
scale ratio none = none
scale ratio (some n) = if nat_beq n 0 then none else some (n * ratio)

module _ {L : Type 0} where
  abbrev pub or_later : Option L → Option L → Option L
  or_later none later = later
  or_later (some loc) later = some loc

  -- The location of the first event that has one and is no timeout.
  unfoldable pub located : List (TraceEvent L) → Option L
  located [] = none
  located (ev ∷ evs) =
      let later = located evs in if not ev.timeout then or_later ev.exact_location later else later

  abbrev pub sample_marker : ℕ → PeerStats L → L → Marker L
  unfolding get_latency_color avg_rtt number_text
  sample_marker hop_ttl p loc = record {
    lon_lat = some loc;
    fill = get_latency_color (some (avg_rtt p));
    radius = some 8;
    stroke_width = some 3;
    index = some (texts ("TTL=" ∷ number_text hop_ttl ∷ ", IP=" ∷ p.peer ∷ []));
    ttl = some hop_ttl;
  }

  abbrev pub marker_if : ℕ → PeerStats L → Option L → List (Marker L)
  marker_if hop_ttl p none = []
  marker_if hop_ttl p (some loc) = sample_marker hop_ttl p loc ∷ []

  abbrev pub peer_markers : ℕ → Option (PeerStats L) → List (Marker L)
  unfolding located
  peer_markers hop_ttl none = []
  peer_markers hop_ttl (some p) =
      if nat_beq p.received_count 0 then [] else marker_if hop_ttl p (located p.events)

  abbrev pub hop_markers : ℕ → Option (HopGroup L) → List (Marker L)
  hop_markers hop_ttl none = []
  hop_markers hop_ttl (some hop) =
      concat_map (λ key. peer_markers hop_ttl (get hop.peers key)) hop.peer_order

  unfoldable pub sample_markers : TraceStats L → List (Marker L)
  unfolding get
  sample_markers s = concat_map (λ hop_ttl. hop_markers hop_ttl (get s.hops hop_ttl)) s.hop_order

  abbrev pub scaled : ℕ → Marker L → Marker L
  scaled ratio m = record m {
    radius = scale ratio m.radius;
    stroke_width = scale ratio m.stroke_width;
  }

  module _ {P : Type 0} (to_geodesic_paths : L → L → List P) (ratio : ℕ) where
    abbrev pub leg : Option L → Option L → List (DrawnPath P)
    leg (some here) (some there) =
        map (λ p. record { path = p; stroke_width = 4 * ratio }) (to_geodesic_paths here there)
    leg _ _ = []

    unfoldable pub sample_paths : List (Marker L) → List (DrawnPath P)
    sample_paths [] = []
    sample_paths (m ∷ []) = []
    sample_paths (m ∷ n ∷ ms) = leg m.lon_lat n.lon_lat ++ sample_paths (n ∷ ms)

    abbrev pub src_paths : List (Marker L) → List (Marker L) → List (DrawnPath P)
    src_paths [] samples = []
    src_paths (src ∷ srcs) [] = []
    src_paths (src ∷ srcs) (first ∷ samples) = leg src.lon_lat first.lon_lat

    abbrev pub unless_nil : List (DrawnPath P) → Option (List (DrawnPath P))
    unless_nil [] = none
    unless_nil (p ∷ ps) = some (p ∷ ps)

    unfoldable pub get_markers_and_paths :
        Option (TraceStats L) → List (Marker L) → MarkersAndPaths L P
    unfolding sample_markers sample_paths
    get_markers_and_paths none source_markers = record { markers = []; extra_paths = none }
    get_markers_and_paths (some s) source_markers =
        let samples : List (Marker L) = sample_markers s in
        record {
          markers = map (scaled ratio) (source_markers ++ samples);
          extra_paths = unless_nil (src_paths source_markers samples ++ sample_paths samples);
        }
