-- ===== src/Tests/TraceMap.antt =====
-- web/components/traceroutedisplay.tsx: a trace of three events, and the report of a node.
use rbmq_demo.Common.{
  ◌≡◌, refl, ℕ, String, Option, none, some, List, [], ◌∷◌, filter, false, string_key, nat_key,
}
use rbmq_demo.Common.Dict.{get}
use rbmq_demo.Common.Sort.{IsSorted}
use rbmq_demo.Nodes.{ConnNodeEntry}
use rbmq_demo.Trace.{TraceEvent}
use rbmq_demo.Trace.Stats.Hops.{trace_of, hop_of_some, at_hop, kept}
use rbmq_demo.Colors.{get_latency_color, color_green, color_yellow, color_red}
use rbmq_demo.TraceMap.{sample_markers}
use rbmq_demo.TraceMap.Markers.{markers_at}
use rbmq_demo.TraceMap.NodeText.{network_of, from_line, node_infos}
use rbmq_demo.TraceMap.Placed.{no_later, is_at, sample_markers-trace_of}

abbrev reply : ℕ → String → Option ℕ → TraceEvent ℕ
reply hop peer location = record {
  err = "";
  seq = hop;
  rtt_ms = 7;
  peer = peer;
  peer_rdns = "";
  ip_packet_size = 64;
  timeout = false;
  asn = "";
  isp = "";
  country_alpha2 = "";
  city = "";
  exact_location = location;
  ttl = 60;
  origin_ttl = hop;
  last_hop = false;
  pmtu = none;
}

-- The second hop has no location.
abbrev run : List (TraceEvent ℕ)
run = reply 3 "c" (some 30) ∷ reply 1 "a" (some 10) ∷ reply 2 "b" none ∷ []

sample_markers-trace_of_example :
    let ms = sample_markers (trace_of run) in
    IsSorted no_later ms
    × ((ttl : ℕ) → filter (is_at ttl) ms ≡ markers_at ttl (hop_of_some ttl (at_hop ttl (kept run))))
sample_markers-trace_of_example = sample_markers-trace_of run

colors_run :
    (get_latency_color (some 99) ≡ color_green)
    × (get_latency_color (some 100) ≡ color_yellow)
    × (get_latency_color (some 250) ≡ color_red)
unfolding get_latency_color
colors_run = (refl, refl, refl)

abbrev dn42_node : ConnNodeEntry
dn42_node = record {
  attributes = some (("ProviderASN", "AS1") ∷ ("DN42ProviderName", "Burble") ∷ []);
  node_name = some "a";
}

-- The number of the network that is not there is printed.
undefined_run :
    (network_of dn42_node ≡ "AS1 | undefined Burble")
    × (from_line (λ t. t) dn42_node ≡ "Node a, AS1")
unfolding network_of from_line node_infos get
undefined_run = (refl, refl)
