-- ===== src/Tests/Trace.antt =====
-- web/apis/trace.ts on a short traceroute.
use rbmq_demo.Common.{
  ℕ, String, ◌≡◌, ◌↔◌, filter, refl, List, [], ◌∷◌, none, Bool, true, false, length, string_key,
  nat_key,
}
use mathlib.Core.List.{Perm}
use rbmq_demo.Common.Dict.{get}
use rbmq_demo.Common.Sort.{IsSorted}
use rbmq_demo.Trace.{TraceEvent}
use rbmq_demo.Trace.Hop.{write_hop}
use rbmq_demo.Trace.Stats.{write_trace}
use rbmq_demo.Trace.Peer.Counts.{peer_of, replies, timeouts, rtts, total, by_seq, peer_of-counts}
use rbmq_demo.Trace.Hop.Filed.{IsFiled}
use rbmq_demo.Trace.Hop.Peers.{hop_of, HasStats, get-hop_of}
use rbmq_demo.Trace.Stats.Hops.{trace_of, hop_of_some, at_hop, kept, get-trace_of}

-- Locations are not looked at.
abbrev Ev : Type 0
Ev = TraceEvent ℕ

abbrev reply : (seq rtt_ms origin_ttl : ℕ) → String → Bool → Ev
reply seq rtt_ms origin_ttl peer last_hop = record {
  err = "";
  seq = seq;
  rtt_ms = rtt_ms;
  peer = peer;
  peer_rdns = "";
  ip_packet_size = 64;
  timeout = false;
  asn = "";
  isp = "";
  country_alpha2 = "";
  city = "";
  exact_location = none;
  ttl = 60;
  origin_ttl = origin_ttl;
  last_hop = last_hop;
  pmtu = none;
}

abbrev lost : (seq origin_ttl : ℕ) → Ev
lost seq origin_ttl = record {
  err = "";
  seq = seq;
  rtt_ms = 0;
  peer = "";
  peer_rdns = "";
  ip_packet_size = 0;
  timeout = true;
  asn = "";
  isp = "";
  country_alpha2 = "";
  city = "";
  exact_location = none;
  ttl = 0;
  origin_ttl = origin_ttl;
  last_hop = false;
  pmtu = none;
}

-- The second event comes late, the third is lost, and the last is from the last hop.
abbrev pub run : List Ev
run =
    reply 2 9 1 "10.0.0.1" false
    ∷ reply 1 4 1 "10.0.0.1" false
    ∷ lost 3 1
    ∷ reply 4 30 3 "10.0.0.3" false
    ∷ reply 5 20 2 "10.0.0.2" true
    ∷ []

hop_order_runs : (trace_of run).hop_order ≡ 1 ∷ 2 ∷ []
unfolding write_trace
hop_order_runs = refl

peer_order_runs : (hop_of 1 run).peer_order ≡ "10.0.0.2" ∷ "10.0.0.3" ∷ "*" ∷ "10.0.0.1" ∷ []
unfolding write_hop
peer_order_runs = refl

peer_of-counts_example :
    ((peer_of run).received_count ≡ length (replies run))
    × ((peer_of run).loss_count ≡ length (timeouts run))
    × ((peer_of run).total_rtt ≡ total (rtts run))
    × IsSorted by_seq (peer_of run).events
    × Perm (peer_of run).events run
peer_of-counts_example = peer_of-counts run

-- A timeout that names a peer is filed under "*" all the same.
named_timeout_run :
    (hop_of 1
      (record (lost 7 1) { peer = "10.0.0.9" } ∷ reply 8 2 1 "10.0.0.9" false ∷ [])).peer_order
    ≡ "10.0.0.9" ∷ "*" ∷ []
unfolding write_hop
named_timeout_run = refl

get-hop_of_example :
    (filed : Ev → Bool) × ((ev : Ev) → (filed ev ≡ true) ↔ IsFiled "10.0.0.1" ev)
    × HasStats (get (hop_of 1 run).peers "10.0.0.1") (filter filed run)
get-hop_of_example = get-hop_of 1 run "10.0.0.1"

get-trace_of_example : get (trace_of run).hops 1 ≡ hop_of_some 1 (at_hop 1 (kept run))
get-trace_of_example = get-trace_of run 1
