-- ===== src/Trace/Peer.antt =====
-- trace.ts: PeerStats, the statistics of one peer at a hop.
pub mod Counts
pub mod Times
use rbmq_demo.Common.{
  ℕ, ◌+◌, ◌/◌, String, Option, none, some, List, [], ◌∷◌, ◌++◌, Bool, true, false, not, ◌==◌,
  string_key, nat_beq, ltb, leb, if◌then◌else◌,
}
use rbmq_demo.Common.Sort.{sort_by}
use rbmq_demo.Trace.{TraceEvent, or_else}

-- `min_rtt` and `max_rtt` are none for the -1 of a peer that has not answered.
pub record PeerStats (L : Type 0) : Type 0 where
  pub peer : String
  pub peer_rdns : String
  pub asn : String
  pub isp : String
  pub city : String
  pub country_alpha2 : String
  pub events : List (TraceEvent L)
  pub received_count : ℕ
  pub loss_count : ℕ
  pub min_rtt : Option ℕ
  pub max_rtt : Option ℕ
  pub total_rtt : ℕ
  pub pmtu : Option ℕ

-- `a || b` on texts.
abbrev pub either_text : String → String → String
either_text a b = if a == "" then b else a

-- `this.MinRTT === -1 || rtt < this.MinRTT ? rtt : this.MinRTT`
abbrev pub lower : Option ℕ → ℕ → ℕ
lower none rtt = rtt
lower (some least) rtt = if ltb rtt least then rtt else least

abbrev pub higher : Option ℕ → ℕ → ℕ
higher none rtt = rtt
higher (some most) rtt = if ltb most rtt then rtt else most

-- `a ?? b`
abbrev pub either_number : Option ℕ → Option ℕ → Option ℕ
either_number none b = b
either_number (some a) b = some a

module _ {L : Type 0} where
  abbrev pub new_peer : PeerStats L
  new_peer = record {
    peer = "";
    peer_rdns = "";
    asn = "";
    isp = "";
    city = "";
    country_alpha2 = "";
    events = [];
    received_count = 0;
    loss_count = 0;
    min_rtt = none;
    max_rtt = none;
    total_rtt = 0;
    pmtu = none;
  }

  -- `AvgRTT`
  unfoldable pub avg_rtt : PeerStats L → ℕ
  avg_rtt p = if nat_beq p.received_count 0 then 0 else p.total_rtt / p.received_count

  -- `[...this.Events, ev].sort((a, b) => a.Seq - b.Seq)`
  abbrev pub add_event : List (TraceEvent L) → TraceEvent L → List (TraceEvent L)
  add_event events ev = sort_by (λ a b. leb a.seq b.seq) (events ++ ev ∷ [])

  abbrev pub write_timeout : PeerStats L → TraceEvent L → PeerStats L
  write_timeout p ev = record {
    peer = either_text p.peer ev.peer;
    peer_rdns = p.peer_rdns;
    asn = p.asn;
    isp = p.isp;
    city = p.city;
    country_alpha2 = p.country_alpha2;
    events = add_event p.events ev;
    received_count = p.received_count;
    loss_count = p.loss_count + 1;
    min_rtt = p.min_rtt;
    max_rtt = p.max_rtt;
    total_rtt = p.total_rtt;
    pmtu = p.pmtu;
  }

  abbrev pub write_reply : PeerStats L → TraceEvent L → PeerStats L
  write_reply p ev = record {
    peer = either_text p.peer ev.peer;
    peer_rdns = either_text ev.peer_rdns p.peer_rdns;
    asn = either_text ev.asn p.asn;
    isp = either_text ev.isp p.isp;
    city = either_text ev.city p.city;
    country_alpha2 = either_text ev.country_alpha2 p.country_alpha2;
    events = add_event p.events ev;
    received_count = p.received_count + 1;
    loss_count = p.loss_count;
    min_rtt = some (lower p.min_rtt ev.rtt_ms);
    max_rtt = some (higher p.max_rtt ev.rtt_ms);
    total_rtt = p.total_rtt + ev.rtt_ms;
    pmtu = either_number ev.pmtu p.pmtu;
  }

  -- `PeerStats.WriteEvent`
  unfoldable pub write_peer : PeerStats L → TraceEvent L → PeerStats L
  write_peer p ev = if ev.timeout then write_timeout p ev else write_reply p ev
