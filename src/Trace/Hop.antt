-- ===== src/Trace/Hop.antt =====
-- trace.ts: HopGroup, the peers that answered at one hop.
pub mod Peers
pub mod Filed
use rbmq_demo.Common.{
  ℕ, String, Option, none, some, List, [], ◌∷◌, Bool, true, false, ◌||◌, ◌==◌, string_key, leb,
  last?, if◌then◌else◌,
}
use rbmq_demo.Common.Dict.{Assoc, get, keys}
use rbmq_demo.Common.Sort.{sort_by}
use rbmq_demo.Common.Groups.{write_group}
use rbmq_demo.Trace.{TraceEvent}
use rbmq_demo.Trace.Peer.{PeerStats, new_peer, write_peer}

pub record HopGroup (L : Type 0) : Type 0 where
  pub ttl : ℕ
  pub peers : Assoc String (PeerStats L)
  pub peer_order : List String

-- The comparator of the sort is at most 0: 1 if the first peer has no events, then -1 if the
-- second has none, then the difference of the last sequence numbers, the greater first.
abbrev pub seq_before : Option ℕ → Option ℕ → Bool
seq_before none b = false
seq_before (some a) none = true
seq_before (some a) (some b) = leb b a

module _ {L : Type 0} where
  abbrev pub new_hop : ℕ → HopGroup L
  new_hop ttl = record { ttl = ttl; peers = []; peer_order = [] }

  -- The key that an event is filed under.
  abbrev pub peer_key : TraceEvent L → String
  peer_key ev = if ev.timeout || ev.peer == "" then "*" else ev.peer

  abbrev pub seq_of : Option (TraceEvent L) → Option ℕ
  seq_of none = none
  seq_of (some ev) = some ev.seq

  -- The sequence number of the last event, none without events.
  abbrev pub last_seq : Option (PeerStats L) → Option ℕ
  last_seq none = none
  last_seq (some p) = seq_of (last? p.events)

  abbrev pub peer_before : Assoc String (PeerStats L) → String → String → Bool
  peer_before peers a b = seq_before (last_seq (get peers a)) (last_seq (get peers b))

  -- `newPeers`
  unfoldable pub write_peers :
      Assoc String (PeerStats L) → TraceEvent L → Assoc String (PeerStats L)
  unfolding write_group write_peer
  write_peers peers ev = write_group peer_key (λ k. new_peer) write_peer peers ev

  -- `HopGroup.WriteEvent`
  unfoldable pub write_hop : HopGroup L → TraceEvent L → HopGroup L
  unfolding write_peers sort_by get
  write_hop g ev = record {
    ttl = g.ttl;
    peers = write_peers g.peers ev;
    peer_order = sort_by (peer_before (write_peers g.peers ev)) (keys (write_peers g.peers ev));
  }
