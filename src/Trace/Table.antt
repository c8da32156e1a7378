-- ===== src/Trace/Table.antt =====
-- trace.ts: ToTable, the statistics laid out as text, two rows a peer.
pub mod Rows
use Prim.Native.String.{◌++◌ as append_text}
use rbmq_demo.Common.{
  ℕ, zero, suc, ◌+◌, ◌*◌, ◌/◌, ◌%◌, String, Option, none, some, List, [], ◌∷◌, ◌++◌, Bool, true,
  false, not, ◌&&◌, ◌||◌, ◌==◌, string_key, nat_key, nat_beq, ltb, get_elem?, if◌then◌else◌,
}
use mathlib.Core.List.{reverse}
use rbmq_demo.Common.Decimal.{texts, number_text}
use rbmq_demo.Common.Dict.{Assoc, get, is_some}
use rbmq_demo.Trace.{TraceEvent}
use rbmq_demo.Trace.Peer.{PeerStats}
use rbmq_demo.Trace.Hop.{HopGroup}
use rbmq_demo.Trace.Stats.{TraceStats}

pub record Row : Type 0 where
  pub cells : List String
  pub spacer : Bool

pub record Table : Type 0 where
  pub header : List Row
  pub rows : List Row

abbrev pub spacer_row : Row
spacer_row = record { cells = []; spacer = true }

abbrev pub from_cells : List String → Row
from_cells cells = record { cells = cells; spacer = false }

-- `min_rtt` and `max_rtt` print the -1 that they stand for.
abbrev pub rtt_text : Option ℕ → String
rtt_text none = "-1"
rtt_text (some n) = number_text n

-- `((loss / total) * 100).toFixed(0)`: the nearest whole number, the greater of two.
unfoldable pub loss_percent : ℕ → ℕ → ℕ
loss_percent loss total = if ltb 0 total then (loss * 200 + total) / (2 * total) else 0

-- Two texts with a separator between them if neither is empty.
abbrev pub joined : String → String → String → String
joined separator a b = if a == "" then b else if b == "" then a else texts (a ∷ separator ∷ b ∷ [])

abbrev pub pmtu_text : Option ℕ → String
pmtu_text none = ""
pmtu_text (some n) = texts ("[PMTU=" ∷ number_text n ∷ "]" ∷ [])

abbrev pub blank_row : Bool → List Row
blank_row true = []
blank_row false = spacer_row ∷ []

module _ {L : Type 0} where
  abbrev pub is_timeout : PeerStats L → Bool
  is_timeout p = nat_beq p.received_count 0 && ltb 0 p.loss_count

  abbrev pub peer_name : PeerStats L → String
  peer_name p =
      if is_timeout p
      then "[TIMEOUT]"
      else let name = if p.peer_rdns == "" then p.peer else p.peer_rdns in
        if name == "" || name == "*" then "*" else name

  -- The loop from the last event to the first stops at a reply.
  abbrev pub first_reply_rtt : List (TraceEvent L) → ℕ
  first_reply_rtt [] = 0
  first_reply_rtt (ev ∷ evs) = if ev.timeout then first_reply_rtt evs else ev.rtt_ms

  abbrev pub has_events : List (TraceEvent L) → Bool
  has_events [] = false
  has_events (_ ∷ _) = true

  abbrev pub rtt_cell : PeerStats L → String
  rtt_cell p =
      if is_timeout p
      then ""
      else if ltb 0 p.received_count && has_events p.events
      then texts (
          number_text (first_reply_rtt (reverse p.events))
          ∷ "ms "
          ∷ rtt_text p.min_rtt
          ∷ "ms/"
          ∷ number_text (p.total_rtt / p.received_count)
          ∷ "ms/"
          ∷ rtt_text p.max_rtt
          ∷ "ms"
          ∷ [])
      else "* */*/*"

  abbrev pub stats_cell : PeerStats L → String
  stats_cell p =
      if is_timeout p
      then ""
      else texts (
          number_text p.received_count
          ∷ "/"
          ∷ number_text (p.received_count + p.loss_count)
          ∷ "/"
          ∷ number_text (loss_percent p.loss_count (p.received_count + p.loss_count))
          ∷ "%"
          ∷ [])

  abbrev pub ip_cell : PeerStats L → String
  ip_cell p =
      let shown = not (p.peer == "") && not (p.peer == "*") && ltb 0 p.received_count in
      append_text (if shown then texts ("(" ∷ p.peer ∷ ")" ∷ []) else "(*)") (pmtu_text p.pmtu)

  -- The two rows of a peer; the first peer of a hop has the hop's number before it.
  abbrev pub peer_rows : ℕ → Bool → PeerStats L → List Row
  peer_rows ttl first p =
      from_cells (
        (if first then append_text (number_text ttl) "." else "")
        ∷ peer_name p
        ∷ rtt_cell p
        ∷ stats_cell p
        ∷ [])
      ∷ from_cells
          ("" ∷ ip_cell p ∷ joined " " p.asn p.isp ∷ joined "," p.city p.country_alpha2 ∷ [])
      ∷ []

  -- The loop over the peers: one without statistics is left out.
  unfoldable pub peers_rows : ℕ → Bool → Assoc String (PeerStats L) → List String → List Row
  unfolding get number_text loss_percent
  peers_rows ttl first peers [] = []
  peers_rows ttl first peers (key ∷ order) =
      shown (get peers key) (peers_rows ttl first peers order) (peers_rows ttl false peers order)
    where
      shown : Option (PeerStats L) → List Row → List Row → List Row
      shown none same later = same
      shown (some p) same later = peer_rows ttl first p ++ later

  abbrev pub hop_rows : ℕ → Option (HopGroup L) → List Row
  hop_rows ttl none = []
  hop_rows ttl (some g) = peers_rows ttl true g.peers g.peer_order

  -- The loop over the hops, with a blank row before each but the first.
  unfoldable pub hops_rows : Bool → Assoc ℕ (HopGroup L) → List ℕ → List Row
  unfolding get peers_rows
  hops_rows first hops [] = []
  hops_rows first hops (ttl ∷ order) =
      blank_row first ++ (hop_rows ttl (get hops ttl) ++ hops_rows false hops order)

  -- `TraceStats.ToTable`
  unfoldable pub to_table : TraceStats L → Table
  unfolding hops_rows
  to_table s = record {
    header =
        from_cells ("Hop" ∷ "Peer" ∷ "RTTs (Last Min/Avg/Max)" ∷ "Stats (Rx/Tx/Loss)" ∷ [])
        ∷ from_cells ("" ∷ "(IP address)" ∷ "ASN Network" ∷ "City,Country" ∷ [])
        ∷ [];
    rows = hops_rows true s.hops s.hop_order;
  }
