-- ===== src/Trace/Stats.antt =====
-- trace.ts: TraceStats, the hops of a traceroute.
pub mod Hops
use rbmq_demo.Common.{
  ℕ, Option, none, some, List, [], ◌∷◌, ◌++◌, Bool, true, false, filter, nat_key, nat_beq, leb,
  if◌then◌else◌,
}
use rbmq_demo.Common.Dict.{Assoc, get, is_some}
use rbmq_demo.Common.Sort.{sort_by}
use rbmq_demo.Common.Groups.{write_group}
use rbmq_demo.Trace.{TraceEvent}
use rbmq_demo.Trace.Hop.{HopGroup, new_hop, write_hop}

pub record TraceStats (L : Type 0) : Type 0 where
  pub hops : Assoc ℕ (HopGroup L)
  pub hop_order : List ℕ

module _ {L : Type 0} where
  abbrev pub new_trace : TraceStats L
  new_trace = record { hops = []; hop_order = [] }

  abbrev pub hop_ttl : TraceEvent L → ℕ
  hop_ttl ev = if nat_beq ev.origin_ttl 0 then 1 else ev.origin_ttl

  -- `newHops` and `newHopOrder` before the hops after the last one are removed.
  abbrev pub write_hops : TraceStats L → TraceEvent L → TraceStats L
  write_hops s ev = record {
    hops = write_group hop_ttl new_hop write_hop s.hops ev;
    hop_order =
        if is_some (get s.hops (hop_ttl ev))
        then s.hop_order
        else sort_by leb (s.hop_order ++ hop_ttl ev ∷ []);
  }

  -- The hops with at most this number. The keys of a map are distinct, so setting them one by one in
  -- a new map keeps the entries as they are.
  abbrev pub up_to : ℕ → TraceStats L → TraceStats L
  up_to last s = record {
    hops = filter (λ entry. leb entry.0 last) s.hops;
    hop_order = filter (λ ttl. leb ttl last) s.hop_order;
  }

  -- `TraceStats.WriteEvent`
  unfoldable pub write_trace : TraceStats L → TraceEvent L → TraceStats L
  unfolding write_group write_hop get sort_by
  write_trace s ev = if ev.last_hop then up_to (hop_ttl ev) (write_hops s ev) else write_hops s ev
