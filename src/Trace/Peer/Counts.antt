-- ===== src/Trace/Peer/Counts.antt =====
-- PeerStats: what the counts and the list of events are after any sequence of events.
use rbmq_demo.Common.{
  ℕ, ◌+◌, List, [], ◌∷◌, ◌++◌, Bool, not, filter, length, leb, if◌then◌else◌, ◌≡◌, refl, sym, subst,
  ap, append-nil, append_assoc, arith, Bool-cases, inl, inr, length-append,
}
use mathlib.Core.List.{Perm}
use mathlib.Core.List.Perm
use rbmq_demo.Common.Sort.{sort_by, sort_by-perm, sort_by-IsSorted, IsSorted, length-sort_by}
use rbmq_demo.Common.Groups.{foldl}
use rbmq_demo.Trace.{TraceEvent}
use rbmq_demo.Trace.Peer.{PeerStats, new_peer, write_peer}

abbrev pub total : List ℕ → ℕ
total [] = 0
total (n ∷ ns) = n + total ns

module _ {L : Type 0} where
  -- The statistics of a peer after these events.
  abbrev pub peer_of : List (TraceEvent L) → PeerStats L
  peer_of evs = foldl write_peer new_peer evs

  abbrev pub replies : List (TraceEvent L) → List (TraceEvent L)
  replies evs = filter (λ ev. not ev.timeout) evs

  abbrev pub timeouts : List (TraceEvent L) → List (TraceEvent L)
  timeouts evs = filter (λ ev. ev.timeout) evs

  abbrev pub rtts : List (TraceEvent L) → List ℕ
  rtts [] = []
  rtts (ev ∷ evs) = if ev.timeout then rtts evs else ev.rtt_ms ∷ rtts evs

  abbrev pub by_seq : TraceEvent L → TraceEvent L → Bool
  by_seq a b = leb a.seq b.seq

  counts_from :
      (evs : List (TraceEvent L)) (p : PeerStats L)
      → ((foldl write_peer p evs).received_count ≡ p.received_count + length (replies evs))
        × ((foldl write_peer p evs).loss_count ≡ p.loss_count + length (timeouts evs))
        × ((foldl write_peer p evs).total_rtt ≡ p.total_rtt + total (rtts evs))
  unfolding write_peer
  counts_from [] p = omega arith
  counts_from (ev ∷ evs) p = ground (arith, counts_from evs (write_peer p ev))

  events-write_peer :
      (p : PeerStats L) (ev : TraceEvent L)
      → (write_peer p ev).events ≡ sort_by by_seq (p.events ++ ev ∷ [])
  unfolding write_peer
  events-write_peer p ev = elim (Bool-cases ev.timeout) [ inl e ↦ rw e refl | inr e ↦ rw e refl ]

  events_from :
      (evs : List (TraceEvent L)) (p : PeerStats L)
      → IsSorted by_seq p.events
      → IsSorted by_seq (foldl write_peer p evs).events
        × Perm (foldl write_peer p evs).events (p.events ++ evs)
  events_from [] p h = (h, subst (Perm p.events) (sym (append-nil p.events)) (Perm.refl p.events))
  events_from (ev ∷ evs) p h =
      let eq = events-write_peer p ev in
      let sorted =
        sort_by-IsSorted by_seq (λ a b c k l. ground arith) (λ a b k. ground arith)
          (p.events ++ ev ∷ []) in
      let (sorted', perm) =
        events_from evs (write_peer p ev) (subst (IsSorted by_seq) (sym eq) sorted) in
      (
        sorted',
        Perm.trans perm (
            subst (λ es. Perm (es ++ evs) (p.events ++ (ev ∷ evs))) (sym eq)
              (subst (Perm _) (append_assoc p.events (ev ∷ []) evs)
                (Perm.append_right evs (sort_by-perm by_seq (p.events ++ ev ∷ []))))),
      )

  length_events_from :
      (evs : List (TraceEvent L)) (p : PeerStats L)
      → length (foldl write_peer p evs).events ≡ length p.events + length evs
  length_events_from [] p = omega arith
  length_events_from (ev ∷ evs) p = omega (
    arith,
    length_events_from evs (write_peer p ev),
    ap length (events-write_peer p ev),
    length-sort_by by_seq (p.events ++ ev ∷ []),
    length-append p.events (ev ∷ []),
  )

  pub length-events-peer_of : (evs : List (TraceEvent L)) → length (peer_of evs).events ≡ length evs
  length-events-peer_of evs = omega (arith, length_events_from evs new_peer)

  -- After any events, the replies are counted as received and the timeouts as lost, the total is
  -- the sum of the replies' times, and the list of events is the events in the order of their
  -- sequence numbers.
  pub peer_of-counts :
      (evs : List (TraceEvent L))
      → ((peer_of evs).received_count ≡ length (replies evs))
        × ((peer_of evs).loss_count ≡ length (timeouts evs))
        × ((peer_of evs).total_rtt ≡ total (rtts evs))
        × IsSorted by_seq (peer_of evs).events
        × Perm (peer_of evs).events evs
  peer_of-counts evs =
      let (received, lost, sum) = counts_from evs new_peer in
      let (sorted, perm) = events_from evs new_peer tt in
      (omega arith, omega arith, omega arith, sorted, perm)
