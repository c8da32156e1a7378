-- ===== src/Trace/Hop/Peers.antt =====
-- HopGroup: each peer has the statistics of its own events, and the peers are in the order of their
-- last events.
use rbmq_demo.Common.{
  ℕ, ◌<◌, String, Option, none, some, List, [], ◌∷◌, ◌++◌, Bool, true, false, ◌==◌, string_key,
  filter, ◌≢◌, ◌↔◌, length, last?, ◌≡◌, refl, sym, subst, ap, ◌∙◌, arith, All, All-impl,
}
use mathlib.Core.List.{Perm}
use mathlib.Core.List.Perm
use rbmq_demo.Common.Dict.{Assoc, get, keys, is_some, keys-All}
use rbmq_demo.Common.Sort.{IsSorted, sort_by-perm, sort_in-IsSorted}
use rbmq_demo.Common.Groups.{foldl, group_of, Represents, write_group-Represents, foldl-Represents}
use rbmq_demo.Trace.{TraceEvent}
use rbmq_demo.Trace.Peer.{PeerStats, new_peer, write_peer}
use rbmq_demo.Trace.Peer.Counts.{
  peer_of, replies, timeouts, rtts, total, by_seq, peer_of-counts, length-events-peer_of,
}
use rbmq_demo.Trace.Hop.{
  HopGroup, new_hop, peer_key, seq_of, last_seq, seq_before, peer_before, write_peers, write_hop,
}
use rbmq_demo.Trace.Hop.Filed.{IsFiled, peer_key_iff}

seq_before_trans :
    (a b c : Option ℕ) → seq_before a b ≡ true → seq_before b c ≡ true → seq_before a c ≡ true
seq_before_trans none b c h k = h
seq_before_trans (some a) none c h k = ground arith
seq_before_trans (some a) (some b) none h k = refl
seq_before_trans (some a) (some b) (some c) h k = ground arith

seq_before_total :
    (a b : Option ℕ)
    → is_some a ≡ true
    → is_some b ≡ true
    → seq_before a b ≡ false
    → seq_before b a ≡ true
seq_before_total none b p q h = ground arith
seq_before_total (some a) none p q h = ground arith
seq_before_total (some a) (some b) p q h = ground arith

module _ {L : Type 0} where
  -- The hop after these events.
  abbrev pub hop_of : ℕ → List (TraceEvent L) → HopGroup L
  hop_of ttl evs = foldl write_hop (new_hop ttl) evs

  -- The statistics of some events, none without events.
  abbrev pub peer_of_some : List (TraceEvent L) → Option (PeerStats L)
  peer_of_some [] = none
  peer_of_some (ev ∷ evs) = some (peer_of (ev ∷ evs))

  abbrev pub with_key : String → List (TraceEvent L) → List (TraceEvent L)
  with_key k evs = filter (λ ev. peer_key ev == k) evs

  abbrev Holds : Assoc String (PeerStats L) → List (TraceEvent L) → Type 0
  Holds m evs = Represents peer_key (λ k. new_peer) write_peer m evs

  write_peers-Holds :
      (m : Assoc String (PeerStats L)) (evs : List (TraceEvent L)) (ev : TraceEvent L)
      → Holds m evs
      → Holds (write_peers m ev) (evs ++ ev ∷ [])
  unfolding write_peers
  write_peers-Holds m evs ev h =
      write_group-Represents peer_key (λ k. new_peer) write_peer m evs ev h

  group_of-peer_of_some :
      (k : String) (evs : List (TraceEvent L))
      → group_of peer_key (λ k. new_peer) write_peer k evs ≡ peer_of_some evs
  group_of-peer_of_some k [] = refl
  group_of-peer_of_some k (ev ∷ evs) = refl

  peers_from :
      (evs : List (TraceEvent L)) (g : HopGroup L)
      → (foldl write_hop g evs).peers ≡ foldl write_peers g.peers evs
  unfolding write_hop
  peers_from [] g = refl
  peers_from (ev ∷ evs) g = peers_from evs (write_hop g ev)

  get-peer_of_some :
      (ttl : ℕ) (evs : List (TraceEvent L)) (k : String)
      → get (hop_of ttl evs).peers k ≡ peer_of_some (with_key k evs)
  unfolding write_peers
  get-peer_of_some ttl evs k =
      ap (λ m. get m k) (peers_from evs (new_hop ttl))
      ∙ foldl-Represents peer_key (λ k. new_peer) write_peer evs k
      ∙ group_of-peer_of_some k (with_key k evs)

  -- What a peer has of some events: all of them in the order of their numbers, with the counts of
  -- the replies and of the timeouts and the sum of the times. There is no peer without events.
  abbrev pub HasStats : Option (PeerStats L) → List (TraceEvent L) → Type 0
  HasStats none evs = evs ≡ []
  HasStats (some p) evs =
      (evs ≢ [])
      × (p.received_count ≡ length (replies evs))
      × (p.loss_count ≡ length (timeouts evs))
      × (p.total_rtt ≡ total (rtts evs))
      × IsSorted by_seq p.events
      × Perm p.events evs

  peer_of_some-HasStats : (evs : List (TraceEvent L)) → HasStats (peer_of_some evs) evs
  peer_of_some-HasStats [] = refl
  peer_of_some-HasStats (ev ∷ evs) =
      let counts = peer_of-counts (ev ∷ evs) in
      (λ h. ground (arith, h), counts.0, counts.1, counts.2, counts.3, counts.4)

  -- After any events, the hop has under a key exactly the events that belong there: under the name
  -- of a peer its replies, and under "*" the timeouts, whichever peer they name, and the events
  -- without a peer. They stand in the order of their numbers, with the counts of the replies and of
  -- the timeouts and the sum of the times, and a key without events is not there.
  pub get-hop_of :
      (ttl : ℕ) (evs : List (TraceEvent L)) (k : String)
      → (filed : TraceEvent L → Bool) × ((ev : TraceEvent L) → (filed ev ≡ true) ↔ IsFiled k ev)
        × HasStats (get (hop_of ttl evs).peers k) (filter filed evs)
  get-hop_of ttl evs k = (
    λ ev. peer_key ev == k,
    peer_key_iff k,
    subst (λ o. HasStats o (with_key k evs)) (sym (get-peer_of_some ttl evs k))
        (peer_of_some-HasStats (with_key k evs)),
  )

  last_seq_there :
      (evs : List (TraceEvent L)) → 0 < length evs → is_some (seq_of (last? evs)) ≡ true
  last_seq_there [] h = absurd (omega arith)
  last_seq_there (ev ∷ []) h = refl
  last_seq_there (ev ∷ e ∷ es) h = last_seq_there (e ∷ es) (omega arith)

  peer_of_some_there :
      (evs : List (TraceEvent L))
      → is_some (peer_of_some evs) ≡ true
      → is_some (last_seq (peer_of_some evs)) ≡ true
  peer_of_some_there [] h = h
  peer_of_some_there (ev ∷ evs) h =
      last_seq_there (peer_of (ev ∷ evs)).events (omega (arith, length-events-peer_of (ev ∷ evs)))

  All-last_seq :
      (m : Assoc String (PeerStats L)) (evs : List (TraceEvent L))
      → Holds m evs
      → All (λ k. is_some (last_seq (get m k)) ≡ true) (keys m)
  All-last_seq m evs h =
      All-impl
        (λ k there.
          let eq = h k ∙ group_of-peer_of_some k (with_key k evs) in
          ap (λ p. is_some (last_seq p)) eq
          ∙ peer_of_some_there (with_key k evs) (sym (ap is_some eq) ∙ there))
        (keys m) (keys-All m)

  -- The peers in the order of their last sequence numbers, the greatest first.
  pub record IsOrdered (g : HopGroup L) : Type 0 where
    pub all_peers : Perm g.peer_order (keys g.peers)
    pub latest_first : IsSorted (peer_before g.peers) g.peer_order

  write_hop-IsOrdered :
      (g : HopGroup L) (evs : List (TraceEvent L)) (ev : TraceEvent L)
      → Holds (write_peers g.peers ev) evs
      → IsOrdered (write_hop g ev)
  unfolding write_hop
  write_hop-IsOrdered g evs ev h =
      let m = write_peers g.peers ev in
      record {
        all_peers = sort_by-perm (peer_before m) (keys m);
        latest_first =
            sort_in-IsSorted (peer_before m) (λ k. is_some (last_seq (get m k)) ≡ true)
              (λ a b c.
                seq_before_trans (last_seq (get m a)) (last_seq (get m b)) (last_seq (get m c)))
              (λ a b. seq_before_total (last_seq (get m a)) (last_seq (get m b))) (keys m)
              (All-last_seq m evs h);
      }

  IsOrdered-foldl :
      (evs done : List (TraceEvent L)) (g : HopGroup L)
      → Holds g.peers done
      → IsOrdered g
      → IsOrdered (foldl write_hop g evs)
  IsOrdered-foldl [] done g h o = o
  IsOrdered-foldl (ev ∷ evs) done g h o =
      let next = write_peers-Holds g.peers done ev h in
      IsOrdered-foldl evs (done ++ ev ∷ []) (write_hop g ev)
        (subst (λ m. Holds m (done ++ ev ∷ [])) (sym (peers_from (ev ∷ []) g)) next)
        (write_hop-IsOrdered g (done ++ ev ∷ []) ev next)

  -- After any events, the order of the peers lists each of them, those with the latest packet
  -- first.
  pub hop_of-IsOrdered : (ttl : ℕ) (evs : List (TraceEvent L)) → IsOrdered (hop_of ttl evs)
  unfolding get
  hop_of-IsOrdered ttl evs =
      IsOrdered-foldl evs [] (new_hop ttl) (λ j. refl)
        (record { all_peers = Perm.refl []; latest_first = tt })
