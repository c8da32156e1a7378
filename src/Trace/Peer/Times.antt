-- ===== src/Trace/Peer/Times.antt =====
-- PeerStats: the least, the greatest and the average round-trip time.
use rbmq_demo.Common.{
  ℕ, suc, ◌+◌, ◌*◌, ◌≤◌, ◌<◌, Option, none, some, List, [], ◌∷◌, ◌++◌, true, false, length, ltb,
  nat_beq, if◌then◌else◌, ◌≡◌, refl, sym, subst, ap, ◌∙◌, ◌⊎◌, arith, Bool-cases, inl, inr, All,
  All-append, All-impl, append-nil, append_assoc,
}
use native.Mathlib.Nat.{le-div_iff_mul-le, div-le_of_le-mul}
use rbmq_demo.Common.Groups.{foldl}
use rbmq_demo.Trace.{TraceEvent}
use rbmq_demo.Trace.Peer.{
  PeerStats, new_peer, write_peer, write_timeout, write_reply, avg_rtt, lower, higher,
}
use rbmq_demo.Trace.Peer.Counts.{peer_of, rtts, total, replies, peer_of-counts}

abbrev pub Among : ℕ → List ℕ → Type 0
Among m [] = ⊥
Among m (n ∷ ns) = (m ≡ n) ⊎ Among m ns

-- The least and the greatest of the numbers, none and none if there are none.
abbrev pub Spans : Option ℕ → Option ℕ → List ℕ → Type 0
Spans none none ns = ns ≡ []
Spans (some low) (some high) ns =
    Among low ns × Among high ns × All (λ n. (low ≤ n) × (n ≤ high)) ns
Spans _ _ ns = ⊥

Among-append : (m : ℕ) (ns ms : List ℕ) → Among m ns → Among m (ns ++ ms)
Among-append m [] ms h = elim h [ ]
Among-append m (n ∷ ns) ms (inl e) = inl e
Among-append m (n ∷ ns) ms (inr h) = inr (Among-append m ns ms h)

Among-last : (ns : List ℕ) (m : ℕ) → Among m (ns ++ m ∷ [])
Among-last [] m = inl refl
Among-last (n ∷ ns) m = inr (Among-last ns m)

Among-lower :
    (low rtt : ℕ) (ns : List ℕ) → Among low ns → Among (lower (some low) rtt) (ns ++ rtt ∷ [])
Among-lower low rtt ns h = elim (Bool-cases (ltb rtt low)) [
  | inl e ↦ rw e (Among-last ns rtt)
  | inr e ↦ rw e (Among-append low ns (rtt ∷ []) h)
]

Among-higher :
    (high rtt : ℕ) (ns : List ℕ) → Among high ns → Among (higher (some high) rtt) (ns ++ rtt ∷ [])
Among-higher high rtt ns h = elim (Bool-cases (ltb high rtt)) [
  | inl e ↦ rw e (Among-last ns rtt)
  | inr e ↦ rw e (Among-append high ns (rtt ∷ []) h)
]

-- One more number.
Spans-snoc :
    (low high : Option ℕ) (ns : List ℕ) (rtt : ℕ)
    → Spans low high ns
    → Spans (some (lower low rtt)) (some (higher high rtt)) (ns ++ rtt ∷ [])
Spans-snoc none none ns rtt h =
    subst (λ ms. Spans (some rtt) (some rtt) (ms ++ rtt ∷ [])) (sym h)
      (inl refl, inl refl, (omega arith, tt))
Spans-snoc (some low) (some high) ns rtt (p, q, h) = (
  Among-lower low rtt ns p,
  Among-higher high rtt ns q,
  All-append _ ns (rtt ∷ []) (All-impl (λ n k. ground arith) ns h) (ground arith, tt),
)
Spans-snoc none (some high) ns rtt h = elim h [ ]
Spans-snoc (some low) none ns rtt h = elim h [ ]

total_bounds :
    (low high : ℕ) (ns : List ℕ)
    → All (λ n. (low ≤ n) × (n ≤ high)) ns
    → (length ns * low ≤ total ns) × (total ns ≤ length ns * high)
total_bounds low high [] h = grind arith
total_bounds low high (n ∷ ns) (p, h) =
    let (below, above) = total_bounds low high ns h in
    let one_more : (k m : ℕ) → suc k * m ≡ m + k * m = λ k m. grind arith in
    (omega (arith, one_more (length ns) low), omega (arith, one_more (length ns) high))

-- A number among the others: there is at least one.
Among-length : (m : ℕ) (ns : List ℕ) → Among m ns → 0 < length ns
Among-length m [] h = elim h [ ]
Among-length m (n ∷ ns) h = omega arith

module _ {L : Type 0} where
  write_peer_timeout :
      (p : PeerStats L) (ev : TraceEvent L)
      → ev.timeout ≡ true
      → write_peer p ev ≡ write_timeout p ev
  unfolding write_peer
  write_peer_timeout p ev e = ap (λ b. if b then write_timeout p ev else write_reply p ev) e

  write_peer_reply :
      (p : PeerStats L) (ev : TraceEvent L)
      → ev.timeout ≡ false
      → write_peer p ev ≡ write_reply p ev
  unfolding write_peer
  write_peer_reply p ev e = ap (λ b. if b then write_timeout p ev else write_reply p ev) e

  Spans-foldl :
      (evs : List (TraceEvent L)) (p : PeerStats L) (ns : List ℕ)
      → Spans p.min_rtt p.max_rtt ns
      → Spans (foldl write_peer p evs).min_rtt (foldl write_peer p evs).max_rtt (ns ++ rtts evs)
  Spans-foldl [] p ns h = subst (Spans p.min_rtt p.max_rtt) (sym (append-nil ns)) h
  Spans-foldl (ev ∷ evs) p ns h = elim (Bool-cases ev.timeout) [
    | inl e ↦
        let more = Spans-foldl evs (write_timeout p ev) ns h in
        let shown : rtts (ev ∷ evs) ≡ rtts evs =
          ap (λ b. if b then rtts evs else ev.rtt_ms ∷ rtts evs) e in
        subst (λ q. Spanned q (ns ++ rtts (ev ∷ evs))) (sym (write_peer_timeout p ev e))
          (subst (λ ms. Spanned (write_timeout p ev) (ns ++ ms)) (sym shown) more)
    | inr e ↦
        let more =
          Spans-foldl evs (write_reply p ev) (ns ++ ev.rtt_ms ∷ [])
            (Spans-snoc p.min_rtt p.max_rtt ns ev.rtt_ms h) in
        let shown : rtts (ev ∷ evs) ≡ ev.rtt_ms ∷ rtts evs =
          ap (λ b. if b then rtts evs else ev.rtt_ms ∷ rtts evs) e in
        subst (λ q. Spanned q (ns ++ rtts (ev ∷ evs))) (sym (write_peer_reply p ev e))
          (subst (λ ms. Spanned (write_reply p ev) (ns ++ ms)) (sym shown)
            (subst (Spanned (write_reply p ev)) (append_assoc ns (ev.rtt_ms ∷ []) (rtts evs)) more))
  ]
    where
      Spanned : PeerStats L → List ℕ → Type 0
      Spanned q ms = Spans (foldl write_peer q evs).min_rtt (foldl write_peer q evs).max_rtt ms

  -- After any events, the least and the greatest time are those of the replies, and there are none
  -- before the first reply.
  pub peer_of-Spans :
      (evs : List (TraceEvent L)) → Spans (peer_of evs).min_rtt (peer_of evs).max_rtt (rtts evs)
  peer_of-Spans evs = Spans-foldl evs new_peer [] refl

  length-rtts : (evs : List (TraceEvent L)) → length (rtts evs) ≡ length (replies evs)
  length-rtts [] = refl
  length-rtts (ev ∷ evs) = ground (arith, length-rtts evs)

  -- The average lies between the least and the greatest time.
  pub avg_rtt-bounds :
      (evs : List (TraceEvent L)) (low high : ℕ)
      → (peer_of evs).min_rtt ≡ some low
      → (peer_of evs).max_rtt ≡ some high
      → (low ≤ avg_rtt (peer_of evs)) × (avg_rtt (peer_of evs) ≤ high)
  unfolding avg_rtt
  avg_rtt-bounds evs low high p q =
      let stats = peer_of evs in
      let spans : Spans (some low) (some high) (rtts evs) =
        subst (λ o. Spans o (some high) (rtts evs)) p
          (subst (λ o. Spans stats.min_rtt o (rtts evs)) q (peer_of-Spans evs)) in
      let (among, among', bounds) = spans in
      let (below, above) = total_bounds low high (rtts evs) bounds in
      let (received, lost, sum, sorted, perm) = peer_of-counts evs in
      let count : stats.received_count ≡ length (rtts evs) = received ∙ sym (length-rtts evs) in
      let some_reply : 0 < length (rtts evs) = Among-length low (rtts evs) among in
      rw (count, sum)
        (elim (Bool-cases (nat_beq (length (rtts evs)) 0)) [
          | inl e ↦ absurd (ground arith)
          | inr e ↦ rw e (
            (le-div_iff_mul-le some_reply).1 (grind arith),
            div-le_of_le-mul (length (rtts evs)) above,
          )
        ])
