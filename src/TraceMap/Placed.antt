-- ===== src/TraceMap/Placed.antt =====
-- web/components/traceroutedisplay.tsx: the markers of a trace stand in the order of its hops.
use rbmq_demo.Common.{
  ℕ, ◌<◌, ◌≡◌, refl, ap, ap₂, ◌∙◌, Option, none, some, List, [], ◌∷◌, ◌++◌, Bool, true, false, leb,
  ltb, nat_beq, nat_key, string_key, All, All-impl, filter, filter-append, append-nil, Bool-cases,
  inl, inr, if◌then◌else◌, arith,
}
use rbmq_demo.Common.Ascending.{contains, IsAscending}
use rbmq_demo.Common.Dict.{get, is_some}
use rbmq_demo.Common.Filters.{filter-true, filter-false}
use rbmq_demo.Common.Sort.{IsSorted}
use rbmq_demo.Trace.{TraceEvent, or_else}
use rbmq_demo.Trace.Peer.{PeerStats}
use rbmq_demo.Trace.Hop.{HopGroup}
use rbmq_demo.Trace.Stats.Hops.{trace_of, hop_of_some, at_hop, kept, get-trace_of, trace_of-IsTidy}
use rbmq_demo.TraceMap.{
  Marker, sample_marker, concat_map, peer_markers, marker_if, hop_markers, sample_markers, located,
}
use rbmq_demo.TraceMap.Markers.{markers_at, hop_markers-markers_at}

All-append {ℓ κ} :
    {A : Type ℓ} (P : A → Type κ) (xs ys : List A) → All P xs → All P ys → All P (xs ++ ys)
All-append P [] ys h k = k
All-append P (x ∷ xs) ys (p, h) k = (p, All-append P xs ys h k)

concat_map-All {ℓ κ μ} :
    {A : Type ℓ} {B : Type κ} (P : B → Type μ) (f : A → List B) (xs : List A)
    → ((x : A) → All P (f x))
    → All P (concat_map f xs)
concat_map-All P f [] h = tt
concat_map-All P f (x ∷ xs) h = All-append P (f x) (concat_map f xs) (h x) (concat_map-All P f xs h)

module _ {L : Type 0} where
  abbrev pub marker_ttl : Marker L → ℕ
  marker_ttl m = or_else m.ttl 0

  abbrev pub is_at : ℕ → Marker L → Bool
  is_at ttl m = nat_beq (marker_ttl m) ttl

  abbrev pub no_later : Marker L → Marker L → Bool
  no_later m n = leb (marker_ttl m) (marker_ttl n)

  marker_if-ttl :
      (ttl : ℕ) (p : PeerStats L) (o : Option L) → All (λ m. marker_ttl m ≡ ttl) (marker_if ttl p o)
  unfolding sample_marker
  marker_if-ttl ttl p none = tt
  marker_if-ttl ttl p (some loc) = (refl, tt)

  peer_markers-ttl :
      (ttl : ℕ) (o : Option (PeerStats L)) → All (λ m. marker_ttl m ≡ ttl) (peer_markers ttl o)
  unfolding peer_markers
  peer_markers-ttl ttl none = tt
  peer_markers-ttl ttl (some p) = elim (Bool-cases (nat_beq p.received_count 0)) [
    | inl e ↦ rw e tt
    | inr e ↦ rw e (marker_if-ttl ttl p (located p.events))
  ]

  hop_markers-ttl :
      (ttl : ℕ) (o : Option (HopGroup L)) → All (λ m. marker_ttl m ≡ ttl) (hop_markers ttl o)
  hop_markers-ttl ttl none = tt
  hop_markers-ttl ttl (some hop) =
      concat_map-All (λ m. marker_ttl m ≡ ttl) (λ key. peer_markers ttl (get hop.peers key))
        hop.peer_order (λ key. peer_markers-ttl ttl (get hop.peers key))

  module _ (at : ℕ → List (Marker L))
      (at-ttl : (ttl : ℕ) → All (λ m. marker_ttl m ≡ ttl) (at ttl)) where
    later_ttls :
        (n : ℕ) (order : List ℕ)
        → All (λ t. ltb n t ≡ true) order
        → All (λ m. n < marker_ttl m) (concat_map at order)
    later_ttls n [] h = tt
    later_ttls n (t ∷ order) (e, h) =
        All-append (λ m. n < marker_ttl m) (at t) (concat_map at order)
          (All-impl (λ m k. ground arith) (at t) (at-ttl t)) (later_ttls n order h)

    filter-concat_map :
        (n : ℕ) (order : List ℕ)
        → IsAscending order
        → filter (is_at n) (concat_map at order) ≡ (if contains n order then at n else [])
    filter-concat_map n [] h = refl
    filter-concat_map n (t ∷ order) (later, h) =
        filter-append (is_at n) (at t) (concat_map at order) ∙ elim (Bool-cases (nat_beq t n)) [
          | inl e ↦
              let same : t ≡ n = ground arith in
              let whole : filter (is_at n) (at t) ≡ at n =
                filter-true (is_at n) (at t) (All-impl (λ m k. ground arith) (at t) (at-ttl t))
                ∙ ap at same in
              let none_later : filter (is_at n) (concat_map at order) ≡ [] =
                filter-false (is_at n) (concat_map at order) (
                  All-impl (λ m k. ground arith) (concat_map at order)
                    (later_ttls t order later)) in
              rw e (ap₂ ◌++◌ whole none_later ∙ append-nil (at n))
          | inr e ↦
              let none_here : filter (is_at n) (at t) ≡ [] =
                filter-false (is_at n) (at t) (All-impl (λ m k. ground arith) (at t) (at-ttl t)) in
              rw e (ap₂ ◌++◌ none_here (filter-concat_map n order h))
        ]

    IsSorted-append :
        (t : ℕ) (ms ns : List (Marker L))
        → All (λ m. marker_ttl m ≡ t) ms
        → All (λ n. t < marker_ttl n) ns
        → IsSorted no_later ns
        → IsSorted no_later (ms ++ ns)
    IsSorted-append t [] ns h k s = s
    IsSorted-append t (m ∷ ms) ns (e, h) k s = (
      All-append (λ n. no_later m n ≡ true) ms ns (All-impl (λ n d. ground arith) ms h)
          (All-impl (λ n d. ground arith) ns k),
      IsSorted-append t ms ns h k s,
    )

    concat_map-IsSorted :
        (order : List ℕ) → IsAscending order → IsSorted no_later (concat_map at order)
    concat_map-IsSorted [] h = tt
    concat_map-IsSorted (t ∷ order) (later, h) =
        IsSorted-append t (at t) (concat_map at order) (at-ttl t) (later_ttls t order later)
          (concat_map-IsSorted order h)

  at_hop_if :
      (n : ℕ) (b : Bool) (o : Option (HopGroup L))
      → b ≡ is_some o
      → (if b then hop_markers n o else []) ≡ hop_markers n o
  at_hop_if n true o h = refl
  at_hop_if n false none h = refl
  at_hop_if n false (some hop) h = ground arith

  -- After any events the markers stand in the order of the hops, and those of a hop stand in the
  -- order of its peers, where the hop has the statistics of exactly its own events: a peer that has
  -- answered has a marker at the first location of its replies, if one of them has a location, with
  -- the hop and the peer as its index and the colour of the average time (green below 100, yellow
  -- below 250, else red), and no other peer has one.
  pub sample_markers-trace_of :
      (evs : List (TraceEvent L))
      → let ms = sample_markers (trace_of evs) in
        IsSorted no_later ms
        × ((ttl : ℕ)
            → filter (is_at ttl) ms ≡ markers_at ttl (hop_of_some ttl (at_hop ttl (kept evs))))
  unfolding sample_markers
  sample_markers-trace_of evs =
      let s = trace_of evs in
      let tidy = trace_of-IsTidy evs in
      let at = λ (ttl : ℕ). hop_markers ttl (get s.hops ttl) in
      let at-ttl = λ (ttl : ℕ). hop_markers-ttl ttl (get s.hops ttl) in
      (
        concat_map-IsSorted at at-ttl s.hop_order tidy.ascending,
        λ ttl.
            filter-concat_map at at-ttl ttl s.hop_order tidy.ascending
            ∙ at_hop_if ttl (contains ttl s.hop_order) (get s.hops ttl) (tidy.same_hops ttl)
            ∙ ap (hop_markers ttl) (get-trace_of evs ttl)
            ∙ hop_markers-markers_at ttl (hop_of_some ttl (at_hop ttl (kept evs))),
      )
