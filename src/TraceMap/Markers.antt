-- ===== src/TraceMap/Markers.antt =====
-- web/components/traceroutedisplay.tsx: where the markers of the peers of a hop stand.
use rbmq_demo.Common.{
  ℕ, zero, suc, ◌/◌, ◌≡◌, refl, ap, ap₂, ◌∙◌, String, Option, none, some, List, [], ◌∷◌, ◌++◌, Bool,
  true, false, not, leb, ltb, nat_beq, string_key, Bool-cases, inl, inr, if◌then◌else◌, arith,
}
use rbmq_demo.Colors.{get_latency_color, color_green, color_yellow, color_red}
use rbmq_demo.Common.Decimal.{texts, number_text}
use rbmq_demo.Common.Dict.{Assoc, get}
use rbmq_demo.Trace.{TraceEvent}
use rbmq_demo.Trace.Peer.{PeerStats, avg_rtt}
use rbmq_demo.Trace.Hop.{HopGroup}
use rbmq_demo.TraceMap.{
  Marker, or_later, sample_marker, concat_map, peer_markers, marker_if, hop_markers, located,
}

color_of :
    (n : ℕ)
    → get_latency_color (some n)
      ≡ (if ltb n 100 then color_green else if ltb n 250 then color_yellow else color_red)
unfolding get_latency_color
color_of n =
    let least : leb 0 n ≡ true = ground arith in
    elim (Bool-cases (ltb n 100)) [
      | inl e ↦ rw (least, e) refl
      | inr e ↦
          let past : leb 100 n ≡ true = ground arith in
          rw (least, e, past)
            (elim (Bool-cases (ltb n 250)) [
              | inl h ↦ rw h refl
              | inr h ↦ let far : leb 250 n ≡ true = ground arith in rw (h, far) refl
            ])
    ]

module _ {L : Type 0} where
  -- The locations of the replies among some events.
  abbrev pub with_place : Bool → Option L → List L → List L
  with_place true o places = places
  with_place false none places = places
  with_place false (some loc) places = loc ∷ places

  abbrev pub places : List (TraceEvent L) → List L
  places [] = []
  places (ev ∷ evs) = with_place ev.timeout ev.exact_location (places evs)

  -- A peer that has answered has a marker at the first of them, if there is one.
  abbrev pub placed_marker : ℕ → PeerStats L → ℕ → List L → List (Marker L)
  unfolding number_text
  placed_marker ttl p zero locs = []
  placed_marker ttl p (suc n) [] = []
  placed_marker ttl p (suc n) (loc ∷ locs) =
      let average : ℕ = p.total_rtt / suc n in
      record {
        lon_lat = some loc;
        fill =
            if ltb average 100
            then color_green
            else if ltb average 250
            then color_yellow
            else color_red;
        radius = some 8;
        stroke_width = some 3;
        index = some (texts ("TTL=" ∷ number_text ttl ∷ ", IP=" ∷ p.peer ∷ []));
        ttl = some ttl;
      }
      ∷ []

  abbrev pub marker_of : ℕ → Option (PeerStats L) → List (Marker L)
  marker_of ttl none = []
  marker_of ttl (some p) = placed_marker ttl p p.received_count (places p.events)

  abbrev pub markers_of : ℕ → Assoc String (PeerStats L) → List String → List (Marker L)
  unfolding get
  markers_of ttl peers [] = []
  markers_of ttl peers (name ∷ names) = marker_of ttl (get peers name) ++ markers_of ttl peers names

  -- The markers of a hop, peer by peer.
  abbrev pub markers_at : ℕ → Option (HopGroup L) → List (Marker L)
  markers_at ttl none = []
  markers_at ttl (some hop) = markers_of ttl hop.peers hop.peer_order

  abbrev first_of : List L → Option L
  first_of [] = none
  first_of (loc ∷ locs) = some loc

  located-places : (evs : List (TraceEvent L)) → located evs ≡ first_of (places evs)
  unfolding located
  located-places [] = refl
  located-places (ev ∷ evs) =
      ap (λ later. if not ev.timeout then or_later ev.exact_location later else later)
        (located-places evs)
      ∙ one ev.timeout ev.exact_location
    where
      one :
          (b : Bool) (o : Option L)
          → (if not b then or_later o (first_of (places evs)) else first_of (places evs))
            ≡ first_of (with_place b o (places evs))
      one true o = refl
      one false none = refl
      one false (some loc) = refl

  peer_markers-marker_of :
      (ttl : ℕ) (o : Option (PeerStats L)) → peer_markers ttl o ≡ marker_of ttl o
  unfolding peer_markers sample_marker avg_rtt
  peer_markers-marker_of ttl none = refl
  peer_markers-marker_of ttl (some p) =
      ap (λ loc. if nat_beq p.received_count 0 then [] else marker_if ttl p loc)
        (located-places p.events)
      ∙ one p.received_count (places p.events)
    where
      one :
          (n : ℕ) (locs : List L)
          → (if nat_beq n 0
              then []
              else marker_if ttl (record p { received_count = n }) (first_of locs))
            ≡ placed_marker ttl p n locs
      one zero locs = refl
      one (suc n) [] =
          let some_reply : nat_beq (suc n) 0 ≡ false = ground arith in rw some_reply refl
      one (suc n) (loc ∷ locs) =
          let some_reply : nat_beq (suc n) 0 ≡ false = ground arith in
          rw some_reply (
            ap
              (λ c.
                record {
                  lon_lat = some loc;
                  fill = c;
                  radius = some 8;
                  stroke_width = some 3;
                  index = some (texts ("TTL=" ∷ number_text ttl ∷ ", IP=" ∷ p.peer ∷ []));
                  ttl = some ttl;
                }
                ∷ [])
              (color_of (p.total_rtt / suc n)))

  pub hop_markers-markers_at :
      (ttl : ℕ) (o : Option (HopGroup L)) → hop_markers ttl o ≡ markers_at ttl o
  unfolding get markers_of peer_markers
  hop_markers-markers_at ttl none = refl
  hop_markers-markers_at ttl (some hop) = along hop.peer_order
    where
      along :
          (names : List String)
          → concat_map (λ key. peer_markers ttl (get hop.peers key)) names
            ≡ markers_of ttl hop.peers names
      along [] = refl
      along (name ∷ names) =
          ap₂ ◌++◌ (peer_markers-marker_of ttl (get hop.peers name)) (along names)
