-- ===== src/Trace/Stats/Hops.antt =====
-- TraceStats: each hop has the statistics of its own events, up to the last hop that has answered.
use rbmq_demo.Common.{
  ℕ, Option, none, some, List, [], ◌∷◌, ◌++◌, Bool, true, false, ◌||◌, ◌&&◌, ◌==◌, filter, nat_key,
  nat_beq, leb, if◌then◌else◌, ◌≡◌, refl, sym, subst, ap, ◌∙◌, arith, Bool-cases, inl, inr,
}
use rbmq_demo.Common.Dict.{get, is_some, get-filter}
use rbmq_demo.Common.Sort.{sort_by}
use rbmq_demo.Common.Ascending.{
  contains, IsAscending, contains-append, contains-sort_by, contains-filter, sort_by-IsAscending,
  snoc-AreDistinct, filter-IsAscending,
}
use rbmq_demo.Common.Groups.{
  foldl, group_of, Represents, write_group-Represents, filter-Represents, is_some-write_group,
}
use rbmq_demo.Trace.{TraceEvent}
use rbmq_demo.Trace.Hop.{HopGroup, new_hop, write_hop}
use rbmq_demo.Trace.Hop.Peers.{hop_of}
use rbmq_demo.Trace.Stats.{TraceStats, new_trace, hop_ttl, write_hops, up_to, write_trace}

is_some_if :
    {A : Type 0} (b : Bool) (o : Option A) → is_some (if b then o else none) ≡ (b && is_some o)
is_some_if true o = refl
is_some_if false o = refl

contains_again :
    (ns : List ℕ) (n t : ℕ) → contains n ns ≡ true → contains t ns ≡ (nat_beq n t || contains t ns)
contains_again ns n t h = elim (Bool-cases (nat_beq n t)) [
  | inl e ↦ let same : n ≡ t = ground arith in rw e (subst (λ m. contains m ns ≡ true) same h)
  | inr e ↦ rw e refl
]

contains_snoc : (ns : List ℕ) (n t : ℕ) → contains t (ns ++ n ∷ []) ≡ (nat_beq n t || contains t ns)
contains_snoc ns n t = ground (arith, contains-append t ns (n ∷ []))

module _ {L : Type 0} where
  -- The statistics after these events.
  abbrev pub trace_of : List (TraceEvent L) → TraceStats L
  trace_of evs = foldl write_trace new_trace evs

  -- The events that count once this one has come: a last hop drops those of later hops.
  abbrev pub keep : List (TraceEvent L) → TraceEvent L → List (TraceEvent L)
  keep evs ev =
      if ev.last_hop
      then filter (λ e. leb (hop_ttl e) (hop_ttl ev)) (evs ++ ev ∷ [])
      else evs ++ ev ∷ []

  abbrev pub kept : List (TraceEvent L) → List (TraceEvent L)
  kept evs = foldl keep [] evs

  abbrev pub at_hop : ℕ → List (TraceEvent L) → List (TraceEvent L)
  at_hop ttl evs = filter (λ ev. hop_ttl ev == ttl) evs

  abbrev pub hop_of_some : ℕ → List (TraceEvent L) → Option (HopGroup L)
  hop_of_some ttl [] = none
  hop_of_some ttl (ev ∷ evs) = some (hop_of ttl (ev ∷ evs))

  abbrev Shows : TraceStats L → List (TraceEvent L) → Type 0
  Shows s evs = Represents hop_ttl new_hop write_hop s.hops evs

  write_trace_last :
      (s : TraceStats L) (ev : TraceEvent L)
      → ev.last_hop ≡ true
      → write_trace s ev ≡ up_to (hop_ttl ev) (write_hops s ev)
  unfolding write_trace
  write_trace_last s ev e =
      ap (λ b. if b then up_to (hop_ttl ev) (write_hops s ev) else write_hops s ev) e

  write_trace_more :
      (s : TraceStats L) (ev : TraceEvent L)
      → ev.last_hop ≡ false
      → write_trace s ev ≡ write_hops s ev
  unfolding write_trace
  write_trace_more s ev e =
      ap (λ b. if b then up_to (hop_ttl ev) (write_hops s ev) else write_hops s ev) e

  write_trace-Shows :
      (s : TraceStats L) (evs : List (TraceEvent L)) (ev : TraceEvent L)
      → Shows s evs
      → Shows (write_trace s ev) (keep evs ev)
  write_trace-Shows s evs ev h =
      let next = write_group-Represents hop_ttl new_hop write_hop s.hops evs ev h in
      let near = λ (e : TraceEvent L). leb (hop_ttl e) (hop_ttl ev) in
      let kept_if = λ (b : Bool). if b then filter near (evs ++ ev ∷ []) else evs ++ ev ∷ [] in
      elim (Bool-cases ev.last_hop) [
        | inl e ↦
            subst (λ t. Shows t (keep evs ev)) (sym (write_trace_last s ev e))
              (subst (Shows (up_to (hop_ttl ev) (write_hops s ev))) (sym (ap kept_if e)) (
                filter-Represents hop_ttl new_hop write_hop (λ t. leb t (hop_ttl ev))
                  (write_hops s ev).hops (evs ++ ev ∷ []) next))
        | inr e ↦
            subst (λ t. Shows t (keep evs ev)) (sym (write_trace_more s ev e))
              (subst (Shows (write_hops s ev)) (sym (ap kept_if e)) next)
      ]

  Shows-foldl :
      (evs done : List (TraceEvent L)) (s : TraceStats L)
      → Shows s done
      → Shows (foldl write_trace s evs) (foldl keep done evs)
  Shows-foldl [] done s h = h
  Shows-foldl (ev ∷ evs) done s h =
      Shows-foldl evs (keep done ev) (write_trace s ev) (write_trace-Shows s done ev h)

  hop_of_some-group_of :
      (ttl : ℕ) (evs : List (TraceEvent L))
      → group_of hop_ttl new_hop write_hop ttl evs ≡ hop_of_some ttl evs
  hop_of_some-group_of ttl [] = refl
  hop_of_some-group_of ttl (ev ∷ evs) = refl

  -- After any events, there is a hop for each number of hops that some event that counts has, and
  -- it has the statistics of exactly the events with this number; a last hop drops the events of
  -- later hops that came before it.
  pub get-trace_of :
      (evs : List (TraceEvent L)) (ttl : ℕ)
      → get (trace_of evs).hops ttl ≡ hop_of_some ttl (at_hop ttl (kept evs))
  unfolding get
  get-trace_of evs ttl =
      Shows-foldl evs [] new_trace (λ j. refl) ttl
      ∙ hop_of_some-group_of ttl (at_hop ttl (kept evs))

  -- The order lists the hops, each once, from the first to the last.
  pub record IsTidy (s : TraceStats L) : Type 0 where
    pub ascending : IsAscending s.hop_order
    pub same_hops : (ttl : ℕ) → contains ttl s.hop_order ≡ is_some (get s.hops ttl)

  up_to-IsTidy : (last : ℕ) (s : TraceStats L) → IsTidy s → IsTidy (up_to last s)
  up_to-IsTidy last s h = record {
    ascending = filter-IsAscending (λ ttl. leb ttl last) s.hop_order h.ascending;
    same_hops = λ ttl.
        contains-filter (λ t. leb t last) ttl s.hop_order
        ∙ ap (λ b. leb ttl last && b) (h.same_hops ttl)
        ∙ sym (
            ap is_some (get-filter (λ t. leb t last) s.hops ttl)
            ∙ is_some_if (leb ttl last) (get s.hops ttl));
  }

  write_hops-IsTidy : (s : TraceStats L) (ev : TraceEvent L) → IsTidy s → IsTidy (write_hops s ev)
  write_hops-IsTidy s ev h =
      let ttl = hop_ttl ev in
      let new_order = sort_by leb (s.hop_order ++ ttl ∷ []) in
      elim (Bool-cases (is_some (get s.hops ttl))) [
        | inl e ↦
            let order = λ (b : Bool). if b then s.hop_order else new_order in
            record {
              ascending = subst IsAscending (sym (ap order e)) h.ascending;
              same_hops = λ t.
                  ap (λ ts. contains t ts) (ap order e)
                  ∙ contains_again s.hop_order ttl t (h.same_hops ttl ∙ e)
                  ∙ ap (λ b. nat_beq ttl t || b) (h.same_hops t)
                  ∙ sym (is_some-write_group hop_ttl new_hop write_hop s.hops ev t);
            }
        | inr e ↦
            let order = λ (b : Bool). if b then s.hop_order else new_order in
            let fresh = h.same_hops ttl ∙ e in
            record {
              ascending = subst IsAscending (sym (ap order e)) (
                  sort_by-IsAscending (s.hop_order ++ ttl ∷ [])
                    (snoc-AreDistinct s.hop_order ttl h.ascending fresh));
              same_hops = λ t.
                  ap (λ ts. contains t ts) (ap order e)
                  ∙ contains-sort_by t (s.hop_order ++ ttl ∷ [])
                  ∙ contains_snoc s.hop_order ttl t
                  ∙ ap (λ b. nat_beq ttl t || b) (h.same_hops t)
                  ∙ sym (is_some-write_group hop_ttl new_hop write_hop s.hops ev t);
            }
      ]

  write_trace-IsTidy : (s : TraceStats L) (ev : TraceEvent L) → IsTidy s → IsTidy (write_trace s ev)
  write_trace-IsTidy s ev h =
      let next = write_hops-IsTidy s ev h in
      elim (Bool-cases ev.last_hop) [
        | inl e ↦
            subst IsTidy (sym (write_trace_last s ev e))
              (up_to-IsTidy (hop_ttl ev) (write_hops s ev) next)
        | inr e ↦ subst IsTidy (sym (write_trace_more s ev e)) next
      ]

  IsTidy-foldl :
      (evs : List (TraceEvent L)) (s : TraceStats L) → IsTidy s → IsTidy (foldl write_trace s evs)
  IsTidy-foldl [] s h = h
  IsTidy-foldl (ev ∷ evs) s h = IsTidy-foldl evs (write_trace s ev) (write_trace-IsTidy s ev h)

  -- After any events, the order lists exactly the hops that there are, strictly ascending.
  pub trace_of-IsTidy : (evs : List (TraceEvent L)) → IsTidy (trace_of evs)
  unfolding get
  trace_of-IsTidy evs =
      IsTidy-foldl evs new_trace (record { ascending = tt; same_hops = λ ttl. refl })
