-- ===== src/PingStream/Cancelled.antt =====
-- web/apis/globalping.ts: what the page gets of the samples, and what a cancellation stops.
use rbmq_demo.Common.{
  ◌≡◌, refl, ap, ap₂, sym, ◌∙◌, List, [], ◌∷◌, ◌++◌, append_assoc, append-nil, map, Bool, true,
  false, arith,
}
use rbmq_demo.Common.Groups.{foldl, foldl-append}
use rbmq_demo.PingStream.{
  ControlScope, Event, response, read, read_done, cancel, started, step, run_events,
}

module _ {S : Type 0} where
  enqueued-step :
      (sc : ControlScope S) (event : Event S)
      → sc.stopped ≡ true
      → ((step sc event).stopped ≡ true) × ((step sc event).enqueued ≡ sc.enqueued)
  unfolding step
  enqueued-step sc (response b) h = ground arith
  enqueued-step sc (read v) h = ground arith
  enqueued-step sc read_done h = (h, refl)
  enqueued-step sc cancel h = (refl, refl)

  enqueued-stopped :
      (sc : ControlScope S) (events : List (Event S))
      → sc.stopped ≡ true
      → (foldl step sc events).enqueued ≡ sc.enqueued
  enqueued-stopped sc [] h = refl
  enqueued-stopped sc (e ∷ es) h =
      enqueued-stopped (step sc e) es (enqueued-step sc e h).0 ∙ (enqueued-step sc e h).1

  -- Whatever comes before and after, a cancelled stream gives the page no further sample.
  pub enqueued-cancelled :
      (before after : List (Event S))
      → (run_events started (before ++ cancel ∷ after)).enqueued
        ≡ (run_events started before).enqueued
  enqueued-cancelled before after =
      ap (λ sc. sc.enqueued) (foldl-append step started before (cancel ∷ after))
      ∙ enqueued-stopped (step (foldl step started before) cancel) after (unfold step in refl)
      ∙ unfold step in refl

  -- While the reader reads.
  abbrev pub reading_on : Bool → List S → List S → ControlScope S
  reading_on is_stopped taken given = record {
    awaits_response = false;
    has_reader = true;
    stopped = is_stopped;
    reading = true;
    closed = false;
    consumed = taken;
    enqueued = given;
  }

  reads_open :
      (vs taken given : List S)
      → foldl step (reading_on false taken given) (map read vs)
        ≡ reading_on false (taken ++ vs) (given ++ vs)
  unfolding step
  reads_open [] taken given =
      ap₂ (reading_on false) (sym (append-nil taken)) (sym (append-nil given))
  reads_open (v ∷ vs) taken given =
      reads_open vs (taken ++ v ∷ []) (given ++ v ∷ [])
      ∙ ap₂ (reading_on false) (append_assoc taken (v ∷ []) vs) (append_assoc given (v ∷ []) vs)

  reads_stopped :
      (vs taken given : List S)
      → foldl step (reading_on true taken given) (map read vs) ≡ reading_on true (taken ++ vs) given
  unfolding step
  reads_stopped [] taken given = ap (λ t. reading_on true t given) (sym (append-nil taken))
  reads_stopped (v ∷ vs) taken given =
      reads_stopped vs (taken ++ v ∷ []) given
      ∙ ap (λ t. reading_on true t given) (append_assoc taken (v ∷ []) vs)

  -- A stream that is not cancelled gives the page each sample of the response in order, and when
  -- the response has ended nothing is read any more, but the page is not told.
  pub run_events-delivered :
      (vs : List S)
      → run_events started (response true ∷ map read vs ++ read_done ∷ [])
        ≡ record (reading_on false vs vs) { reading = false }
  unfolding step
  run_events-delivered vs =
      foldl-append step (reading_on false [] []) (map read vs) (read_done ∷ [])
      ∙ ap (λ (sc : ControlScope S). step sc read_done) (reads_open vs [] [])

  -- A stream that is cancelled before the response has come reads the whole response nevertheless,
  -- gives the page nothing of it, and goes on reading.
  pub run_events-cancelled_early :
      (vs : List S)
      → run_events started (cancel ∷ response true ∷ map read vs) ≡ reading_on true vs []
  unfolding step
  run_events-cancelled_early vs = reads_stopped vs [] []
