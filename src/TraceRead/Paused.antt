-- ===== src/TraceRead/Paused.antt =====
-- web/components/traceroutedisplay.tsx: what is shown while events come, and during a pause.
use rbmq_demo.Common.{
  ◌≡◌, refl, ap, ◌∙◌, String, Option, none, some, List, [], ◌∷◌, ◌++◌, map, All, Bool, true, false,
  ◌==◌, string_key, filter, if◌then◌else◌, Bool-cases, inl, inr,
}
use rbmq_demo.Common.Dict.{Assoc, get}
use rbmq_demo.Common.Groups.{foldl, foldl-append, group_of, foldl-Represents}
use rbmq_demo.Trace.{TraceEvent, is_set, or_else}
use rbmq_demo.Trace.Stats.{TraceStats, new_trace, write_trace}
use rbmq_demo.TraceRead.{
  TraceRead, TraceReadEvent, opened, read, done, failed, stop_tick, resume_tick, mounted,
  write_source, on_event, trace_step, shown_map,
}

module _ {L : Type 0} where
  -- The events that name their node.
  abbrev pub add_named :
      Option String × TraceEvent L → List (String × TraceEvent L) → List (String × TraceEvent L)
  add_named (sent_from, ev) rest =
      if is_set sent_from then (or_else sent_from "", ev) ∷ rest else rest

  abbrev pub named : List (Option String × TraceEvent L) → List (String × TraceEvent L)
  named [] = []
  named (e ∷ es) = let rest = named es in add_named e rest

  abbrev pub reads : List (Option String × TraceEvent L) → List (TraceReadEvent L)
  reads es = map (λ (e : Option String × TraceEvent L). read e.0 e.1) es

  abbrev pub reading_with : Assoc String (TraceStats L) → TraceRead L
  reading_with m = record {
    trace_stats_map = m;
    snapshot = none;
    is_running = true;
    paused = false;
    waits = false;
    reading = true;
  }

  on_event-named :
      (sent_from : Option String) (ev : TraceEvent L) (rest : List (String × TraceEvent L))
      (m : Assoc String (TraceStats L))
      → foldl write_source (on_event sent_from ev m) rest
        ≡ foldl write_source m (add_named (sent_from, ev) rest)
  unfolding on_event
  on_event-named sent_from ev rest m = elim (Bool-cases (is_set sent_from)) [
    | inl e ↦ rw e refl
    | inr e ↦ rw e refl
  ]

  foldl-reads :
      (es : List (Option String × TraceEvent L)) (m : Assoc String (TraceStats L))
      → foldl trace_step (reading_with m) (reads es)
        ≡ reading_with (foldl write_source m (named es))
  unfolding trace_step
  foldl-reads [] m = refl
  foldl-reads ((sent_from, ev) ∷ es) m =
      foldl-reads es (on_event sent_from ev m)
      ∙ ap reading_with (on_event-named sent_from ev (named es) m)

  -- The statistics of some events, none if there are none.
  abbrev pub trace_of_events : List (String × TraceEvent L) → Option (TraceStats L)
  trace_of_events [] = none
  trace_of_events (e ∷ es) =
      some (foldl write_trace new_trace (map (λ (d : String × TraceEvent L). d.1) (e ∷ es)))

  foldl-map :
      (s : TraceStats L) (es : List (String × TraceEvent L))
      → foldl (λ stat (e : String × TraceEvent L). write_trace stat e.1) s es
        ≡ foldl write_trace s (map (λ (d : String × TraceEvent L). d.1) es)
  foldl-map s [] = refl
  foldl-map s (e ∷ es) = foldl-map (write_trace s e.1) es

  group-trace :
      (source : String) (es : List (String × TraceEvent L))
      → group_of
          (λ (e : String × TraceEvent L). e.0)
          (λ (s : String). new_trace)
          (λ stat (e : String × TraceEvent L). write_trace stat e.1)
          source
          es
        ≡ trace_of_events es
  group-trace source [] = refl
  group-trace source (e ∷ es) = ap some (foldl-map new_trace (e ∷ es))

  -- While the stream is read there are shown for each node the statistics of its events, and none
  -- for a node without events; events that name no node change nothing.
  pub shown_map-reads :
      (es : List (Option String × TraceEvent L)) (source : String)
      → get (shown_map (foldl trace_step mounted (opened ∷ reads es))) source
        ≡ trace_of_events (filter (λ e. e.0 == source) (named es))
  unfolding trace_step
  shown_map-reads es source =
      ap (λ s. get (shown_map s) source) (foldl-reads es [])
      ∙ (unfold write_source in
          foldl-Represents (λ (e : String × TraceEvent L). e.0) (λ (s : String). new_trace)
            (λ stat (e : String × TraceEvent L). write_trace stat e.1) (named es) source)
      ∙ group-trace source (filter (λ e. e.0 == source) (named es))

  -- An event that no button makes.
  abbrev pub is_from_stream : TraceReadEvent L → Bool
  is_from_stream stop_tick = false
  is_from_stream resume_tick = false
  is_from_stream _ = true

  abbrev pub paused_with : Assoc String (TraceStats L) → TraceRead L
  paused_with m = record {
    trace_stats_map = [];
    snapshot = some m;
    is_running = false;
    paused = true;
    waits = false;
    reading = false;
  }

  trace_step-paused_with :
      (m : Assoc String (TraceStats L)) (e : TraceReadEvent L)
      → is_from_stream e ≡ true
      → trace_step (paused_with m) e ≡ paused_with m
  unfolding trace_step
  trace_step-paused_with m opened f = refl
  trace_step-paused_with m (read sent_from ev) f = refl
  trace_step-paused_with m done f = refl
  trace_step-paused_with m failed f = refl
  trace_step-paused_with m stop_tick f = cc
  trace_step-paused_with m resume_tick f = cc

  foldl-paused_with :
      (m : Assoc String (TraceStats L)) (es : List (TraceReadEvent L))
      → All (λ e. is_from_stream e ≡ true) es
      → foldl trace_step (paused_with m) es ≡ paused_with m
  foldl-paused_with m [] f = refl
  foldl-paused_with m (e ∷ es) (f, fs) =
      ap (λ (s : TraceRead L). foldl trace_step s es) (trace_step-paused_with m e f)
      ∙ foldl-paused_with m es fs

  stop_tick-paused_with :
      (s : TraceRead L) → s.paused ≡ false → trace_step s stop_tick ≡ paused_with s.trace_stats_map
  unfolding trace_step
  stop_tick-paused_with s live = rw live refl

  -- If the hook is not paused and the pause button is pressed, then whatever the stream does until
  -- the next press, the map of that moment stays shown and nothing runs; and the press that resumes
  -- shows an empty map and makes a new request.
  pub shown_map-paused :
      (s : TraceRead L) (es : List (TraceReadEvent L))
      → s.paused ≡ false
      → All (λ e. is_from_stream e ≡ true) es
      → let during = foldl trace_step (trace_step s stop_tick) es in
        let after = trace_step during resume_tick in
        (shown_map during ≡ s.trace_stats_map)
        × (during.is_running ≡ false)
        × (shown_map after ≡ [])
        × (after.waits ≡ true)
  unfolding trace_step
  shown_map-paused s es live f =
      rw (stop_tick-paused_with s live)
        (rw (foldl-paused_with s.trace_stats_map es f) (refl, refl, refl, refl))

  abbrev pub failed_with : Assoc String (TraceStats L) → TraceRead L
  failed_with m = record (reading_with m) { reading = false }

  trace_step-failed_with :
      (m : Assoc String (TraceStats L)) (e : TraceReadEvent L)
      → is_from_stream e ≡ true
      → trace_step (failed_with m) e ≡ failed_with m
  unfolding trace_step
  trace_step-failed_with m opened f = refl
  trace_step-failed_with m (read sent_from ev) f = refl
  trace_step-failed_with m done f = refl
  trace_step-failed_with m failed f = refl
  trace_step-failed_with m stop_tick f = cc
  trace_step-failed_with m resume_tick f = cc

  foldl-failed_with :
      (m : Assoc String (TraceStats L)) (es : List (TraceReadEvent L))
      → All (λ e. is_from_stream e ≡ true) es
      → foldl trace_step (failed_with m) es ≡ failed_with m
  foldl-failed_with m [] f = refl
  foldl-failed_with m (e ∷ es) (f, fs) =
      ap (λ (s : TraceRead L). foldl trace_step s es) (trace_step-failed_with m e f)
      ∙ foldl-failed_with m es fs

  -- After an error of a read the hook still says that it runs, though nothing is read any more,
  -- and the statistics stay those of the events before, whatever the stream does, until a button
  -- is pressed.
  pub is_running-failed :
      (es : List (Option String × TraceEvent L)) (later : List (TraceReadEvent L))
      → All (λ e. is_from_stream e ≡ true) later
      → let s = foldl trace_step mounted (opened ∷ reads es ++ failed ∷ later) in
        (s.is_running ≡ true)
        × (s.reading ≡ false)
        × (s.trace_stats_map ≡ foldl write_source [] (named es))
  unfolding trace_step
  is_running-failed es later f =
      rw (foldl-append trace_step (reading_with []) (reads es) (failed ∷ later)) (
        rw (foldl-reads es [])
          (rw (foldl-failed_with (foldl write_source [] (named es)) later f) (refl, refl, refl)))
