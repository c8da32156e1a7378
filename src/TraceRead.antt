-- ===== src/TraceRead.antt =====
-- web/components/traceroutedisplay.tsx: the hook that reads the events of a traceroute, with its
-- pause button. An aborted reader answers with an error at once and its loop ends.
pub mod Paused
use rbmq_demo.Common.{
  String, Option, none, some, List, [], ◌∷◌, Bool, true, false, not, ◌&&◌, string_key,
  if◌then◌else◌,
}
use rbmq_demo.Common.Dict.{Assoc, get}
use rbmq_demo.Common.Groups.{foldl, write_group}
use rbmq_demo.Trace.{TraceEvent, is_set, or_else}
use rbmq_demo.Trace.Stats.{TraceStats, new_trace, write_trace}

-- `waits` is whether the request of the effect is on its way, `reading` whether its loop reads.
pub record TraceRead (L : Type 0) : Type 0 where
  pub trace_stats_map : Assoc String (TraceStats L)
  pub snapshot : Option (Assoc String (TraceStats L))
  pub is_running : Bool
  pub paused : Bool
  pub waits : Bool
  pub reading : Bool

-- The reader is there; a read gives an event with the name of its node, or the end; the request or
-- a read fails; a button is pressed.
pub data TraceReadEvent (L : Type 0) : Type 0 where
  opened : TraceReadEvent L
  read : Option String → TraceEvent L → TraceReadEvent L
  done : TraceReadEvent L
  failed : TraceReadEvent L
  stop_tick : TraceReadEvent L
  resume_tick : TraceReadEvent L

module _ {L : Type 0} where
  abbrev pub mounted : TraceRead L
  mounted = record {
    trace_stats_map = [];
    snapshot = none;
    is_running = false;
    paused = false;
    waits = true;
    reading = false;
  }

  -- `{ ...prev, [from]: (prev[from] ?? new TraceStats()).WriteEvent(ev) }`
  unfoldable pub write_source :
      Assoc String (TraceStats L) → String × TraceEvent L → Assoc String (TraceStats L)
  unfolding write_group write_trace
  write_source =
      write_group (λ (e : String × TraceEvent L). e.0) (λ (s : String). new_trace)
        (λ stat (e : String × TraceEvent L). write_trace stat e.1)

  abbrev pub on_event :
      Option String → TraceEvent L → Assoc String (TraceStats L) → Assoc String (TraceStats L)
  unfolding write_source
  on_event sent_from ev prev =
      if is_set sent_from then write_source prev (or_else sent_from "", ev) else prev

  -- The effect is left: its request is aborted and what it has read is dropped.
  abbrev pub leave_effect : TraceRead L → TraceRead L
  leave_effect s = record s {
    trace_stats_map = [];
    is_running = false;
    waits = false;
    reading = false;
  }

  -- The effect depends on `paused`: it is left when the button is pressed for the first time.
  abbrev pub on_stop : TraceRead L → TraceRead L
  on_stop s =
      let kept : TraceRead L = record s { snapshot = some s.trace_stats_map; paused = true } in
      if s.paused then kept else leave_effect kept

  abbrev pub on_resume : TraceRead L → TraceRead L
  on_resume s = record s {
    snapshot = none;
    paused = false;
    waits = if s.paused then true else s.waits;
  }

  unfoldable pub trace_step : TraceRead L → TraceReadEvent L → TraceRead L
  unfolding on_event
  trace_step s opened =
      if s.waits then record s { waits = false; reading = true; is_running = true } else s
  trace_step s (read sent_from ev) =
      if s.reading
      then record s { trace_stats_map = on_event sent_from ev s.trace_stats_map }
      else s
  trace_step s done = if s.reading then record s { is_running = false; reading = false } else s
  trace_step s failed = record s { waits = false; reading = false }
  trace_step s stop_tick = on_stop s
  trace_step s resume_tick = on_resume s

  -- `snapshop || traceStatsMap`
  abbrev pub shown_map : TraceRead L → Assoc String (TraceStats L)
  shown_map s = or_else s.snapshot s.trace_stats_map
