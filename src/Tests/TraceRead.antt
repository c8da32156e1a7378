-- ===== src/Tests/TraceRead.antt =====
-- web/components/traceroutedisplay.tsx: a trace that is paused, and one whose stream fails.
use rbmq_demo.Common.{
  ◌≡◌, refl, ℕ, String, Option, none, some, List, [], ◌∷◌, ◌++◌, string_key, true, false,
}
use rbmq_demo.Common.Groups.{foldl}
use rbmq_demo.Trace.{TraceEvent}
use rbmq_demo.TraceRead.{
  opened, read, failed, done, stop_tick, resume_tick, mounted, trace_step, shown_map, write_source,
}
use rbmq_demo.TraceRead.Paused.{reads, named, reading_with, shown_map-paused, is_running-failed}

abbrev reply : ℕ → TraceEvent ℕ
reply seq = record {
  err = "";
  seq = seq;
  rtt_ms = 7;
  peer = "p";
  peer_rdns = "";
  ip_packet_size = 64;
  timeout = false;
  asn = "";
  isp = "";
  country_alpha2 = "";
  city = "";
  exact_location = none;
  ttl = 60;
  origin_ttl = 1;
  last_hop = true;
  pmtu = none;
}

-- The second one names no node.
abbrev answered : List (Option String × TraceEvent ℕ)
answered = (some "a", reply 1) ∷ (none, reply 2) ∷ (some "b", reply 3) ∷ []

named_run : named answered ≡ ("a", reply 1) ∷ ("b", reply 3) ∷ []
named_run = refl

shown_map-paused_example :
    let s = reading_with (write_source [] ("a", reply 1)) in
    let during =
      foldl trace_step (trace_step s stop_tick) (read (some "a") (reply 2) ∷ failed ∷ []) in
    let after = trace_step during resume_tick in
    (shown_map during ≡ s.trace_stats_map)
    × (during.is_running ≡ false)
    × (shown_map after ≡ [])
    × (after.waits ≡ true)
shown_map-paused_example =
    shown_map-paused (reading_with (write_source [] ("a", reply 1)))
      (read (some "a") (reply 2) ∷ failed ∷ []) refl (refl, (refl, tt))

is_running-failed_example :
    let s =
      foldl trace_step mounted
        (opened ∷ reads answered ++ failed ∷ done ∷ read (some "a") (reply 4) ∷ []) in
    (s.is_running ≡ true)
    × (s.reading ≡ false)
    × (s.trace_stats_map ≡ foldl write_source [] (named answered))
is_running-failed_example =
    is_running-failed answered (done ∷ read (some "a") (reply 4) ∷ []) (refl, (refl, tt))
