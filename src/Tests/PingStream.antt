-- ===== src/Tests/PingStream.antt =====
-- web/apis/globalping.ts: a stream that is cancelled, and the parameters of a request.
use rbmq_demo.Common.{◌≡◌, refl, ℕ, none, some, true, [], ◌∷◌, ◌++◌, map, false}
use rbmq_demo.Common.Decimal.{number_text, decimal}
use rbmq_demo.PingStream.{udp, ping_params, response, read, cancel, started, step, run_events}
use rbmq_demo.PingStream.Cancelled.{reading_on, enqueued-cancelled, run_events-cancelled_early}

params_run :
    ping_params (record {
      sources = "a" ∷ "b" ∷ [];
      targets = "t" ∷ [];
      count = some 0;
      interval_ms = 300;
      pkt_timeout_ms = 3000;
      resolver = some "";
      ttl = some "auto";
      ip_info_provider_name = none;
      prefer_v4 = some true;
      prefer_v6 = some false;
      l4_packet_type = some udp;
      random_payload_size = some 1500;
    })
    ≡ ("from", "a,b")
      ∷ ("targets", "t")
      ∷ ("intervalMs", "300")
      ∷ ("pktTimeoutMs", "3000")
      ∷ ("ttl", "auto")
      ∷ ("preferV4", "true")
      ∷ ("l4PacketType", "udp")
      ∷ ("randomPayloadSize", "1500")
      ∷ []
unfolding ping_params number_text decimal
params_run = refl

enqueued-cancelled_example :
    (run_events {S = ℕ} started
      ((response true ∷ read 7 ∷ []) ++ cancel ∷ read 8 ∷ response true ∷ read 9 ∷ [])).enqueued
    ≡ 7 ∷ []
unfolding step
enqueued-cancelled_example =
    enqueued-cancelled (response true ∷ read 7 ∷ []) (read 8 ∷ response true ∷ read 9 ∷ [])

run_events-cancelled_early_example :
    run_events {S = ℕ} started (cancel ∷ response true ∷ map read (7 ∷ 8 ∷ []))
    ≡ reading_on true (7 ∷ 8 ∷ []) []
run_events-cancelled_early_example = run_events-cancelled_early (7 ∷ 8 ∷ [])
