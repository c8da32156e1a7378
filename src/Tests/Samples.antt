-- ===== src/Tests/Samples.antt =====
-- The samples of web/apis/globalping.ts on concrete events, and the table of web/apis/trace.ts.
use rbmq_demo.Common.{ℕ, ◌≡◌, refl, List, [], ◌∷◌, Option, some, none, true, nat_beq, if◌then◌else◌}
use rbmq_demo.JsonLines.{Text}
use rbmq_demo.Trace.{RawPingEvent, RawPingEventData}
use rbmq_demo.Trace.Table.{loss_percent}
use rbmq_demo.Common.Decimal.{number_text}
use rbmq_demo.Samples.{PingSample, RawTcpPingEventData, received, generate_ping_sample_stream}

number_text_runs : number_text 1075 ≡ "1075"
unfolding number_text
number_text_runs = refl

-- 12.5 rounds up.
loss_percent_runs : loss_percent 1 8 ≡ 13
unfolding loss_percent
loss_percent_runs = refl

-- Locations are not looked at.
abbrev answered : RawTcpPingEventData ℕ
answered = record {
  type_of = received;
  details = some (record {
    seq = some 3;
    request = none;
    received_pkt = none;
    rtt = some 7000000;
    sent_ttl = some 64;
  });
}

abbrev tcp : RawPingEvent (RawTcpPingEventData ℕ)
tcp = record {
  data_of = some answered;
  metadata = some (record { sent_from = some "us-lax1"; target = some "example.com" });
  err = none;
  error = none;
}

abbrev no_answer : RawPingEventData ℕ
no_answer = record {
  rtt_milli_secs = none;
  rtt_nano_secs = none;
  raw = some [];
  received_at = none;
  seq = some 5;
  ttl = some 64;
}

abbrev icmp : RawPingEvent (RawPingEventData ℕ)
icmp = record {
  data_of = some no_answer;
  metadata = some (record { sent_from = some "us-lax1"; target = some "example.com" });
  err = none;
  error = none;
}

-- A stand-in for JSON: the text "1" is an event.
abbrev json_parse : Text → Option ℕ
json_parse (c ∷ []) = if nat_beq c 49 then some 1 else none
json_parse _ = none

abbrev stream : List Text → List (PingSample ℕ)
stream = generate_ping_sample_stream json_parse (λ n. tcp) (λ n. icmp) true
