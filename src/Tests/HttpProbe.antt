-- ===== src/Tests/HttpProbe.antt =====
-- web/apis/httpprobe.ts on concrete events.
use rbmq_demo.Common.{
  String, ◌≡◌, refl, [], ◌∷◌, map, Option, some, none, ◌==◌, string_key, if◌then◌else◌,
}
use rbmq_demo.Common.Integers.{ℤ, pos}
use rbmq_demo.Trace.{RawPingEvent}
use rbmq_demo.HttpProbe.{HttpProbeEvent, convert, adapt_from}
use rbmq_demo.HttpProbe.Labels.{IsObjectOf, convert-IsObjectOf}

-- Dates of one text only can be read.
abbrev date_parse : String → Option ℤ
date_parse d = if d == "2025-06-20T12:00:00Z" then some (pos 1750420800000) else none

abbrev event : String → RawPingEvent HttpProbeEvent
event date = record {
  data_of = some (record {
    transport = some (record {
      type_of = some "response";
      name = some "status";
      value = some "200";
      date = some date;
    });
    error = none;
    correlation_id = some "http://example.com/";
  });
  metadata = some (record { sent_from = some "us-lax1"; target = none });
  err = none;
  error = none;
}

-- The number counts the events that are not shown, but not what is null.
adapt_from_runs :
    map
      (λ o. o.id)
      (adapt_from date_parse
        (pos 0)
        0
        (none ∷ some (event "soon") ∷ some (event "2025-06-20T12:00:00Z") ∷ []))
    ≡ "us-lax1:http://example.com/:1" ∷ []
unfolding adapt_from
adapt_from_runs = refl

convert-IsObjectOf_example :
    IsObjectOf date_parse
      (pos 0)
      (event "2025-06-20T12:00:00Z")
      4
      (convert date_parse (pos 0) (event "2025-06-20T12:00:00Z") 4)
convert-IsObjectOf_example = convert-IsObjectOf date_parse (pos 0) (event "2025-06-20T12:00:00Z") 4
