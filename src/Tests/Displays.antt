-- ===== src/Tests/Displays.antt =====
-- web/components/EventsBrowser.tsx and web/components/dnsprobedisplay.tsx: few events.
use rbmq_demo.Common.{
  ◌≡◌, ◌↔◌, filter, refl, ℕ, String, none, some, true, Bool, List, [], ◌∷◌, string_key,
}
use mathlib.Core.List.{Perm}
use rbmq_demo.Common.Cells.{get_cell}
use rbmq_demo.Common.Dict.{get, set}
use rbmq_demo.Common.Firsts.{firsts}
use rbmq_demo.Common.Groups.{foldl}
use rbmq_demo.Common.Integers.{pos, negsuc, int_leb}
use rbmq_demo.Common.Sort.{IsSorted, sort_by, insert_by}
use rbmq_demo.HttpProbe.{EventObject}
use rbmq_demo.EventsRead.{apply_evs_label_filter, add_value, use_evs_read, toggle_label}
use rbmq_demo.EventsRead.Shown.{Passes, use_evs_read_lem}
use rbmq_demo.DnsAnswers.{DnsResponse, DnsEvent, update_answers_map}
use rbmq_demo.DnsAnswers.Last.{last_or, answers_of, get_cell-answers}

abbrev event : String → ℕ → String → EventObject
event id time source = record {
  id = id;
  timestamp = pos time;
  message = "";
  labels = ("from", source) ∷ [];
  annotations = none;
}

abbrev read_events : List EventObject
read_events = event "2" 20 "a" ∷ event "1" 10 "a" ∷ event "2" 5 "a" ∷ event "3" 1 "b" ∷ []

abbrev never : String → String → Bool
never s t = true

shown_run :
    use_evs_read never (some (("from", "a") ∷ [])) read_events
    ≡ event "1" 10 "a" ∷ event "2" 20 "a" ∷ []
unfolding use_evs_read add_value apply_evs_label_filter sort_by insert_by get
shown_run = refl

-- An event of before 1970 stands before one of after.
early_run :
    use_evs_read never none
      (event "1" 10 "a" ∷ record (event "2" 0 "a") { timestamp = negsuc 4 } ∷ [])
    ≡ record (event "2" 0 "a") { timestamp = negsuc 4 } ∷ event "1" 10 "a" ∷ []
unfolding use_evs_read add_value apply_evs_label_filter sort_by insert_by get
early_run = refl

toggle_run :
    toggle_label "from" "a" (toggle_label "from" "a" (("correlationId", "t") ∷ []))
    ≡ ("correlationId", "t") ∷ []
unfolding toggle_label get set
toggle_run = refl

use_evs_read_lem_example :
    (passes : EventObject → Bool) × ((ev : EventObject)
      → (passes ev ≡ true) ↔ Passes (some (("from", "a") ∷ [])) ev)
    × Perm
        (use_evs_read never (some (("from", "a") ∷ [])) read_events)
        (filter passes (firsts (λ (ev : EventObject). ev.id) read_events))
    × IsSorted
        (λ a b. int_leb a.timestamp b.timestamp)
        (use_evs_read never (some (("from", "a") ∷ [])) read_events)
use_evs_read_lem_example = use_evs_read_lem never (some (("from", "a") ∷ [])) read_events

abbrev response : String → DnsResponse
response server = record {
  corr_id = some "0";
  server = some server;
  target = none;
  query_type = none;
  answers = none;
  answer_strings = none;
  error = none;
  err_string = none;
  io_timeout = none;
  no_such_host = none;
  elapsed = none;
  started_at = none;
  timeout_specified = none;
  transport_used = none;
}

abbrev dns_event : String → String → DnsEvent
dns_event source server = record {
  payload = some (response server);
  metadata = some (record { sent_from = some source; target = none });
}

abbrev dns_events : List DnsEvent
dns_events = dns_event "a" "x" ∷ dns_event "b" "y" ∷ dns_event "a" "z" ∷ dns_event "" "w" ∷ []

get_cell-answers_example :
    get_cell (foldl update_answers_map [] dns_events) "a" "0"
    ≡ last_or none (answers_of "a" "0" dns_events)
get_cell-answers_example = get_cell-answers "a" "0" dns_events

answers_run : last_or none (answers_of "a" "0" dns_events) ≡ some (response "z" ∷ [])
answers_run = refl
