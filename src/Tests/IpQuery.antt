-- ===== src/Tests/IpQuery.antt =====
-- web/apis/ip-query.ts: two providers are asked, one answers.
use rbmq_demo.Common.{String, ◌≡◌, refl, List, [], ◌∷◌, ◌++◌, map, some, none, string_key}
use rbmq_demo.Common.Dict.{get, set}
use rbmq_demo.IpQuery.{
  IpQueryResultEntry, entry, done, fresh_state, initial_states, process_ip_query_stream,
  use_ip_query_by_provider,
}
use rbmq_demo.IpQuery.Answers.{
  answers, after_answers, process_ip_query_stream-done, use_ip_query_by_provider_silent,
}
use rbmq_demo.Common.{ℕ}

-- Locations are not looked at.
abbrev answer : IpQueryResultEntry ℕ
answer = record { sent_from = "ipinfo"; ip = "1.1.1.1"; result = none; err = some "no data" }

abbrev asked : List String
asked = "ipinfo" ∷ "dn42" ∷ []

process_ip_query_stream-done_example :
    get
      (process_ip_query_stream (initial_states asked) [] (map entry (answer ∷ []) ++ done ∷ []))
      "ipinfo"
    ≡ after_answers (some fresh_state) (answers "ipinfo" (answer ∷ []))
unfolding get set
process_ip_query_stream-done_example =
    process_ip_query_stream-done (answer ∷ []) (initial_states asked) "ipinfo"

use_ip_query_by_provider_silent_example :
    get
      (use_ip_query_by_provider ("1.1.1.1" ∷ []) asked (map entry (answer ∷ []) ++ done ∷ []))
      "dn42"
    ≡ some fresh_state
use_ip_query_by_provider_silent_example =
    use_ip_query_by_provider_silent "1.1.1.1" [] asked (answer ∷ []) "dn42" refl refl
