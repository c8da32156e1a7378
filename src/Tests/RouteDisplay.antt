-- ===== src/Tests/RouteDisplay.antt =====
-- web/components/RouteQueryResultDisplay.tsx: the first page of a provider has come.
use rbmq_demo.Common.{◌≡◌, refl, ℕ, List, [], ◌∷◌, some, none, true, string_key, All}
use rbmq_demo.Common.Dict.{get, set}
use rbmq_demo.Mrt.{
  MrtEntry, Hook, Reader, value, done, ResumableResponseStreamEvent, update, deliver, restart,
}
use rbmq_demo.Mrt.Pages.{Steps, here, and_then, restarted, delivered, initial_hook}
use rbmq_demo.RouteDisplay.{RouteDisplay, all_entries, press_load_more, press_refresh, stats_of}
use rbmq_demo.RouteDisplay.Stats.{
  path_lengths, IsLeastOf, IsMostOf, PathWithin, stats_of-PathWithin,
}
use rbmq_demo.RouteDisplay.Pages.{press_load_more-all_entries}

abbrev entry_with : List ℕ → MrtEntry
entry_with path = record { prefix_text = "0/0"; peer = none; peer_as = some 3; as_path = some path }

abbrev line : ResumableResponseStreamEvent
line = record {
  inner = record { entry = some (entry_with (3 ∷ 7 ∷ [])); err = none };
  cursor_id = some "next";
}

abbrev reader : Reader
reader = record { controller = 0; provider = "arin" }

abbrev asked : Hook
asked = restart true ("arin" ∷ []) initial_hook

abbrev read_once : Hook
read_once = deliver reader (value line) asked

abbrev ended : Hook
ended = deliver reader done read_once

abbrev display : RouteDisplay
display = record { hook = ended; active_provider = "apnic"; loaded_pages_data = [] }

ended-Steps : Steps initial_hook ended
unfolding restart deliver
ended-Steps = and_then initial_hook asked ended (restarted true ("arin" ∷ []) initial_hook) (
    and_then asked read_once ended (delivered reader (value line) asked refl)
      (and_then read_once ended ended (delivered reader done read_once refl) (here ended)))

press_load_more-all_entries_example :
    all_entries "arin" (press_load_more ("arin" ∷ []) display) ≡ all_entries "arin" display
press_load_more-all_entries_example =
    press_load_more-all_entries ("arin" ∷ []) display "arin" ended-Steps

pages_run :
    (all_entries "arin" display ≡ entry_with (3 ∷ 7 ∷ []) ∷ [])
    × (all_entries "arin" (press_refresh true ("arin" ∷ []) display) ≡ [])
unfolding all_entries press_refresh restart deliver update get set
pages_run = (refl, refl)

stats_run :
    stats_of (entry_with (3 ∷ 7 ∷ []) ∷ entry_with (7 ∷ []) ∷ entry_with [] ∷ [])
    ≡ record { count = 3; origins = 1; peers = 1; max_path_len = 2; min_path_len = some 1 }
unfolding stats_of
stats_run = refl

stats_of-PathWithin_example :
    let stats = stats_of (entry_with (3 ∷ 7 ∷ []) ∷ entry_with [] ∷ []) in
    IsLeastOf stats.min_path_len (path_lengths (entry_with (3 ∷ 7 ∷ []) ∷ entry_with [] ∷ []))
    × IsMostOf stats.max_path_len (path_lengths (entry_with (3 ∷ 7 ∷ []) ∷ entry_with [] ∷ []))
    × All
        (λ e. PathWithin stats.min_path_len stats.max_path_len e.as_path)
        (entry_with (3 ∷ 7 ∷ []) ∷ entry_with [] ∷ [])
stats_of-PathWithin_example = stats_of-PathWithin (entry_with (3 ∷ 7 ∷ []) ∷ entry_with [] ∷ [])
