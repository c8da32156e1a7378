-- ===== src/RouteDisplay.antt =====
-- web/components/RouteQueryResultDisplay.tsx: the pages that the display of a route query keeps, on
-- top of the hook that Mrt models.
pub mod Pages
pub mod Stats
use rbmq_demo.Common.{
  ℕ, ◌%◌, min, max, String, Option, none, some, List, [], ◌∷◌, ◌++◌, Bool, true, false, not, ◌&&◌,
  ◌||◌, ◌==◌, string_key, nat_key, length, last?, get_elem?, if◌then◌else◌,
}
use rbmq_demo.Common.Codes.{add_new}
use rbmq_demo.Common.Dict.{Assoc, get, set}
use rbmq_demo.Common.Groups.{foldl}
use rbmq_demo.IpQuery.{contains_text}
use rbmq_demo.Mrt.{
  MrtEntry, ResumableResponseStreamEvent, ProviderMrtEntriesState, Hook, restart, load_more,
}
use rbmq_demo.Trace.{is_set, or_else}

pub record RouteDisplay : Type 0 where
  pub hook : Hook
  pub active_provider : String
  pub loaded_pages_data : Assoc String (List (List ResumableResponseStreamEvent))

pub record RouteQueryStatsData : Type 0 where
  pub count : ℕ
  pub origins : ℕ
  pub peers : ℕ
  pub max_path_len : ℕ
  pub min_path_len : Option ℕ

abbrev pub first_source : List String → String
first_source [] = ""
first_source (s ∷ sources) = s

abbrev pub valid_provider : List String → String → String
valid_provider sources active =
    if contains_text active sources then active else first_source sources

-- `activeState?.entries ?? []`
abbrev pub entries_in : Option ProviderMrtEntriesState → List MrtEntry
entries_in none = []
entries_in (some s) = s.entries

abbrev pub page_events_in : Option ProviderMrtEntriesState → List ResumableResponseStreamEvent
page_events_in none = []
page_events_in (some s) = s.page_events

-- The entries that events carry, those without one left out.
abbrev pub cons_entry : Option MrtEntry → List MrtEntry → List MrtEntry
cons_entry none rest = rest
cons_entry (some e) rest = e ∷ rest

abbrev pub event_entries : List ResumableResponseStreamEvent → List MrtEntry
event_entries [] = []
event_entries (ev ∷ evs) = let rest = event_entries evs in cons_entry ev.inner.entry rest

abbrev pub flat : List (List ResumableResponseStreamEvent) → List ResumableResponseStreamEvent
flat [] = []
flat (page ∷ pages) = page ++ flat pages

unfoldable pub all_entries : String → RouteDisplay → List MrtEntry
unfolding get
all_entries provider d =
    event_entries (flat (or_else (get d.loaded_pages_data provider) []))
    ++ entries_in (get d.hook.provider_map provider)

-- `cursorId && !isRunning`: whether there is a button for the next page.
abbrev pub shows_load_more : Option ProviderMrtEntriesState → Bool
shows_load_more none = false
shows_load_more (some s) = is_set s.cursor_id && not s.is_running

-- The page that is shown is kept, and the hook asks for the next one.
abbrev pub keep_page : String → RouteDisplay → RouteDisplay
unfolding get set load_more
keep_page provider d = record d {
  loaded_pages_data = set d.loaded_pages_data provider (
      or_else (get d.loaded_pages_data provider) []
      ++ page_events_in (get d.hook.provider_map provider) ∷ []);
  hook = load_more provider d.hook;
}

unfoldable pub press_load_more : List String → RouteDisplay → RouteDisplay
unfolding keep_page
press_load_more sources d =
    let provider : String = valid_provider sources d.active_provider in
    if shows_load_more (get d.hook.provider_map provider) then keep_page provider d else d

-- The pages are dropped, and the effect of the hook runs again for the new generation.
unfoldable pub press_refresh : Bool → List String → RouteDisplay → RouteDisplay
unfolding restart
press_refresh has_target sources d = record d {
  loaded_pages_data = [];
  hook = restart has_target sources d.hook;
}

-- The local variables of `stats`, with the two sets as lists.
pub record StatsScope : Type 0 where
  pub origin_set : List ℕ
  pub peer_set : List ℕ
  pub max_len : ℕ
  pub min_len : Option ℕ

abbrev pub min_of : Option ℕ → ℕ → ℕ
min_of none n = n
min_of (some m) n = min m n

abbrev pub add_option : List ℕ → Option ℕ → List ℕ
add_option ns none = ns
add_option ns (some n) = add_new ns n

abbrev pub add_path : StatsScope → Option (List ℕ) → StatsScope
add_path sc none = sc
add_path sc (some []) = sc
add_path sc (some (n ∷ path)) = record sc {
  origin_set = add_option sc.origin_set (last? (n ∷ path));
  max_len = max sc.max_len (length (n ∷ path));
  min_len = some (min_of sc.min_len (length (n ∷ path)));
}

abbrev pub add_stats : StatsScope → MrtEntry → StatsScope
add_stats sc e =
    let with_path : StatsScope = add_path sc e.as_path in
    record with_path { peer_set = add_option with_path.peer_set e.peer_as }

abbrev pub empty_scope : StatsScope
empty_scope = record { origin_set = []; peer_set = []; max_len = 0; min_len = none }

unfoldable pub stats_of : List MrtEntry → RouteQueryStatsData
stats_of entries =
    let sc : StatsScope = foldl add_stats empty_scope entries in
    record {
      count = length entries;
      origins = length sc.origin_set;
      peers = length sc.peer_set;
      max_path_len = sc.max_len;
      min_path_len = sc.min_len;
    }
