-- ===== src/Mrt.antt =====
-- web/apis/mrtProviders.ts: the entries of several providers, read page by page from streams that
-- can be aborted.
pub mod Pages
pub mod Stuck
pub mod Starved
pub mod Queries
use rbmq_demo.Common.{
  ℕ, ◌+◌, String, Option, none, some, List, [], ◌∷◌, ◌++◌, map, Bool, true, false, not, ◌||◌, ◌&&◌,
  ◌==◌, string_key, nat_beq, if◌then◌else◌,
}
use rbmq_demo.Common.Dict.{Assoc, get, set, is_some}
use rbmq_demo.Trace.{is_set, or_else}
use rbmq_demo.Common.Groups.{foldl}

pub record MrtEntry : Type 0 where
  pub prefix_text : String
  pub peer : Option String
  pub peer_as : Option ℕ
  pub as_path : Option (List ℕ)

pub record MrtEntryDataEvent : Type 0 where
  pub entry : Option MrtEntry
  pub err : Option String

pub record ResumableResponseStreamEvent : Type 0 where
  pub inner : MrtEntryDataEvent
  pub cursor_id : Option String

pub record ProviderMrtEntriesState : Type 0 where
  pub entries : List MrtEntry
  pub is_running : Bool
  pub error : Option String
  pub cursor_id : Option String
  pub page_events : List ResumableResponseStreamEvent

abbrev pub ProviderEntriesMap : Type 0
ProviderEntriesMap = Assoc String ProviderMrtEntriesState

-- The state of a page that is asked for.
abbrev pub fresh_page : ProviderMrtEntriesState
fresh_page = record {
  entries = [];
  is_running = true;
  error = none;
  cursor_id = none;
  page_events = [];
}

-- `a ?? b`
abbrev pub first_of : Option String → Option String → Option String
first_of none b = b
first_of (some a) b = some a

abbrev pub add_entry : List MrtEntry → Option MrtEntry → List MrtEntry
add_entry entries none = entries
add_entry entries (some e) = entries ++ e ∷ []

abbrev pub add_event :
    ResumableResponseStreamEvent → ProviderMrtEntriesState → ProviderMrtEntriesState
add_event ev cur = record {
  entries = add_entry cur.entries ev.inner.entry;
  is_running = cur.is_running;
  error = first_of ev.inner.err cur.error;
  cursor_id = first_of ev.cursor_id cur.cursor_id;
  page_events = cur.page_events ++ ev ∷ [];
}

abbrev pub stop : ProviderMrtEntriesState → ProviderMrtEntriesState
stop cur = record {
  entries = cur.entries;
  is_running = false;
  error = cur.error;
  cursor_id = cur.cursor_id;
  page_events = cur.page_events;
}

abbrev pub fail : String → ProviderMrtEntriesState → ProviderMrtEntriesState
fail message cur = record {
  entries = cur.entries;
  is_running = false;
  error = some message;
  cursor_id = cur.cursor_id;
  page_events = cur.page_events;
}

-- What comes of a stream: a line, its end, a read that throws, no reader, or a promise that is
-- rejected, by an abort or for another reason.
pub data Read : Type 0 where
  value : ResumableResponseStreamEvent → Read
  done read_failed no_reader abort_error : Read
  rejected : String → Read

-- `setProviderMap` with an update of the provider's state, if it has one.
unfoldable pub update :
    ProviderEntriesMap
    → String
    → (ProviderMrtEntriesState → ProviderMrtEntriesState)
    → ProviderEntriesMap
unfolding get set
update m provider f = put (get m provider)
  where
    put : Option ProviderMrtEntriesState → ProviderEntriesMap
    put none = m
    put (some cur) = set m provider (f cur)

-- `processMRTStream`, what one result does to the map while the signal is not aborted.
abbrev pub on_read : String → Read → ProviderEntriesMap → ProviderEntriesMap
on_read provider (value ev) m = update m provider (add_event ev)
on_read provider done m = update m provider stop
on_read provider read_failed m = update m provider stop
on_read provider no_reader m = update m provider stop
on_read provider abort_error m = m
on_read provider (rejected message) m = update m provider (fail message)

-- The loop reads on after a line.
abbrev pub reads_on : Read → Bool
reads_on (value ev) = true
reads_on _ = false

-- A call of `processMRTStream`: the number of its abort controller, and its provider.
pub record Reader : Type 0 where
  pub controller : ℕ
  pub provider : String

-- The state of the hook: the map, the abort controllers that are aborted, by number, the number of
-- the next one, those of the main query and of `loadMoreAcRef`, and the calls that still read.
pub record Hook : Type 0 where
  pub provider_map : ProviderEntriesMap
  pub aborted : List ℕ
  pub next_controller : ℕ
  pub main_query : Option ℕ
  pub load_more_ref : Option ℕ
  pub readers : List Reader

abbrev pub is_aborted : ℕ → List ℕ → Bool
is_aborted n [] = false
is_aborted n (m ∷ ms) = nat_beq m n || is_aborted n ms

-- `controller?.abort()`
abbrev pub abort : Option ℕ → List ℕ → List ℕ
abort none aborted = aborted
abort (some n) aborted = n ∷ aborted

abbrev pub same_reader : Reader → Reader → Bool
same_reader q r = nat_beq q.controller r.controller && q.provider == r.provider

abbrev pub has_reader : Reader → List Reader → Bool
has_reader r [] = false
has_reader r (q ∷ qs) = same_reader q r || has_reader r qs

abbrev pub remove_reader : Reader → List Reader → List Reader
remove_reader r [] = []
remove_reader r (q ∷ qs) = let rest = remove_reader r qs in if same_reader q r then qs else q ∷ rest

-- A result arrives at a reader; a reader whose signal is aborted stops and leaves the map alone.
unfoldable pub deliver : Reader → Read → Hook → Hook
unfolding update
deliver r read h =
    let live = not (is_aborted r.controller h.aborted) in
    record {
      provider_map = if live then on_read r.provider read h.provider_map else h.provider_map;
      aborted = h.aborted;
      next_controller = h.next_controller;
      main_query = h.main_query;
      load_more_ref = h.load_more_ref;
      readers = if live && reads_on read then h.readers else remove_reader r h.readers;
    }

-- The map with a fresh page for each provider.
abbrev pub initial_map : List String → ProviderEntriesMap
initial_map providers = foldl (λ m p. set m p fresh_page) [] providers

-- The effect of the hook, after the cleanup of the one before it: `has_target` tells whether the
-- target is there and not blank.
unfoldable pub restart : Bool → List String → Hook → Hook
unfolding set
restart false providers h = record {
  provider_map = [];
  aborted = abort h.main_query h.aborted;
  next_controller = h.next_controller;
  main_query = none;
  load_more_ref = h.load_more_ref;
  readers = h.readers;
}
restart true [] h = record {
  provider_map = h.provider_map;
  aborted = abort h.main_query h.aborted;
  next_controller = h.next_controller;
  main_query = none;
  load_more_ref = h.load_more_ref;
  readers = h.readers;
}
restart true (p ∷ ps) h = record {
  provider_map = initial_map (p ∷ ps);
  aborted = abort h.load_more_ref (abort h.main_query h.aborted);
  next_controller = h.next_controller + 1;
  main_query = some h.next_controller;
  load_more_ref = none;
  readers =
      h.readers ++ map (λ q. record { controller = h.next_controller; provider = q }) (p ∷ ps);
}

-- Whether `loadMore` asks for the next page.
abbrev pub can_load : Option ProviderMrtEntriesState → Bool
can_load none = false
can_load (some s) = is_set s.cursor_id && not s.is_running

unfoldable pub load_more : String → Hook → Hook
unfolding get set
load_more p h =
    if can_load (get h.provider_map p)
    then record {
      provider_map = set h.provider_map p fresh_page;
      aborted = abort h.load_more_ref h.aborted;
      next_controller = h.next_controller + 1;
      main_query = h.main_query;
      load_more_ref = some h.next_controller;
      readers = h.readers ++ record { controller = h.next_controller; provider = p } ∷ [];
    }
    else h
