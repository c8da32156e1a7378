-- ===== src/Mrt/Pages.antt =====
-- mrtProviders.ts: every state that the hook can reach shows pages as they were received.
use rbmq_demo.Common.{
  String, Option, none, some, List, [], ◌∷◌, ◌++◌, Bool, true, false, ◌==◌, string_key,
  if◌then◌else◌, ◌≡◌, refl, sym, subst, ap, ◌∙◌, arith, Bool-cases, Option-cases, inl, inr,
}
use mathlib.Core.Option
use rbmq_demo.Common.Dict.{get, set, get-set}
use rbmq_demo.Common.Groups.{foldl}
use rbmq_demo.Mrt.{
  MrtEntry, ResumableResponseStreamEvent, ProviderMrtEntriesState, ProviderEntriesMap, fresh_page,
  first_of, add_entry, add_event, stop, fail, Read, value, done, read_failed, no_reader,
  abort_error, rejected, update, on_read, Reader, Hook, is_aborted, has_reader, deliver, restart,
  can_load, load_more,
}

-- The entries that some events carry.
abbrev pub entries_of : List MrtEntry → List ResumableResponseStreamEvent → List MrtEntry
entries_of before [] = before
entries_of before (ev ∷ evs) = entries_of (add_entry before ev.inner.entry) evs

-- The last cursor that some events name.
abbrev pub cursor_of : Option String → List ResumableResponseStreamEvent → Option String
cursor_of before [] = before
cursor_of before (ev ∷ evs) = cursor_of (first_of ev.cursor_id before) evs

-- The entries and the cursor of a state are those of the events of its page.
pub record IsPage (s : ProviderMrtEntriesState) : Type 0 where
  pub same_entries : s.entries ≡ entries_of [] s.page_events
  pub same_cursor : s.cursor_id ≡ cursor_of none s.page_events

abbrev pub ArePages : ProviderEntriesMap → Type 0
ArePages m = (p : String) (s : ProviderMrtEntriesState) → get m p ≡ some s → IsPage s

entries_of-snoc :
    (evs : List ResumableResponseStreamEvent) (before : List MrtEntry)
    (ev : ResumableResponseStreamEvent)
    → entries_of before (evs ++ ev ∷ []) ≡ add_entry (entries_of before evs) ev.inner.entry
entries_of-snoc [] before ev = refl
entries_of-snoc (e ∷ es) before ev = entries_of-snoc es (add_entry before e.inner.entry) ev

cursor_of-snoc :
    (evs : List ResumableResponseStreamEvent) (before : Option String)
    (ev : ResumableResponseStreamEvent)
    → cursor_of before (evs ++ ev ∷ []) ≡ first_of ev.cursor_id (cursor_of before evs)
cursor_of-snoc [] before ev = refl
cursor_of-snoc (e ∷ es) before ev = cursor_of-snoc es (first_of e.cursor_id before) ev

add_event-IsPage :
    (ev : ResumableResponseStreamEvent) (s : ProviderMrtEntriesState)
    → IsPage s
    → IsPage (add_event ev s)
add_event-IsPage ev s h = record {
  same_entries =
      ap (λ es. add_entry es ev.inner.entry) h.same_entries
      ∙ sym (entries_of-snoc s.page_events [] ev);
  same_cursor =
      ap (first_of ev.cursor_id) h.same_cursor ∙ sym (cursor_of-snoc s.page_events none ev);
}

set-ArePages :
    (m : ProviderEntriesMap) (p : String) (s : ProviderMrtEntriesState)
    → IsPage s
    → ArePages m
    → ArePages (set m p s)
set-ArePages m p s new old q t e =
    let at = sym (get-set m p q s) ∙ e in
    elim (Bool-cases (p == q)) [
      | inl same ↦
          subst IsPage
            (Option.some-injective s t (sym (ap (λ b. if b then some s else get m q) same) ∙ at))
            new
      | inr other ↦ old q t (sym (ap (λ b. if b then some s else get m q) other) ∙ at)
    ]

update-ArePages :
    (m : ProviderEntriesMap) (p : String) (f : ProviderMrtEntriesState → ProviderMrtEntriesState)
    → ((s : ProviderMrtEntriesState) → IsPage s → IsPage (f s))
    → ArePages m
    → ArePages (update m p f)
unfolding update
update-ArePages m p f keeps h = elim (Option-cases (get m p)) [
  | inl e ↦ rw e h
  | inr (s, e) ↦ rw e (set-ArePages m p (f s) (keeps s (h p s e)) h)
]

on_read-ArePages :
    (p : String) (read : Read) (m : ProviderEntriesMap) → ArePages m → ArePages (on_read p read m)
on_read-ArePages p (value ev) m h = update-ArePages m p (add_event ev) (add_event-IsPage ev) h
on_read-ArePages p done m h =
    update-ArePages m p stop
      (λ s k. record { same_entries = k.same_entries; same_cursor = k.same_cursor }) h
on_read-ArePages p read_failed m h =
    update-ArePages m p stop
      (λ s k. record { same_entries = k.same_entries; same_cursor = k.same_cursor }) h
on_read-ArePages p no_reader m h =
    update-ArePages m p stop
      (λ s k. record { same_entries = k.same_entries; same_cursor = k.same_cursor }) h
on_read-ArePages p abort_error m h = h
on_read-ArePages p (rejected message) m h =
    update-ArePages m p (fail message)
      (λ s k. record { same_entries = k.same_entries; same_cursor = k.same_cursor }) h

deliver-ArePages :
    (r : Reader) (read : Read) (h : Hook)
    → ArePages h.provider_map
    → ArePages (deliver r read h).provider_map
unfolding deliver
deliver-ArePages r read h pages = elim (Bool-cases (is_aborted r.controller h.aborted)) [
  | inl e ↦ rw e pages
  | inr e ↦ rw e (on_read-ArePages r.provider read h.provider_map pages)
]

fresh_page-IsPage : IsPage fresh_page
fresh_page-IsPage = record { same_entries = refl; same_cursor = refl }

initial_map-ArePages :
    (ps : List String) (m : ProviderEntriesMap)
    → ArePages m
    → ArePages (foldl (λ m p. set m p fresh_page) m ps)
initial_map-ArePages [] m h = h
initial_map-ArePages (p ∷ ps) m h =
    initial_map-ArePages ps (set m p fresh_page) (set-ArePages m p fresh_page fresh_page-IsPage h)

empty-ArePages : ArePages []
unfolding get
empty-ArePages p s e = absurd (ground arith)

restart-ArePages :
    (has_target : Bool) (ps : List String) (h : Hook)
    → ArePages h.provider_map
    → ArePages (restart has_target ps h).provider_map
unfolding restart
restart-ArePages false ps h pages = empty-ArePages
restart-ArePages true [] h pages = pages
restart-ArePages true (p ∷ ps) h pages = initial_map-ArePages (p ∷ ps) [] empty-ArePages

load_more-ArePages :
    (p : String) (h : Hook) → ArePages h.provider_map → ArePages (load_more p h).provider_map
unfolding load_more
load_more-ArePages p h pages = elim (Bool-cases (can_load (get h.provider_map p))) [
  | inl e ↦ rw e (set-ArePages h.provider_map p fresh_page fresh_page-IsPage pages)
  | inr e ↦ rw e pages
]

-- What can happen to the hook: a result arrives only at a call that still reads.
pub data Step : Hook → Hook → Type 0 where
  restarted : (has_target : Bool) (ps : List String) (h : Hook) → Step h (restart has_target ps h)
  loaded : (p : String) (h : Hook) → Step h (load_more p h)
  delivered :
      (r : Reader) (read : Read) (h : Hook)
      → has_reader r h.readers ≡ true
      → Step h (deliver r read h)

pub data Steps : Hook → Hook → Type 0 where
  here : (h : Hook) → Steps h h
  and_then : (h i j : Hook) → Step h i → Steps i j → Steps h j

-- The hook before its effect has run.
abbrev pub initial_hook : Hook
initial_hook = record {
  provider_map = [];
  aborted = [];
  next_controller = 0;
  main_query = none;
  load_more_ref = none;
  readers = [];
}

Step-ArePages : (h i : Hook) → Step h i → ArePages h.provider_map → ArePages i.provider_map
Step-ArePages _ _ (restarted t ps h) pages = restart-ArePages t ps h pages
Step-ArePages _ _ (loaded p h) pages = load_more-ArePages p h pages
Step-ArePages _ _ (delivered r read h there) pages = deliver-ArePages r read h pages

Steps-ArePages : (h j : Hook) → Steps h j → ArePages h.provider_map → ArePages j.provider_map
Steps-ArePages _ _ (here h) pages = pages
Steps-ArePages _ _ (and_then h i j s ss) pages = Steps-ArePages i j ss (Step-ArePages h i s pages)

-- In every state that the hook reaches, the entries of a provider are those of the events of its
-- page, in their order, and its cursor is the last one that they name.
pub reached-ArePages : (h : Hook) → Steps initial_hook h → ArePages h.provider_map
reached-ArePages h steps = Steps-ArePages initial_hook h steps empty-ArePages
