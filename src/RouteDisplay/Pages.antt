-- ===== src/RouteDisplay/Pages.antt =====
-- web/components/RouteQueryResultDisplay.tsx with web/apis/mrtProviders.ts: the entries stay shown
-- when the next page is asked for.
use rbmq_demo.Common.{
  ◌≡◌, refl, sym, ap, ◌∙◌, String, Option, none, some, List, [], ◌∷◌, ◌++◌, append_assoc,
  append-nil, Bool, true, false, ◌==◌, string_key, Bool-cases, inl, inr, if◌then◌else◌,
}
use rbmq_demo.Common.Dict.{get, get-set}
use rbmq_demo.Mrt.{
  MrtEntry, ResumableResponseStreamEvent, ProviderMrtEntriesState, Hook, add_entry, fresh_page,
  can_load, load_more,
}
use rbmq_demo.Mrt.Pages.{entries_of, Steps, initial_hook, reached-ArePages}
use rbmq_demo.Trace.{or_else}
use rbmq_demo.RouteDisplay.{
  RouteDisplay, valid_provider, entries_in, page_events_in, cons_entry, event_entries, flat,
  all_entries, shows_load_more, keep_page, press_load_more,
}

cons_entry-append :
    (o : Option MrtEntry) (es more : List MrtEntry)
    → cons_entry o (es ++ more) ≡ cons_entry o es ++ more
cons_entry-append none es more = refl
cons_entry-append (some e) es more = refl

event_entries-append :
    (evs more : List ResumableResponseStreamEvent)
    → event_entries (evs ++ more) ≡ event_entries evs ++ event_entries more
event_entries-append [] more = refl
event_entries-append (ev ∷ evs) more =
    ap (cons_entry ev.inner.entry) (event_entries-append evs more)
    ∙ cons_entry-append ev.inner.entry (event_entries evs) (event_entries more)

flat-snoc :
    (pages : List (List ResumableResponseStreamEvent)) (page : List ResumableResponseStreamEvent)
    → flat (pages ++ page ∷ []) ≡ flat pages ++ page
flat-snoc [] page = append-nil page
flat-snoc (p ∷ pages) page =
    ap (λ evs. p ++ evs) (flat-snoc pages page) ∙ sym (append_assoc p (flat pages) page)

-- Both ways to collect the entries of a page agree.
entries_of-event_entries :
    (before : List MrtEntry) (evs : List ResumableResponseStreamEvent)
    → entries_of before evs ≡ before ++ event_entries evs
entries_of-event_entries before [] = sym (append-nil before)
entries_of-event_entries before (ev ∷ evs) =
    entries_of-event_entries (add_entry before ev.inner.entry) evs ∙ added ev.inner.entry
  where
    added :
        (o : Option MrtEntry)
        → add_entry before o ++ event_entries evs ≡ before ++ cons_entry o (event_entries evs)
    added none = refl
    added (some e) = append_assoc before (e ∷ []) (event_entries evs)

page_entries :
    (h : Hook) (p : String) (o : Option ProviderMrtEntriesState)
    → Steps initial_hook h
    → get h.provider_map p ≡ o
    → entries_in o ≡ event_entries (page_events_in o)
page_entries h p none steps at = refl
page_entries h p (some s) steps at =
    (reached-ArePages h steps p s at).same_entries ∙ entries_of-event_entries [] s.page_events

can_load_if : (o : Option ProviderMrtEntriesState) → shows_load_more o ≡ true → can_load o ≡ true
can_load_if none h = h
can_load_if (some s) h = h

keep_page-all_entries :
    (d : RouteDisplay) (p q : String)
    → Steps initial_hook d.hook
    → can_load (get d.hook.provider_map p) ≡ true
    → all_entries q (keep_page p d) ≡ all_entries q d
unfolding all_entries keep_page load_more
keep_page-all_entries d p q steps can =
    let kept : List (List ResumableResponseStreamEvent) = or_else (get d.loaded_pages_data p) [] in
    let page : List ResumableResponseStreamEvent = page_events_in (get d.hook.provider_map p) in
    rw can (
      rw (get-set d.loaded_pages_data p q (kept ++ page ∷ [])) (
        rw (get-set d.hook.provider_map p q fresh_page) (elim (Bool-cases (p == q)) [
          | inl e ↦
              let same : p ≡ q = (string_key.same_iff p q).0 e in
              rw e (
                append-nil (event_entries (flat (kept ++ page ∷ [])))
                ∙ ap event_entries (flat-snoc kept page)
                ∙ event_entries-append (flat kept) page
                ∙ ap (λ es. event_entries (flat kept) ++ es)
                    (sym (page_entries d.hook p (get d.hook.provider_map p) steps refl))
                ∙ ap (λ r. all_entries r d) same)
          | inr e ↦ rw e refl
        ])))

pressed :
    (b : Bool) (d : RouteDisplay) (p q : String)
    → Steps initial_hook d.hook
    → (b ≡ true → can_load (get d.hook.provider_map p) ≡ true)
    → all_entries q (if b then keep_page p d else d) ≡ all_entries q d
pressed true d p q steps can = keep_page-all_entries d p q steps (can refl)
pressed false d p q steps can = refl

-- In any state that the hook reaches, the button for the next page changes nothing of the entries
-- that are shown of any provider.
pub press_load_more-all_entries :
    (sources : List String) (d : RouteDisplay) (provider : String)
    → Steps initial_hook d.hook
    → all_entries provider (press_load_more sources d) ≡ all_entries provider d
unfolding press_load_more
press_load_more-all_entries sources d provider steps =
    let active : String = valid_provider sources d.active_provider in
    pressed (shows_load_more (get d.hook.provider_map active)) d active provider steps
      (can_load_if (get d.hook.provider_map active))
