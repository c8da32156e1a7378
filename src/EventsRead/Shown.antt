-- ===== src/EventsRead/Shown.antt =====
-- web/components/EventsBrowser.tsx: which events are shown, and what a click on a chip does.
use rbmq_demo.Common.{
  ◌≡◌, ◌↔◌, refl, ap, subst, ◌∙◌, String, Option, none, some, List, [], ◌∷◌, Bool, true, All, all,
  filter, string_key, arith,
}
use mathlib.Core.List.{Perm}
use rbmq_demo.Common.Dict.{Assoc, get}
use rbmq_demo.Common.Filters.{all_iff}
use rbmq_demo.Common.Firsts.{push_new, firsts, foldl-firsts}
use rbmq_demo.Common.Groups.{foldl}
use rbmq_demo.Common.Integers.{int_leb, int_leb_trans, int_leb_total}
use rbmq_demo.Common.Sort.{IsSorted, sort_by, sort_by-perm, sort_by-IsSorted}
use rbmq_demo.HttpProbe.{EventObject}
use rbmq_demo.EventsRead.{
  EvsRead, same_label, has_label, apply_evs_label_filter, add_value, by_timestamp, use_evs_read,
}

-- The event has each label of the filter, with its text; without a filter every event is shown.
abbrev pub Passes : Option (Assoc String String) → EventObject → Type 0
unfolding get
Passes none ev = Unit
Passes (some labels) ev =
    All (λ (label : String × String). get ev.labels label.0 ≡ some label.1) labels

same_label_iff :
    (o : Option String) (value : String) → (same_label o value ≡ true) ↔ (o ≡ some value)
same_label_iff none value = (λ h. ground arith, λ h. ground arith)
same_label_iff (some v) value = (
  λ h. ap some ((string_key.same_iff v value).0 h),
  λ h.
      (string_key.same_iff v value).1
        (ap (λ (o : Option String). elim o [ none ↦ v | some t ↦ t ]) h),
)

-- The filter by some test that is true of exactly the events that pass.
filter_test :
    (labels : Option (Assoc String String))
    → (passes : EventObject → Bool) × ((ev : EventObject) → (passes ev ≡ true) ↔ Passes labels ev)
      × ((evs : List EventObject) → apply_evs_label_filter evs labels ≡ filter passes evs)
unfolding apply_evs_label_filter
filter_test none = (λ ev. true, λ ev. (λ h. tt, λ h. refl), whole)
  where
    whole : (evs : List EventObject) → evs ≡ filter (λ ev. true) evs
    whole [] = refl
    whole (ev ∷ evs) = ap (◌∷◌ ev) (whole evs)
filter_test (some labels) = (
  λ ev. all (has_label ev) labels,
  λ ev. all_iff (has_label ev) (λ label. same_label_iff (get ev.labels label.0) label.1) labels,
  λ evs. refl,
)

module _ (text_le : String → String → Bool) where
  evs-add_value :
      (st : EvsRead) (values : List EventObject)
      → (foldl (add_value text_le) st values).evs
        ≡ foldl (push_new (λ (ev : EventObject). ev.id)) st.evs values
  unfolding add_value
  evs-add_value st [] = refl
  evs-add_value st (v ∷ vs) = evs-add_value (add_value text_le st v) vs

  -- The events shown are, of those read, the first of each identifier, as far as they have each
  -- label of the filter with its text, or all of these without a filter, and the earlier ones stand
  -- first.
  pub use_evs_read_lem :
      (labels : Option (Assoc String String)) (values : List EventObject)
      → let shown = use_evs_read text_le labels values in
        (passes : EventObject → Bool) × ((ev : EventObject) → (passes ev ≡ true) ↔ Passes labels ev)
        × Perm shown (filter passes (firsts (λ (ev : EventObject). ev.id) values))
        × IsSorted (λ a b. int_leb a.timestamp b.timestamp) shown
  unfolding use_evs_read
  use_evs_read_lem labels values =
      let start : EvsRead = record { all_srcs = []; all_dsts = []; evs = [] } in
      let read : List EventObject = (foldl (add_value text_le) start values).evs in
      let same : read ≡ firsts (λ (ev : EventObject). ev.id) values =
        evs-add_value start values ∙ foldl-firsts (λ (ev : EventObject). ev.id) values in
      let test = filter_test labels in
      let shown : List EventObject = sort_by by_timestamp (apply_evs_label_filter read labels) in
      (
        test.0,
        test.1,
        subst (λ evs. Perm shown evs) (test.2 read ∙ ap (filter test.0) same)
            (sort_by-perm by_timestamp (apply_evs_label_filter read labels)),
        sort_by-IsSorted by_timestamp (λ a b c. int_leb_trans a.timestamp b.timestamp c.timestamp)
            (λ a b. int_leb_total a.timestamp b.timestamp) (apply_evs_label_filter read labels),
      )
