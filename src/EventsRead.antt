-- ===== src/EventsRead.antt =====
-- web/components/EventsBrowser.tsx: the events that are read, the labels seen in them, and the
-- filter by labels. `sort()` without a comparator is the language's order of texts, a parameter.
pub mod Shown
use rbmq_demo.Common.{
  String, Option, none, some, List, [], ◌∷◌, ◌++◌, Bool, true, false, not, ◌&&◌, ◌==◌, string_key,
  filter, all, if◌then◌else◌,
}
use rbmq_demo.Common.Integers.{int_leb}
use rbmq_demo.Common.Dict.{Assoc, get, set}
use rbmq_demo.Common.Firsts.{push_new}
use rbmq_demo.Common.Groups.{foldl}
use rbmq_demo.Common.Sort.{sort_by}
use rbmq_demo.HttpProbe.{EventObject, filterkey_from, filterkey_corr_id}
use rbmq_demo.IpQuery.{contains_text}
use rbmq_demo.Trace.{is_set, or_else}

abbrev pub same_label : Option String → String → Bool
same_label none value = false
same_label (some v) value = v == value

abbrev pub has_label : EventObject → String × String → Bool
unfolding get
has_label ev (k, value) = same_label (get ev.labels k) value

unfoldable pub apply_evs_label_filter :
    List EventObject → Option (Assoc String String) → List EventObject
unfolding has_label
apply_evs_label_filter evs none = evs
apply_evs_label_filter evs (some labels) = filter (λ ev. all (has_label ev) labels) evs

-- The state of `useEVsRead`.
pub record EvsRead : Type 0 where
  pub all_srcs : List String
  pub all_dsts : List String
  pub evs : List EventObject

abbrev pub by_timestamp : EventObject → EventObject → Bool
by_timestamp a b = int_leb a.timestamp b.timestamp

module _ (text_le : String → String → Bool) where
  abbrev pub add_sorted : List String → Option String → List String
  unfolding sort_by
  add_sorted prev label =
      if is_set label && not (contains_text (or_else label "") prev)
      then sort_by text_le (prev ++ or_else label "" ∷ [])
      else prev

  -- A value that is read.
  unfoldable pub add_value : EvsRead → EventObject → EvsRead
  unfolding add_sorted get
  add_value st value = record {
    all_srcs = add_sorted st.all_srcs (get value.labels filterkey_from);
    all_dsts = add_sorted st.all_dsts (get value.labels filterkey_corr_id);
    evs = push_new (λ (ev : EventObject). ev.id) st.evs value;
  }

  -- The events that are shown after some values.
  unfoldable pub use_evs_read : Option (Assoc String String) → List EventObject → List EventObject
  unfolding add_value apply_evs_label_filter sort_by
  use_evs_read labels values =
      let st : EvsRead =
        foldl add_value (record { all_srcs = []; all_dsts = []; evs = [] }) values in
      sort_by by_timestamp (apply_evs_label_filter st.evs labels)

-- `dropNilValues`
unfoldable pub drop_nil_values : Assoc String String → Assoc String String
drop_nil_values dict = filter (λ (entry : String × String). not (entry.1 == "")) dict

-- A click on the chip of a label.
unfoldable pub toggle_label : String → String → Assoc String String → Assoc String String
unfolding drop_nil_values get set
toggle_label key label prev =
    drop_nil_values (set prev key (if same_label (get prev key) label then "" else label))
