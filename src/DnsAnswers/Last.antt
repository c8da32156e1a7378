-- ===== src/DnsAnswers/Last.antt =====
-- web/components/dnsprobedisplay.tsx: which response stands in a cell.
use rbmq_demo.Common.{
  ◌≡◌, refl, ap, ◌∙◌, String, Option, none, some, List, [], ◌∷◌, Bool, true, false, ◌&&◌, ◌==◌,
  string_key, if◌then◌else◌, Bool-cases, inl, inr,
}
use rbmq_demo.Common.Cells.{get_cell, get_cell-set_cell}
use rbmq_demo.Common.Dict.{get}
use rbmq_demo.Common.Groups.{foldl}
use rbmq_demo.Trace.{is_set, or_else}
use rbmq_demo.DnsAnswers.{
  DnsResponse, DnsEvent, AnswersMap, sent_from_of, put_answer, put_payload, update_answers_map,
}

-- Whether an event is an answer of a node to a target.
abbrev pub answers_for : String → String → Option String → DnsResponse → Bool
answers_for source id sent_from r =
    (is_set r.corr_id && is_set sent_from)
    && (or_else sent_from "" == source && or_else r.corr_id "" == id)

-- The responses among events that are answers of the node to the target.
abbrev pub answer_in :
    String → String → Option String → Option DnsResponse → List DnsResponse → List DnsResponse
answer_in source id sent_from none rest = rest
answer_in source id sent_from (some r) rest =
    if answers_for source id sent_from r then r ∷ rest else rest

abbrev pub answers_of : String → String → List DnsEvent → List DnsResponse
answers_of source id [] = []
answers_of source id (ev ∷ evs) =
    let rest = answers_of source id evs in answer_in source id (sent_from_of ev) ev.payload rest

-- The last of some answers alone, or what was there before them.
abbrev pub last_or : Option (List DnsResponse) → List DnsResponse → Option (List DnsResponse)
last_or before [] = before
last_or before (r ∷ rs) = last_or (some (r ∷ [])) rs

put_answer-cell :
    (m : AnswersMap) (r : DnsResponse) (sent_from : Option String) (source id : String)
    → get_cell (put_answer m r sent_from) source id
      ≡ (if answers_for source id sent_from r then some (r ∷ []) else get_cell m source id)
unfolding put_answer
put_answer-cell m r sent_from source id = elim (Bool-cases (is_set r.corr_id && is_set sent_from)) [
  | inl e ↦
      rw e (get_cell-set_cell m (or_else sent_from "") source (or_else r.corr_id "") id (r ∷ []))
  | inr e ↦ rw e refl
]

put_payload-cell :
    (m : AnswersMap) (o : Option DnsResponse) (sent_from : Option String) (source id : String)
    (rest : List DnsResponse)
    → last_or (get_cell (put_payload m o sent_from) source id) rest
      ≡ last_or (get_cell m source id) (answer_in source id sent_from o rest)
unfolding put_payload
put_payload-cell m none sent_from source id rest = refl
put_payload-cell m (some r) sent_from source id rest =
    ap (λ c. last_or c rest) (put_answer-cell m r sent_from source id)
    ∙ under_test (answers_for source id sent_from r)
  where
    under_test :
        (b : Bool)
        → last_or (if b then some (r ∷ []) else get_cell m source id) rest
          ≡ last_or (get_cell m source id) (if b then r ∷ rest else rest)
    under_test true = refl
    under_test false = refl

answers_from :
    (source id : String) (events : List DnsEvent) (m : AnswersMap)
    → get_cell (foldl update_answers_map m events) source id
      ≡ last_or (get_cell m source id) (answers_of source id events)
unfolding update_answers_map
answers_from source id [] m = refl
answers_from source id (ev ∷ evs) m =
    answers_from source id evs (update_answers_map m ev)
    ∙ put_payload-cell m ev.payload (sent_from_of ev) source id (answers_of source id evs)

-- After any events there is for a node and a target the last answer of the node to it alone, and
-- nothing if there was none; responses without an identifier and events without a node change
-- nothing.
pub get_cell-answers :
    (source id : String) (events : List DnsEvent)
    → get_cell (foldl update_answers_map [] events) source id
      ≡ last_or none (answers_of source id events)
get_cell-answers source id events = answers_from source id events [] ∙ unfold get in refl
