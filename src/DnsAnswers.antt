-- ===== src/DnsAnswers.antt =====
-- web/components/dnsprobedisplay.tsx: the answers of a DNS task by node and target.
pub mod Last
use rbmq_demo.Common.{
  ℕ, String, Option, none, some, List, [], ◌∷◌, Bool, true, false, ◌&&◌, ◌||◌, string_key,
  if◌then◌else◌,
}
use rbmq_demo.Common.Cells.{get_cell, set_cell}
use rbmq_demo.Common.Dict.{Assoc, get, set}
use rbmq_demo.Common.Groups.{foldl}
use rbmq_demo.Samples.{field_of}
use rbmq_demo.Trace.{RawPingEventMetadata, is_set, or_else}
use rbmq_demo.DnsPlan.{DnsQueryType, DnsTransport}

pub record DnsResponse : Type 0 where
  pub corr_id : Option String
  pub server : Option String
  pub target : Option String
  pub query_type : Option DnsQueryType
  pub answers : Option (List String)
  pub answer_strings : Option (List String)
  pub error : Option String
  pub err_string : Option String
  pub io_timeout : Option Bool
  pub no_such_host : Option Bool
  pub elapsed : Option ℕ
  pub started_at : Option String
  pub timeout_specified : Option ℕ
  pub transport_used : Option DnsTransport

-- `RawPingEvent<DNSResponse>`, as far as it is read.
pub record DnsEvent : Type 0 where
  pub payload : Option DnsResponse
  pub metadata : Option RawPingEventMetadata

abbrev pub AnswersMap : Type 0
AnswersMap = Assoc String (Assoc String (List DnsResponse))

abbrev pub sent_from_of : DnsEvent → Option String
sent_from_of ev = field_of ev.metadata (λ m. m.sent_from)

-- A response with an identifier from a node with a name takes the place of the one before it.
abbrev pub put_answer : AnswersMap → DnsResponse → Option String → AnswersMap
unfolding get set
put_answer m response sent_from =
    if is_set response.corr_id && is_set sent_from
    then set_cell m (or_else sent_from "") (or_else response.corr_id "") (response ∷ [])
    else m

abbrev pub put_payload : AnswersMap → Option DnsResponse → Option String → AnswersMap
unfolding put_answer
put_payload m none sent_from = m
put_payload m (some response) sent_from = put_answer m response sent_from

unfoldable pub update_answers_map : AnswersMap → DnsEvent → AnswersMap
unfolding put_payload
update_answers_map m event = put_payload m event.payload (sent_from_of event)

abbrev pub error_text : DnsResponse → Option String
error_text r =
    if or_else r.no_such_host false
    then some "No such host"
    else if or_else r.io_timeout false
    then some "IO timeout"
    else if is_set r.err_string
    then r.err_string
    else none

-- What is shown of a response: an error, or answers and whether there is a time.
pub data Shown : Type 0 where
  nothing : Shown
  err_line : String → Shown
  answer_lines : List String → Option ℕ → Shown

abbrev pub err_shown : Option String → Shown
err_shown none = nothing
err_shown (some t) = err_line t

abbrev pub lines_shown : Option (List String) → Option ℕ → Shown
lines_shown (some (line ∷ lines)) elapsed = answer_lines (line ∷ lines) elapsed
lines_shown _ elapsed = nothing

unfoldable pub render_response : DnsResponse → Shown
render_response r =
    if is_set r.error || is_set r.err_string
    then err_shown (error_text r)
    else lines_shown r.answer_strings r.elapsed
