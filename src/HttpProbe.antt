-- ===== src/HttpProbe.antt =====
-- web/apis/httpprobe.ts: the events of an HTTP probe as objects that the event browser shows.
pub mod Labels
use rbmq_demo.Common.{
  ℕ, ◌+◌, String, Option, none, some, List, [], ◌∷◌, Bool, true, false, not, ◌||◌, ◌==◌, string_key,
  if◌then◌else◌,
}
use rbmq_demo.Common.Decimal.{texts, number_text}
use rbmq_demo.Common.Dict.{Assoc}
use rbmq_demo.Common.Integers.{ℤ, is_zero}
use rbmq_demo.Trace.{RawPingEvent, RawPingEventMetadata, or_else, is_set}
use rbmq_demo.Samples.{field_of}

pub record HttpProbeTransportEvent : Type 0 where
  pub type_of : Option String
  pub name : Option String
  pub value : Option String
  pub date : Option String

pub record HttpProbeEvent : Type 0 where
  pub transport : Option HttpProbeTransportEvent
  pub error : Option String
  pub correlation_id : Option String

pub record EventObject : Type 0 where
  pub id : String
  pub timestamp : ℤ
  pub message : String
  pub labels : Assoc String String
  pub annotations : Option (Assoc String String)

abbrev pub filterkey_from : String
filterkey_from = "from"

abbrev pub filterkey_corr_id : String
filterkey_corr_id = "correlationId"

abbrev pub labels_of : String → String → Assoc String String
labels_of sent_from corr_id = (filterkey_from, sent_from) ∷ (filterkey_corr_id, corr_id) ∷ []

-- The event of an error; a time of 0 is replaced by the present.
abbrev pub error_object : ℤ → String → String → ℕ → String → ℤ → EventObject
error_object now sent_from corr_id idx message time = record {
  id = texts ("err-" ∷ number_text idx ∷ []);
  timestamp = if is_zero time then now else time;
  message = message;
  labels = labels_of sent_from corr_id;
  annotations = none;
}

abbrev pub transport_field :
    Option HttpProbeEvent → (HttpProbeTransportEvent → Option String) → Option String
transport_field data_of field = field_of (field_of data_of (λ d. d.transport)) field

abbrev pub type_annotation : Option String → Option (Assoc String String)
type_annotation t = if is_set t then some (("Type", or_else t "") ∷ []) else none

abbrev pub event_object : Option HttpProbeEvent → String → String → ℕ → ℤ → EventObject
event_object data_of sent_from corr_id idx time = record {
  id = texts (sent_from ∷ ":" ∷ corr_id ∷ ":" ∷ number_text idx ∷ []);
  timestamp = time;
  message = texts (
      or_else (transport_field data_of (λ t. t.name)) ""
      ∷ ": "
      ∷ or_else (transport_field data_of (λ t. t.value)) ""
      ∷ []);
  labels = labels_of sent_from corr_id;
  annotations = type_annotation (transport_field data_of (λ t. t.type_of));
}

-- `date_parse` is Date.parse, in milliseconds, which lie below 0 before 1970, and none where it gives no finite number, and `now` is Date.now().
module _ (date_parse : String → Option ℤ) (now : ℤ) where
  abbrev pub dated_object :
      Option HttpProbeEvent → String → String → ℕ → Option ℤ → Option EventObject
  dated_object data_of sent_from corr_id idx none = none
  dated_object data_of sent_from corr_id idx (some time) =
      let error = field_of data_of (λ d. d.error) in
      if is_set error
      then some (error_object now sent_from corr_id idx (or_else error "") time)
      else some (event_object data_of sent_from corr_id idx time)

  -- `convertRawPingEventToEventObj`
  unfoldable pub convert : RawPingEvent HttpProbeEvent → ℕ → Option EventObject
  unfolding number_text
  convert raw idx =
      let sent_from = field_of raw.metadata (λ m. m.sent_from) in
      let corr_id = field_of raw.data_of (λ d. d.correlation_id) in
      let date = transport_field raw.data_of (λ t. t.date) in
      if not (is_set sent_from) || not (is_set corr_id) || not (is_set date)
      then none
      else dated_object raw.data_of (or_else sent_from "") (or_else corr_id "") idx
          (date_parse (or_else date ""))

  abbrev pub enqueue_object : Option EventObject → List EventObject → List EventObject
  enqueue_object none objects = objects
  enqueue_object (some o) objects = o ∷ objects

  -- EventAdapter from a value of its counter on: none is a chunk that is null.
  unfoldable pub adapt_from : ℕ → List (Option (RawPingEvent HttpProbeEvent)) → List EventObject
  unfolding convert
  adapt_from idx [] = []
  adapt_from idx (none ∷ chunks) = adapt_from idx chunks
  adapt_from idx (some raw ∷ chunks) =
      enqueue_object (convert raw idx) (adapt_from (idx + 1) chunks)
