-- ===== src/IpQuery.antt =====
-- web/apis/ip-query.ts: what several providers know about some addresses, from one stream.
pub mod Answers
use rbmq_demo.Common.{
  String, Option, none, some, List, [], ◌∷◌, ◌++◌, Bool, true, false, ◌||◌, ◌==◌, string_key,
  if◌then◌else◌,
}
use rbmq_demo.Common.Dict.{Assoc, get, set}
use rbmq_demo.Common.Groups.{foldl, write_group}
use rbmq_demo.Trace.{BasicIpInfo}

-- `L` is the type ExactLocation.
pub record IpQueryResultEntry (L : Type 0) : Type 0 where
  pub sent_from : String
  pub ip : String
  pub result : Option (BasicIpInfo L)
  pub err : Option String

pub record ProviderIpQueryState (L : Type 0) : Type 0 where
  pub results : List (IpQueryResultEntry L)
  pub is_running : Bool
  pub error : Option String

abbrev pub ProviderIpQueryMap : Type 0 → Type 0
ProviderIpQueryMap L = Assoc String (ProviderIpQueryState L)

-- What comes of the stream: an entry, its end, a read that throws, no reader, a result when the
-- signal is aborted, or a promise that is rejected, by an abort or for another reason.
pub data QueryRead (L : Type 0) : Type 0 where
  entry : IpQueryResultEntry L → QueryRead L
  done read_failed no_reader aborted abort_error : QueryRead L
  rejected : String → QueryRead L

-- A Set in the order of insertion.
abbrev pub contains_text : String → List String → Bool
contains_text t [] = false
contains_text t (s ∷ ss) = s == t || contains_text t ss

abbrev pub add_text : List String → String → List String
add_text texts t = if contains_text t texts then texts else texts ++ t ∷ []

abbrev pub either_error : Option String → Option String → Option String
either_error none b = b
either_error (some a) b = some a

module _ {L : Type 0} where
  abbrev pub fresh_state : ProviderIpQueryState L
  fresh_state = record { results = []; is_running = true; error = none }

  abbrev pub add_result : ProviderIpQueryState L → IpQueryResultEntry L → ProviderIpQueryState L
  add_result cur e = record {
    results = cur.results ++ e ∷ [];
    is_running = true;
    error = either_error e.err cur.error;
  }

  abbrev pub stop_running : ProviderIpQueryState L → ProviderIpQueryState L
  stop_running cur = record { results = cur.results; is_running = false; error = cur.error }

  abbrev pub fail_with : String → ProviderIpQueryState L → ProviderIpQueryState L
  fail_with message cur = record { results = cur.results; is_running = false; error = some message }

  -- `prev[provider] ?? {...}` with the entry added.
  unfoldable pub write_entry : ProviderIpQueryMap L → IpQueryResultEntry L → ProviderIpQueryMap L
  unfolding write_group
  write_entry m e = write_group (λ e. e.sent_from) (λ p. fresh_state) add_result m e

  unfoldable pub update_state :
      (ProviderIpQueryState L → ProviderIpQueryState L)
      → ProviderIpQueryMap L
      → String
      → ProviderIpQueryMap L
  unfolding get set
  update_state f m p = put (get m p)
    where
      put : Option (ProviderIpQueryState L) → ProviderIpQueryMap L
      put none = m
      put (some cur) = set m p (f cur)

  -- The loop over `runningProviders`.
  abbrev pub update_running :
      (ProviderIpQueryState L → ProviderIpQueryState L)
      → ProviderIpQueryMap L
      → List String
      → ProviderIpQueryMap L
  update_running f m running = foldl (update_state f) m running

  -- `processIPQueryStream`: the map after these results; what comes after the end is not read.
  unfoldable pub process_ip_query_stream :
      ProviderIpQueryMap L → List String → List (QueryRead L) → ProviderIpQueryMap L
  unfolding write_entry update_state
  process_ip_query_stream m running [] = m
  process_ip_query_stream m running (entry e ∷ reads) =
      process_ip_query_stream (write_entry m e) (add_text running e.sent_from) reads
  process_ip_query_stream m running (done ∷ reads) = update_running stop_running m running
  process_ip_query_stream m running (read_failed ∷ reads) = update_running stop_running m running
  process_ip_query_stream m running (no_reader ∷ reads) = update_running stop_running m running
  process_ip_query_stream m running (aborted ∷ reads) = m
  process_ip_query_stream m running (abort_error ∷ reads) = m
  process_ip_query_stream m running (rejected message ∷ reads) =
      update_running (fail_with message) m running

  abbrev pub initial_states : List String → ProviderIpQueryMap L
  initial_states providers = foldl (λ m p. set m p fresh_state) [] providers

  -- The map of `useIPQueryByProvider` once its effect has run and these results have come.
  unfoldable pub use_ip_query_by_provider :
      List String → List String → List (QueryRead L) → ProviderIpQueryMap L
  unfolding process_ip_query_stream
  use_ip_query_by_provider [] providers reads = []
  use_ip_query_by_provider (ip ∷ ips) providers reads =
      process_ip_query_stream (initial_states providers) [] reads
