-- ===== src/Tasks.antt =====
-- web/components/TaskCreatorPanel.tsx: a task made from what the form fields hold, and
-- web/apis/types.ts: the targets of a DNS task.
pub mod Words
use rbmq_demo.Common.{
  ℕ, suc, ◌+◌, ◌-◌, String, Option, none, some, List, [], ◌∷◌, ◌++◌, map, filter, Bool, true, false,
  not, ◌&&◌, ◌||◌, leb, ltb, nat_beq, take, drop, length, if◌then◌else◌, string_key,
}
use rbmq_demo.Common.Codes.{Codes, codes_key, is_empty, trim, split, index_of, dedup}
use rbmq_demo.Common.Decimal.{number_text}
use rbmq_demo.Common.Dict.{Assoc, get, set}
use rbmq_demo.Common.Groups.{foldl}
use rbmq_demo.Common.Parse.{parse_int}
use rbmq_demo.Common.Sort.{sort_by}
use rbmq_demo.DnsPlan.{DnsTarget, DnsProbePlan, expand_dns_probe_plan}
use rbmq_demo.Samples.{field_of}
use rbmq_demo.Trace.{or_else}

abbrev pub comma : ℕ
comma = b','

-- `input.split(",")`, or no word.
abbrev pub pieces : Option Codes → List Codes
unfolding split
pieces none = []
pieces (some input) = split comma input

-- `.map((x) => x.trim()).filter((x) => x.length > 0)`
abbrev pub clean_words : List Codes → List Codes
unfolding trim
clean_words ws = filter (λ w. not (is_empty w)) (map trim ws)

-- The words of a field, separated by commas.
unfoldable pub words_of : Option Codes → List Codes
unfolding dedup pieces clean_words
words_of input = clean_words (dedup (pieces input))

-- An entry whose key and value are not empty is set.
abbrev pub set_entry : Assoc Codes Codes → Codes → Codes → Assoc Codes Codes
unfolding set
set_entry m key value = if not (is_empty key) && not (is_empty value) then set m key value else m

-- A word that has something on both sides of its first `=`.
abbrev pub add_name_at : Assoc Codes Codes → Codes → Option ℕ → Assoc Codes Codes
unfolding set_entry trim
add_name_at m word none = m
add_name_at m word (some idx) =
    if ltb 0 idx && ltb idx (length word - 1)
    then set_entry m (trim (take idx word)) (trim (drop (idx + 1) word))
    else m

unfoldable pub add_name : Assoc Codes Codes → Codes → Assoc Codes Codes
unfolding add_name_at index_of
add_name m word = add_name_at m word (index_of b'=' word)

unfoldable pub parse_name_map : Codes → Assoc Codes Codes
unfolding add_name split clean_words
parse_name_map csv_input = foldl add_name [] (clean_words (split comma csv_input))

pub data HttpProto : Type 0 where
  http1_1 http2 http3 : HttpProto

pub data IpPref : Type 0 where
  ip4 ip6 ip : IpPref

pub record HttpTarget : Type 0 where
  pub url : Codes
  pub correlation_id : Codes
  pub extra_headers : Option (Assoc Codes Codes)
  pub proto : HttpProto
  pub resolver : String
  pub inet_family_preference : IpPref

-- The fields that the expansion reads or writes.
pub record PendingTask : Type 0 where
  pub targets : List Codes
  pub task_id : String
  pub dns_probe_plan : Option DnsProbePlan
  pub dns_probe_targets : List DnsTarget
  pub http_probe_targets : Option (List HttpTarget)
  pub targets_input : Option Codes
  pub headers_input : Option Codes
  pub selecting_http_transport : Option HttpProto
  pub selecting_ip_pref : Option IpPref
  pub add_header_sw : Bool

abbrev pub name_map_of : Option Codes → Assoc Codes Codes
unfolding parse_name_map
name_map_of none = []
name_map_of (some input) = if is_empty input then [] else parse_name_map input

abbrev pub expanded_plan : Option DnsProbePlan → DnsProbePlan
unfolding words_of
expanded_plan plan = record {
  transport = field_of plan (λ p. p.transport);
  type_of = field_of plan (λ p. p.type_of);
  domains = some (words_of (field_of plan (λ p. p.domains_input)));
  resolvers = some (words_of (field_of plan (λ p. p.resolvers_input)));
  domains_input = field_of plan (λ p. p.domains_input);
  resolvers_input = field_of plan (λ p. p.resolvers_input);
  server_name_map_input = field_of plan (λ p. p.server_name_map_input);
}

unfoldable pub expand_dns_probe_task : PendingTask → PendingTask
unfolding expanded_plan name_map_of expand_dns_probe_plan
expand_dns_probe_task prev =
    let plan : DnsProbePlan = expanded_plan prev.dns_probe_plan in
    let names : Assoc Codes Codes = name_map_of plan.server_name_map_input in
    record prev {
      dns_probe_plan = some plan;
      dns_probe_targets = (expand_dns_probe_plan plan names).targets;
    }

abbrev pub newline : ℕ
newline = 10

-- A line that has something before its first colon.
abbrev pub add_header_at : Assoc Codes Codes → Codes → Option ℕ → Assoc Codes Codes
unfolding set_entry trim
add_header_at m line none = m
add_header_at m line (some idx) =
    if ltb 0 idx then set_entry m (trim (take idx line)) (trim (drop (idx + 1) line)) else m

unfoldable pub add_header : Assoc Codes Codes → Codes → Assoc Codes Codes
unfolding add_header_at index_of
add_header m line = add_header_at m line (index_of b':' line)

abbrev pub headers_of : Bool → Option Codes → Assoc Codes Codes
unfolding add_header split
headers_of true (some input) =
    if is_empty input then [] else foldl add_header [] (split newline input)
headers_of _ _ = []

abbrev pub unless_none {ℓ} : {A : Type ℓ} → List A → Option (List A)
unless_none [] = none
unless_none (x ∷ xs) = some (x ∷ xs)

unfoldable pub expand_http_probes : String → PendingTask → PendingTask
unfolding words_of headers_of
expand_http_probes default_resolver prev =
    let headers : Assoc Codes Codes = headers_of prev.add_header_sw prev.headers_input in
    let target : Codes → HttpTarget = λ url. record {
      url = url;
      correlation_id = url;
      extra_headers = unless_none headers;
      proto = or_else prev.selecting_http_transport http1_1;
      resolver = default_resolver;
      inet_family_preference = or_else prev.selecting_ip_pref ip6;
    } in
    record prev { http_probe_targets = unless_none (map target (words_of prev.targets_input)) }

unfoldable pub expand_task : String → String → PendingTask → PendingTask
unfolding words_of expand_dns_probe_task expand_http_probes
expand_task default_resolver task_id prev = expand_http_probes default_resolver (
    expand_dns_probe_task
      (record prev { targets = words_of prev.targets_input; task_id = task_id }))
