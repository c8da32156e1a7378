-- ===== src/DnsPlan.antt =====
-- web/apis/types.ts: the targets of a DNS task, one for each domain and resolver.
pub mod Expanded
pub mod Asked
pub mod Stripped
use rbmq_demo.Common.{
  ℕ, suc, ◌+◌, String, Option, none, some, List, [], ◌∷◌, ◌++◌, Bool, true, false, not, ◌&&◌, ◌||◌,
  leb, nat_beq, drop, length, if◌then◌else◌, string_key, ◌==◌,
}
use rbmq_demo.Common.Codes.{Codes, codes_key, is_empty, trim, trim_start, trim_end}
use rbmq_demo.Common.Decimal.{number_text}
use rbmq_demo.Common.Dict.{Assoc, get, set}
use rbmq_demo.Common.Groups.{foldl}
use rbmq_demo.Common.Parse.{parse_int}
use rbmq_demo.Common.Sort.{sort_by}
use rbmq_demo.Trace.{or_else}

pub data DnsTransport : Type 0 where
  udp tcp tls http2 http3 : DnsTransport

pub data DnsQueryType : Type 0 where
  a aaaa cname mx ns ptr txt : DnsQueryType

pub record DnsTarget : Type 0 where
  pub corr_id : String
  pub addrport : Codes
  pub target : Codes
  pub transport : Option DnsTransport
  pub query_type : DnsQueryType
  pub dot_server_name : Option Codes

pub record DnsProbePlan : Type 0 where
  pub transport : Option DnsTransport
  pub type_of : Option DnsQueryType
  pub domains : Option (List Codes)
  pub resolvers : Option (List Codes)
  pub domains_input : Option Codes
  pub resolvers_input : Option Codes
  pub server_name_map_input : Option Codes

-- `/^tls:\/\//i`: a letter of either case, or the sign itself.
abbrev pub same_letter : ℕ → ℕ → Bool
same_letter p c = nat_beq c p || (leb b'a' p && leb p b'z' && nat_beq (c + 32) p)

unfoldable pub without_prefix : Codes → Codes → Option Codes
without_prefix [] s = some s
without_prefix (p ∷ ps) [] = none
without_prefix (p ∷ ps) (c ∷ s) = if same_letter p c then without_prefix ps s else none

abbrev pub tls_prefix : Codes
tls_prefix = b't' ∷ b'l' ∷ b's' ∷ b':' ∷ b'/' ∷ b'/' ∷ []

abbrev pub is_digit : ℕ → Bool
is_digit c = leb b'0' c && leb c b'9'

unfoldable pub all_digits : Codes → Bool
all_digits [] = true
all_digits (c ∷ s) = is_digit c && all_digits s

-- `replace(/:\d+$/, "")`
unfoldable pub without_port : Codes → Codes
unfolding all_digits
without_port [] = []
without_port (c ∷ s) =
    let rest = without_port s in
    if nat_beq c b':' && not (is_empty s) && all_digits s then [] else c ∷ rest

-- `replace(/\]$/, "")`
unfoldable pub without_close : Codes → Codes
without_close [] = []
without_close (c ∷ s) =
    let rest = without_close s in if nat_beq c b']' && is_empty s then [] else c ∷ rest

-- `replace(/^\[/, "")`
abbrev pub without_open : Codes → Codes
without_open [] = []
without_open (c ∷ s) = if nat_beq c b'[' then s else c ∷ s

unfoldable pub strip_resolver : Codes → Codes
unfolding trim without_prefix without_port without_close
strip_resolver resolver =
    let striped : Codes = trim resolver in
    if is_empty striped
    then striped
    else without_open
        (without_close (without_port (or_else (without_prefix tls_prefix striped) striped)))

abbrev pub trimmed_name : Option Codes → Option Codes
unfolding trim
trimmed_name none = none
trimmed_name (some name) =
    let server_name : Codes = trim name in if is_empty server_name then none else some server_name

unfoldable pub get_server_name : Codes → Assoc Codes Codes → Option Codes
unfolding strip_resolver trimmed_name get
get_server_name resolver name_map = trimmed_name (get name_map (strip_resolver resolver))

abbrev pub needs_name : Option DnsTransport → Bool
needs_name (some tls) = true
needs_name (some http2) = true
needs_name (some http3) = true
needs_name _ = false

-- The local variables of the loops.
pub record DnsTargets : Type 0 where
  pub targets : List DnsTarget
  pub targets_map : Assoc String DnsTarget

module _ (plan : DnsProbePlan) (name_map : Assoc Codes Codes) where
  abbrev pub target_of : ℕ → Codes → Codes → DnsTarget
  unfolding get_server_name number_text
  target_of n domain resolver = record {
    corr_id = number_text n;
    addrport = resolver;
    target = domain;
    transport = plan.transport;
    query_type = or_else plan.type_of a;
    dot_server_name = if needs_name plan.transport then get_server_name resolver name_map else none;
  }

  unfoldable pub add_target : Codes → DnsTargets → Codes → DnsTargets
  unfolding target_of set
  add_target domain st resolver =
      let target : DnsTarget = target_of (length st.targets) domain resolver in
      record {
        targets = st.targets ++ target ∷ [];
        targets_map = set st.targets_map target.corr_id target;
      }

  unfoldable pub add_domain : DnsTargets → Codes → DnsTargets
  unfolding add_target
  add_domain st domain = foldl (add_target domain) st (or_else plan.resolvers [])

  -- `parseInt(a.corrId || "0")`
  abbrev pub corr_number : DnsTarget → ℕ
  unfolding parse_int
  corr_number target = parse_int (if target.corr_id == "" then "0" else target.corr_id)

  abbrev pub by_number : DnsTarget → DnsTarget → Bool
  unfolding corr_number
  by_number s t = leb (corr_number s) (corr_number t)

  unfoldable pub expand_dns_probe_plan : DnsTargets
  unfolding add_domain sort_by by_number
  expand_dns_probe_plan =
      let st : DnsTargets =
        foldl add_domain (record { targets = []; targets_map = [] }) (or_else plan.domains []) in
      record { targets = sort_by by_number st.targets; targets_map = st.targets_map }
