-- ===== src/DnsPlan/Asked.antt =====
-- web/apis/types.ts: what a plan asks for, and that the texts of two numbers differ.
use rbmq_demo.Common.{
  ℕ, ◌≡◌, refl, ap, sym, ◌∙◌, Option, none, some, [], ◌∷◌, nat_beq, nat_beq_iff, Bool-cases, inl,
  inr, if◌then◌else◌, string_key, ◌==◌, ==_self, arith,
}
use rbmq_demo.Common.Codes.{Codes, codes_key, is_empty, trim}
use rbmq_demo.Common.Decimal.{number_text}
use rbmq_demo.Common.Parse.{parse_int, parse_int-number_text}
use rbmq_demo.Trace.{or_else}
use rbmq_demo.DnsPlan.{
  DnsTransport, udp, tcp, tls, http2, http3, DnsQueryType, a, needs_name, trimmed_name,
}

pub number_text-same : (m n : ℕ) → (number_text m == number_text n) ≡ nat_beq m n
number_text-same m n = elim (Bool-cases (nat_beq m n)) [
  | inl e ↦
      let same : m ≡ n = (nat_beq_iff m n).0 e in
      rw e (ap (λ k. number_text m == number_text k) (sym same) ∙ ==_self (number_text m))
  | inr e ↦ elim (Bool-cases (number_text m == number_text n)) [
    | inl h ↦
        let same : m ≡ n =
          sym (parse_int-number_text m)
          ∙ ap parse_int ((string_key.same_iff (number_text m) (number_text n)).0 h)
          ∙ parse_int-number_text n in
        absurd (ground arith)
    | inr h ↦ h ∙ sym e
  ]
]

-- The type of query that the plan asks for, A by default.
abbrev pub asked_type : Option DnsQueryType → DnsQueryType
asked_type none = a
asked_type (some t) = t

-- A name that is listed counts without the white space around it, if anything is left.
abbrev pub listed_name : Codes → Option Codes
listed_name [] = none
listed_name (c ∷ cs) = some (c ∷ cs)

abbrev pub server_name : Option Codes → Option Codes
unfolding trim
server_name none = none
server_name (some name) = listed_name (trim name)

-- The transports other than UDP and TCP take the name of the server, if one is listed.
abbrev pub asked_name : Option DnsTransport → Option Codes → Option Codes
asked_name none listed = none
asked_name (some udp) listed = none
asked_name (some tcp) listed = none
asked_name (some tls) listed = server_name listed
asked_name (some http2) listed = server_name listed
asked_name (some http3) listed = server_name listed

trimmed_name-server_name : (o : Option Codes) → trimmed_name o ≡ server_name o
unfolding trimmed_name server_name
trimmed_name-server_name none = refl
trimmed_name-server_name (some name) = listed (trim name)
  where
    listed : (t : Codes) → (if is_empty t then none else some t) ≡ listed_name t
    listed [] = refl
    listed (c ∷ cs) = refl

pub type_asked : (o : Option DnsQueryType) → or_else o a ≡ asked_type o
type_asked none = refl
type_asked (some t) = refl

pub name_asked :
    (o : Option DnsTransport) (listed : Option Codes)
    → (if needs_name o then trimmed_name listed else none) ≡ asked_name o listed
name_asked none listed = refl
name_asked (some udp) listed = refl
name_asked (some tcp) listed = refl
name_asked (some tls) listed = trimmed_name-server_name listed
name_asked (some http2) listed = trimmed_name-server_name listed
name_asked (some http3) listed = trimmed_name-server_name listed
