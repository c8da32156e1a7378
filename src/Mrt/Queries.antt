-- ===== src/Mrt/Queries.antt =====
-- web/apis/mrtProviders.ts: the lister that answers the queries from data at hand. The package
-- ipaddr.js is the parameter IpaddrRanges.
pub mod Covers
use rbmq_demo.Common.{
  ℕ, zero, suc, ◌+◌, ◌-◌, ◌*◌, String, Option, none, some, List, [], ◌∷◌, ◌++◌, map, filter, all,
  Bool, true, false, not, ◌&&◌, ◌||◌, ◌==◌, string_key, leb, nat_beq, last?, if◌then◌else◌,
}
use rbmq_demo.Common.Codes.{Codes, codes, trim, trim_start, split, among, is_empty}
use rbmq_demo.Common.Options.{◌>>=◌}
use rbmq_demo.Trace.{or_else}
use rbmq_demo.Mrt.{MrtEntry, MrtEntryDataEvent}

-- What `parseInt(s, 10)` gives of a text with a number: itself, or the negative of 1 and it.
pub data Parsed : Type 0 where
  natural : ℕ → Parsed
  negative : ℕ → Parsed

abbrev pub is_digit_code : ℕ → Bool
is_digit_code c = leb 48 c && leb c 57

-- The digits that the text starts with, after the number `n`.
unfoldable pub digits_from : ℕ → Codes → ℕ
digits_from n [] = n
digits_from n (c ∷ s) =
    let rest = digits_from (n * 10 + (c - 48)) s in if is_digit_code c then rest else n

-- None if there is no digit.
abbrev pub unsigned : Codes → Option ℕ
unfolding digits_from
unsigned [] = none
unsigned (c ∷ s) = if is_digit_code c then some (digits_from (c - 48) s) else none

abbrev pub positive_of : Option ℕ → Option Parsed
positive_of none = none
positive_of (some n) = some (natural n)

abbrev pub negative_of : Option ℕ → Option Parsed
negative_of none = none
negative_of (some zero) = some (natural 0)
negative_of (some (suc n)) = some (negative n)

abbrev pub signed : Codes → Option Parsed
unfolding digits_from
signed [] = none
signed (c ∷ s) =
    if nat_beq c 45
    then negative_of (unsigned s)
    else if nat_beq c 43
    then positive_of (unsigned s)
    else positive_of (unsigned (c ∷ s))

-- `parseInt(s, 10)`, none for NaN.
unfoldable pub parse_int : Codes → Option Parsed
unfolding signed trim_start
parse_int s = signed (trim_start s)

-- `===` on two numbers.
abbrev pub same_number : Parsed → Parsed → Bool
same_number (natural m) (natural n) = nat_beq m n
same_number (negative m) (negative n) = nat_beq m n
same_number _ _ = false

abbrev pub in_set : Parsed → List Parsed → Bool
in_set asn [] = false
in_set asn (a ∷ asns) = same_number a asn || in_set asn asns

-- `asnSet.add(asn)`
abbrev pub add_asn : List Parsed → Parsed → List Parsed
add_asn asns asn = if in_set asn asns then asns else asns ++ asn ∷ []

-- A part as a number, none where the source throws.
unfoldable pub parse_part : Codes → Option Parsed
unfolding parse_int
parse_part part = if is_empty part then none else parse_int part

abbrev pub parse_parts : List Parsed → List Codes → Option (List Parsed)
unfolding parse_part
parse_parts asns [] = some asns
parse_parts asns (part ∷ parts) = parse_part part >>= λ asn. parse_parts (add_asn asns asn) parts

abbrev pub unless_no_asn : List Parsed → Option (List Parsed)
unless_no_asn [] = none
unless_no_asn (a ∷ asns) = some (a ∷ asns)

-- None where the source throws `invalid ASN`.
unfoldable pub parse_target_as_set : String → Option (List Parsed)
unfolding parse_parts trim split
parse_target_as_set target = parse_parts [] (map trim (split 44 (codes target))) >>= unless_no_asn

-- The package ipaddr.js: `parse` and `parseCIDR` are called on valid texts only.
pub record IpaddrRanges (A : Type 0) : Type 0 where
  pub is_valid : String → Bool
  pub parse_ip : String → A
  pub is_valid_cidr : String → Bool
  pub parse_cidr : String → A × ℕ
  pub kind : A → String
  pub in_range : A → A × ℕ → Bool

pub data RouteQueryType : Type 0 where
  as_path_segs neighbor_asn origin_asn ip_or_cidr : RouteQueryType

-- The promise of a query: its error, or the entries.
pub data Filtered : Type 0 where
  invalid_ip_or_cidr : String → Filtered
  invalid_asn : String → Filtered
  resolved : List MrtEntryDataEvent → Filtered

abbrev pub path_of : MrtEntryDataEvent → Option (List ℕ)
path_of e = e.entry >>= λ d. d.as_path

abbrev pub peer_as_of : MrtEntryDataEvent → Option ℕ
peer_as_of e = e.entry >>= λ d. d.peer_as

-- `n === asn`, where n may be missing.
abbrev pub is_asn : Option ℕ → Parsed → Bool
is_asn none asn = false
is_asn (some n) asn = same_number (natural n) asn

abbrev pub has_all : Option (List ℕ) → List Parsed → Bool
has_all none asns = false
has_all (some path) asns = all (λ asn. in_set asn (map natural path)) asns

abbrev pub first_is : Option (List ℕ) → Parsed → Bool
first_is none asn = false
first_is (some []) asn = false
first_is (some (n ∷ path)) asn = same_number (natural n) asn

abbrev pub last_is : Option (List ℕ) → Parsed → Bool
last_is none asn = false
last_is (some path) asn = is_asn (last? path) asn

unfoldable pub filter_by_as_path : List MrtEntryDataEvent → String → Filtered
unfolding parse_target_as_set
filter_by_as_path all_data target = filtered (parse_target_as_set target)
  where
    filtered : Option (List Parsed) → Filtered
    filtered none = invalid_asn target
    filtered (some asns) = resolved (filter (λ e. has_all (path_of e) asns) all_data)

unfoldable pub filter_by_neighbor_asn : List MrtEntryDataEvent → String → Filtered
unfolding parse_int
filter_by_neighbor_asn all_data target = filtered (parse_int (codes target))
  where
    filtered : Option Parsed → Filtered
    filtered none = invalid_asn target
    filtered (some asn) =
        resolved (filter (λ e. is_asn (peer_as_of e) asn || first_is (path_of e) asn) all_data)

unfoldable pub filter_by_origin_asn : List MrtEntryDataEvent → String → Filtered
unfolding parse_int
filter_by_origin_asn all_data target = filtered (parse_int (codes target))
  where
    filtered : Option Parsed → Filtered
    filtered none = invalid_asn target
    filtered (some asn) = resolved (filter (λ e. last_is (path_of e) asn) all_data)

module _ {A : Type 0} (js : IpaddrRanges A) where
  abbrev pub prefix_of : MrtEntryDataEvent → String
  prefix_of e = or_else (e.entry >>= λ d. some d.prefix_text) ""

  -- `entryRange[0].kind() === addr.kind() && addr.match(entryRange)`
  abbrev pub matches : A → A × ℕ → Bool
  matches addr range = js.kind range.0 == js.kind addr && js.in_range addr range

  abbrev pub includes_ip : A → MrtEntryDataEvent → Bool
  includes_ip addr e = js.is_valid_cidr (prefix_of e) && matches addr (js.parse_cidr (prefix_of e))

  abbrev pub covers_cidr : A × ℕ → MrtEntryDataEvent → Bool
  covers_cidr range e =
      let of_entry : A × ℕ = js.parse_cidr (prefix_of e) in
      js.is_valid_cidr (prefix_of e) && (leb of_entry.1 range.1 && matches range.0 of_entry)

  unfoldable pub filter_by_ip_or_cidr : List MrtEntryDataEvent → String → Filtered
  filter_by_ip_or_cidr all_data target =
      if js.is_valid target
      then resolved (filter (includes_ip (js.parse_ip target)) all_data)
      else if js.is_valid_cidr target
      then resolved (filter (covers_cidr (js.parse_cidr target)) all_data)
      else invalid_ip_or_cidr target

  unfoldable pub filter_data : List MrtEntryDataEvent → RouteQueryType → String → Filtered
  unfolding filter_by_ip_or_cidr filter_by_as_path filter_by_neighbor_asn filter_by_origin_asn
  filter_data all_data ip_or_cidr target = filter_by_ip_or_cidr all_data target
  filter_data all_data as_path_segs target = filter_by_as_path all_data target
  filter_data all_data neighbor_asn target = filter_by_neighbor_asn all_data target
  filter_data all_data origin_asn target = filter_by_origin_asn all_data target
