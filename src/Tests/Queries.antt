-- ===== src/Tests/Queries.antt =====
-- web/apis/mrtProviders.ts: the queries, with addresses of one bit for those of a range.
use rbmq_demo.Common.{
  ℕ, zero, suc, ◌≡◌, ◌↔◌, refl, ◌≤◌, String, List, [], ◌∷◌, Option, none, some, Bool, true, false,
  not, ◌==◌, string_key, length, take, filter, if◌then◌else◌, arith, Bool-cases, inl, inr,
}
use rbmq_demo.Common.Codes.{trim, trim_start, trim_end, split}
use rbmq_demo.Mrt.{MrtEntryDataEvent}
use rbmq_demo.Mrt.Queries.{
  IpaddrRanges, ip_or_cidr, resolved, invalid_asn, filter_data, filter_by_as_path,
  filter_by_neighbor_asn, filter_by_origin_asn, parse_target_as_set, parse_part, parse_int,
  digits_from,
}
use rbmq_demo.Mrt.Queries.Covers.{IsIpaddr, Covers, filter_data-Covers}

abbrev one_bit : Bool → List Bool
one_bit b = b ∷ []

abbrev starts_as : Bool → Bool × ℕ → Bool
starts_as a (r, zero) = true
starts_as true (r, suc n) = r
starts_as false (r, suc n) = not r

abbrev bit_kind : Bool → String
bit_kind b = "ipv4"

abbrev one_bit_js : IpaddrRanges Bool
one_bit_js = record {
  is_valid = λ t. t == "1";
  parse_ip = λ t. true;
  is_valid_cidr = λ t. not (t == "");
  parse_cidr = λ t. if t == "1/1" then (true, 1) else (false, 0);
  kind = bit_kind;
  in_range = starts_as;
}

starts_as_iff :
    (a r : Bool) (n : ℕ) → (starts_as a (r, n) ≡ true) ↔ (take n (one_bit a) ≡ take n (one_bit r))
starts_as_iff a r zero = (λ h. refl, λ h. refl)
starts_as_iff true true (suc n) = (λ h. refl, λ h. refl)
starts_as_iff false false (suc n) = (λ h. refl, λ h. refl)
starts_as_iff true false (suc n) = (λ h. cc, λ h. cc)
starts_as_iff false true (suc n) = (λ h. cc, λ h. cc)

with_bits :
    (a : Bool) (bs : List Bool)
    → length bs ≡ length (one_bit a)
    → (b : Bool) × (bit_kind b ≡ bit_kind a) × (one_bit b ≡ bs)
with_bits a [] h = absurd (omega arith)
with_bits a (b ∷ []) h = (b, refl, refl)
with_bits a (b ∷ c ∷ bs) h = absurd (omega arith)

fits : (t : String) → not (t == "") ≡ true → (one_bit_js.parse_cidr t).1 ≤ 1
fits t h = elim (Bool-cases (t == "1/1")) [
  | inl e ↦ rw e (omega arith)
  | inr e ↦ rw e (omega arith)
]

abbrev one_bit_laws : IsIpaddr one_bit_js one_bit
one_bit_laws = record {
  length_bits = λ a b k. refl;
  in_range_iff = λ a r n k. starts_as_iff a r n;
  address_with = with_bits;
  range_fits = fits;
}

abbrev entry_of : String → Option ℕ → List ℕ → MrtEntryDataEvent
entry_of prefix peer_as as_path = record {
  entry =
      some
        (record { prefix_text = prefix; peer = none; peer_as = peer_as; as_path = some as_path });
  err = none;
}

abbrev data_at_hand : List MrtEntryDataEvent
data_at_hand =
    entry_of "0/0" (some 3) (1 ∷ 2 ∷ [])
    ∷ entry_of "1/1" none (3 ∷ 1 ∷ [])
    ∷ record { entry = none; err = none }
    ∷ []

filter_data-Covers_example :
    (kept : MrtEntryDataEvent → Bool) × (filter_data one_bit_js data_at_hand ip_or_cidr "0/0"
      ≡ resolved (filter kept data_at_hand))
    × ((e : MrtEntryDataEvent) → (kept e ≡ true) ↔ Covers one_bit_laws "0/0" e)
filter_data-Covers_example = filter_data-Covers one_bit_laws data_at_hand "0/0" refl refl

asns_run :
    (filter_by_as_path data_at_hand "1, 3" ≡ resolved (entry_of "1/1" none (3 ∷ 1 ∷ []) ∷ []))
    × (filter_by_as_path data_at_hand "1,,3" ≡ invalid_asn "1,,3")
    × (filter_by_neighbor_asn data_at_hand "3"
        ≡ resolved (entry_of "0/0" (some 3) (1 ∷ 2 ∷ []) ∷ entry_of "1/1" none (3 ∷ 1 ∷ []) ∷ []))
    × (filter_by_origin_asn data_at_hand "2x"
        ≡ resolved (entry_of "0/0" (some 3) (1 ∷ 2 ∷ []) ∷ []))
    × (filter_by_origin_asn data_at_hand "AS2" ≡ invalid_asn "AS2")
unfolding filter_by_as_path filter_by_neighbor_asn filter_by_origin_asn parse_target_as_set
    parse_part parse_int digits_from trim trim_start trim_end split
asns_run = (refl, refl, refl, refl, refl)
