-- ===== src/Tests/IpAddr.antt =====
-- web/utls/ipaddr.ts on concrete addresses.
use rbmq_demo.Common.{◌≡◌, refl, [], ◌∷◌, take, drop, arith, some}
use text.Mathlib.Text.{◌==◌}
use rbmq_demo.Router.{ipv4}
use rbmq_demo.IpAddr.{IpAddr, IpaddrJs, from_string, get_masked_value, to_mask}
use rbmq_demo.IpAddr.Digits.{bits, number}
use rbmq_demo.IpAddr.Masked.{get_masked_value-number}

abbrev host : IpAddr
host = record { bytes = 10 ∷ 146 ∷ 7 ∷ 130 ∷ []; family = ipv4 }

masked_runs : get_masked_value host 6 9 ≡ 329
unfolding get_masked_value
masked_runs = refl

to_mask_runs : (to_mask host 22).bytes ≡ 10 ∷ 146 ∷ 4 ∷ 0 ∷ []
unfolding to_mask
to_mask_runs = refl

-- A stand-in for the package that knows one address.
abbrev one_address : IpaddrJs
one_address = record {
  is_valid = λ s. s == "10.146.7.130";
  to_byte_array = λ s. 10 ∷ 146 ∷ 7 ∷ 130 ∷ [];
  kind = λ s. "ipv4";
}

from_string_runs : from_string one_address "10.146.7.130" ≡ some host
unfolding from_string
from_string_runs = refl

get_masked_value-number_example :
    get_masked_value host 6 9 ≡ number (take 9 (drop 6 (bits host.bytes)))
get_masked_value-number_example = get_masked_value-number host 6 9 (omega arith)
