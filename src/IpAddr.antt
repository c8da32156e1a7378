-- ===== src/IpAddr.antt =====
-- web/utls/ipaddr.ts: addresses as bytes, and the bits that the routing table reads from them.
pub mod Digits
pub mod Masked
pub mod ToMask
pub mod Slices
use Prim.Native.Nat.{bit_and, bit_or}
use rbmq_demo.Common.{
  ℕ, zero, suc, ◌+◌, ◌-◌, ◌*◌, ◌/◌, ◌%◌, ◌^◌, min, Bool, true, false, Option, none, some, List, [],
  ◌∷◌, String, ltb, leb, nat_beq, if◌then◌else◌,
}
use text.Mathlib.Text.{◌==◌}
use rbmq_demo.Router.{Family, ipv4, ipv6, AddrLike}

pub record IpAddr : Type 0 where
  pub bytes : List ℕ
  pub family : Family

-- The package ipaddr.js: `isValid`, and `toByteArray` and `kind` of what `parse` returns for a
-- valid text.
pub record IpaddrJs : Type 0 where
  pub is_valid : String → Bool
  pub to_byte_array : String → List ℕ
  pub kind : String → String

abbrev pub kind_family : Bool → Family
kind_family true = ipv4
kind_family false = ipv6

unfoldable pub from_string : IpaddrJs → String → Option IpAddr
from_string js addr =
    if js.is_valid addr
    then some
        (record { bytes = js.to_byte_array addr; family = kind_family (js.kind addr == "ipv4") })
    else none

-- 1 << (8 - nbits), less 1: the `nbits` highest bits are 0.
unfoldable pub revmask : ℕ → ℕ
revmask nbits = 2 ^ (8 - nbits) - 1

-- The `nbits` highest bits are 1.
unfoldable pub mask : ℕ → ℕ
mask nbits = 0xff - (2 ^ (8 - nbits) - 1)

-- The value that the byte at `byteOffset` starts with.
unfoldable pub first_value : ℕ → ℕ → ℕ → ℕ
unfolding revmask mask
first_value byte bit_offset bits_read =
    bit_and (bit_and byte (revmask bit_offset)) (mask (bit_offset + bits_read))
    / 2 ^ (8 - bit_offset - bits_read)

-- What a later byte adds to the value.
unfoldable pub next_value : ℕ → ℕ → ℕ → ℕ
unfolding mask
next_value value byte bits_read =
    bit_or (value * 2 ^ bits_read) (bit_and byte (mask bits_read) / 2 ^ (8 - bits_read))

-- The loop of `getMaskedValue`, from the byte with index `i` on.
unfoldable pub masked_loop : List ℕ → ℕ → ℕ → ℕ → ℕ → ℕ → ℕ
unfolding first_value next_value
masked_loop [] i byte_offset bit_offset nbits value = value
masked_loop (byte ∷ bytes) i byte_offset bit_offset nbits value =
    let skip = masked_loop bytes (i + 1) byte_offset bit_offset nbits value in
    let first_read = min (8 - bit_offset) nbits in
    let first =
      masked_loop bytes (i + 1) byte_offset bit_offset (nbits - first_read)
        (first_value byte bit_offset first_read) in
    let next_read = min 8 nbits in
    let next =
      masked_loop bytes (i + 1) byte_offset bit_offset (nbits - next_read)
        (next_value value byte next_read) in
    if ltb i byte_offset
    then skip
    else if nat_beq i byte_offset
    then first
    else if ltb 0 nbits
    then next
    else skip

unfoldable pub get_masked_value : IpAddr → ℕ → ℕ → ℕ
unfolding masked_loop
get_masked_value a bit_offset nbits =
    if nat_beq nbits 0 then 0 else masked_loop a.bytes 0 (bit_offset / 8) (bit_offset % 8) nbits 0

-- The loop of `toMask`, from the byte with index `i` on.
unfoldable pub mask_bytes : List ℕ → ℕ → ℕ → List ℕ
mask_bytes [] i prefix_len = []
mask_bytes (byte ∷ bytes) i prefix_len =
    (if leb prefix_len (i * 8)
      then 0
      else bit_and byte (0xff - (2 ^ (8 - min 8 (prefix_len - i * 8)) - 1)))
    ∷ mask_bytes bytes (i + 1) prefix_len

unfoldable pub to_mask : IpAddr → ℕ → IpAddr
unfolding mask_bytes
to_mask a prefix_len = record { bytes = mask_bytes a.bytes 0 prefix_len; family = a.family }

instance abbrev pub ip_addr_like : AddrLike IpAddr
ip_addr_like = record { get_family = λ a. a.family; get_masked_value = get_masked_value }
