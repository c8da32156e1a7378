-- ===== src/IpAddr/Masked.antt =====
-- ipaddr.ts: `getMaskedValue` reads the number that stands in the bits from an offset on.
use Prim.Native.Nat.{bit_and, bit_or}
use rbmq_demo.Common.{
  ℕ, zero, suc, ◌+◌, ◌-◌, ◌*◌, ◌/◌, ◌%◌, ◌^◌, ◌≤◌, ◌<◌, min, Bool, true, List, [], ◌∷◌, ◌++◌,
  length, take, drop, length-take, length-drop, nat_beq, nat_beq_iff, ◌≡◌, refl, ap, ap₂, subst,
  ◌⊎◌, inl, inr, ◌∙◌, sym, arith, All,
}
use rbmq_demo.Common.Bits.{holds_below, holds_below-lt, bit_or_shifted}
use rbmq_demo.IpAddr.{IpAddr, mask, first_value, next_value, masked_loop, get_masked_value}
use rbmq_demo.IpAddr.Digits.{
  AreBits, byte_bits, bits, number_from, number, number_from-append, number_from-eq, take-append,
  drop-append, number-lt,
}

abbrev first_ok : ℕ → ℕ → ℕ → Bool
first_ok r b x =
    nat_beq (first_value x b (min (8 - b) r)) (number (take (min (8 - b) r) (drop b (byte_bits x))))

first_table : holds_below 9 (λ r. holds_below 8 (λ b. holds_below 256 (first_ok r b))) ≡ true
unfolding holds_below first_value number
first_table = refl

abbrev next_ok : ℕ → ℕ → Bool
next_ok r x = nat_beq (bit_and x (mask r) / 2 ^ (8 - r)) (number (take r (byte_bits x)))

next_table : holds_below 9 (λ r. holds_below 256 (next_ok r)) ≡ true
unfolding holds_below mask number
next_table = refl

first_value_lem :
    (x b r : ℕ)
    → x < 256
    → b < 8
    → r ≤ 8 - b
    → first_value x b r ≡ number (take r (drop b (byte_bits x)))
first_value_lem x b r hx hb hr =
    let small : min (8 - b) r ≡ r = omega arith in
    subst (λ n. first_value x b n ≡ number (take n (drop b (byte_bits x)))) small
      ((nat_beq_iff _ _).0 (
        holds_below-lt 256 x (first_ok r b) hx (
          holds_below-lt 8 b (λ b. holds_below 256 (first_ok r b)) hb
            (holds_below-lt 9 r (λ r. holds_below 8 (λ b. holds_below 256 (first_ok r b)))
              (omega arith) first_table))))

pub AreBits-take : (n : ℕ) (bs : List ℕ) → AreBits bs → AreBits (take n bs)
AreBits-take zero bs h = tt
AreBits-take (suc n) [] h = tt
AreBits-take (suc n) (b ∷ bs) (lt, h) = (lt, AreBits-take n bs h)

byte_bits-AreBits : (x : ℕ) → AreBits (byte_bits x)
byte_bits-AreBits x = omega arith

-- What a later byte adds is appended to the digits of the value.
next_value_lem :
    (value x r : ℕ)
    → x < 256
    → r ≤ 8
    → next_value value x r ≡ number_from value (take r (byte_bits x))
unfolding next_value number
next_value_lem value x r hx hr =
    let digits = take r (byte_bits x) in
    let read : bit_and x (mask r) / 2 ^ (8 - r) ≡ number digits = (nat_beq_iff _ _).0 (
      holds_below-lt 256 x (next_ok r) hx
        (holds_below-lt 9 r (λ r. holds_below 256 (next_ok r)) (omega arith) next_table)) in
    let count : length digits ≡ r = omega (arith, length-take r (byte_bits x)) in
    let fits : number digits < 2 ^ r =
      subst (λ n. number digits < 2 ^ n) count
        (number-lt digits (AreBits-take r (byte_bits x) (byte_bits-AreBits x))) in
    ap (bit_or (value * 2 ^ r)) read
    ∙ bit_or_shifted r value (number digits) fits
    ∙ sym (number_from-eq value digits ∙ ap (λ n. value * 2 ^ n + number_from 0 digits) count)

module _ {ℓ} {A : Type ℓ} where
  pub take_nil : (n : ℕ) → take {A = A} n [] ≡ []
  take_nil zero = refl
  take_nil (suc n) = refl

  pub take-min : (n : ℕ) (xs : List A) → take n xs ≡ take (min (length xs) n) xs
  take-min n [] = take_nil n ∙ sym (take_nil (min 0 n))
  take-min zero (x ∷ xs) =
      let none : 0 ≡ min (suc (length xs)) 0 = omega arith in ap (λ k. take k (x ∷ xs)) none
  take-min (suc n) (x ∷ xs) =
      let same : suc (min (length xs) n) ≡ min (suc (length xs)) (suc n) = omega arith in
      ap (◌∷◌ x) (take-min n xs) ∙ ap (λ k. take k (x ∷ xs)) same

number_from_split :
    (value n : ℕ) (xs ys : List ℕ)
    → number_from value (take n (xs ++ ys))
      ≡ number_from
          (number_from value (take (min (length xs) n) xs))
          (take (n - min (length xs) n) ys)
number_from_split value n xs ys =
    let rest : n - length xs ≡ n - min (length xs) n = omega arith in
    ap (number_from value) (take-append n xs ys ∙ ap₂ (λ l k. l ++ take k ys) (take-min n xs) rest)
    ∙ number_from-append value (take (min (length xs) n) xs) (take (n - min (length xs) n) ys)

module _ (x : ℕ) (xs : List ℕ) (i byte_offset b nbits value : ℕ) where
  loop_skips :
      i < byte_offset ⊎ ((byte_offset < i) × (nbits ≡ 0))
      → masked_loop (x ∷ xs) i byte_offset b nbits value
        ≡ masked_loop xs (i + 1) byte_offset b nbits value
  unfolding masked_loop
  loop_skips h = ground arith

  loop_first :
      i ≡ byte_offset
      → masked_loop (x ∷ xs) i byte_offset b nbits value
        ≡ masked_loop xs
            (i + 1)
            byte_offset
            b
            (nbits - min (8 - b) nbits)
            (first_value x b (min (8 - b) nbits))
  unfolding masked_loop
  loop_first h = ground arith

  loop_next :
      byte_offset < i
      → 0 < nbits
      → masked_loop (x ∷ xs) i byte_offset b nbits value
        ≡ masked_loop xs
            (i + 1)
            byte_offset
            b
            (nbits - min 8 nbits)
            (next_value value x (min 8 nbits))
  unfolding masked_loop
  loop_next h pos = ground arith

-- The bytes after the first: their first `nbits` bits are appended.
later_bytes :
    (xs : List ℕ) (i byte_offset b nbits value : ℕ)
    → byte_offset < i
    → All (λ x. x < 256) xs
    → masked_loop xs i byte_offset b nbits value ≡ number_from value (take nbits (bits xs))
unfolding bits masked_loop number_from
later_bytes [] i byte_offset b nbits value lt h = sym (ap (number_from value) (take_nil nbits))
later_bytes (x ∷ xs) i byte_offset b zero value lt (hx, h) =
    loop_skips x xs i byte_offset b 0 value (inr (lt, refl))
    ∙ later_bytes xs (i + 1) byte_offset b 0 value (omega arith) h
later_bytes (x ∷ xs) i byte_offset b (suc k) value lt (hx, h) =
    let n = suc k in
    loop_next x xs i byte_offset b n value lt (omega arith)
    ∙ later_bytes xs (i + 1) byte_offset b (n - min 8 n) (next_value value x (min 8 n))
        (omega arith) h
    ∙ ap (λ v. number_from v (take (n - min 8 n) (bits xs)))
        (next_value_lem value x (min 8 n) hx (omega arith))
    ∙ sym (number_from_split value n (byte_bits x) (bits xs))

drop-byte_bits :
    (x b : ℕ) (bs : List ℕ) → b < 8 → drop b (byte_bits x ++ bs) ≡ drop b (byte_bits x) ++ bs
drop-byte_bits x b bs hb =
    let none : b - 8 ≡ 0 = omega arith in
    drop-append b (byte_bits x) bs ∙ ap (λ k. drop b (byte_bits x) ++ drop k bs) none

first_byte :
    (x : ℕ) (xs : List ℕ) (i b nbits value : ℕ)
    → b < 8
    → x < 256
    → All (λ x. x < 256) xs
    → masked_loop (x ∷ xs) i i b nbits value ≡ number (take nbits (drop b (byte_bits x ++ bits xs)))
unfolding number
first_byte x xs i b nbits value hb hx h =
    let start = drop b (byte_bits x) in
    let r = min (8 - b) nbits in
    let count : min (length start) nbits ≡ r = omega (arith, length-drop b (byte_bits x)) in
    loop_first x xs i i b nbits value refl
    ∙ later_bytes xs (i + 1) i b (nbits - r) (first_value x b r) (omega arith) h
    ∙ ap (λ v. number_from v (take (nbits - r) (bits xs)))
        (first_value_lem x b r hx hb (omega arith))
    ∙ sym (
        ap (λ bs. number (take nbits bs)) (drop-byte_bits x b (bits xs) hb)
        ∙ number_from_split 0 nbits start (bits xs)
        ∙ ap (λ k. number_from (number (take k start)) (take (nbits - k) (bits xs))) count)

pub drop_nil : (n : ℕ) → drop {A = ℕ} n [] ≡ []
drop_nil zero = refl
drop_nil (suc n) = refl

pub drop_all : (n : ℕ) (bs : List ℕ) → length bs ≤ n → drop n bs ≡ []
drop_all n [] h = drop_nil n
drop_all zero (b ∷ bs) h = absurd (omega arith)
drop_all (suc n) (b ∷ bs) h = drop_all n bs (omega arith)

drop_byte : (n x : ℕ) (bs : List ℕ) → 8 ≤ n → drop n (byte_bits x ++ bs) ≡ drop (n - 8) bs
drop_byte n x bs h =
    drop-append n (byte_bits x) bs ∙ ap (λ l. l ++ drop (n - 8) bs) (drop_all n (byte_bits x) h)

skipped_bytes :
    (xs : List ℕ) (i k b nbits : ℕ)
    → b < 8
    → All (λ x. x < 256) xs
    → masked_loop xs i (i + k) b nbits 0 ≡ number (take nbits (drop (8 * k + b) (bits xs)))
unfolding bits masked_loop number
skipped_bytes [] i k b nbits hb h =
    sym (ap (λ bs. number (take nbits bs)) (drop_nil (8 * k + b)) ∙ ap number (take_nil nbits))
skipped_bytes (x ∷ xs) i zero b nbits hb (hx, h) =
    let here : i + 0 ≡ i = omega arith in
    let at : b ≡ 8 * 0 + b = omega arith in
    ap (λ o. masked_loop (x ∷ xs) i o b nbits 0) here
    ∙ first_byte x xs i b nbits 0 hb hx h
    ∙ ap (λ o. number (take nbits (drop o (byte_bits x ++ bits xs)))) at
skipped_bytes (x ∷ xs) i (suc k) b nbits hb (hx, h) =
    let there : i + suc k ≡ i + 1 + k = omega arith in
    let rest : 8 * k + b ≡ 8 * suc k + b - 8 = omega arith in
    loop_skips x xs i (i + suc k) b nbits 0 (inl (omega arith))
    ∙ ap (λ o. masked_loop xs (i + 1) o b nbits 0) there
    ∙ skipped_bytes xs (i + 1) k b nbits hb h
    ∙ ap (λ o. number (take nbits (drop o (bits xs)))) rest
    ∙ ap (λ bs. number (take nbits bs)) (sym (drop_byte (8 * suc k + b) x (bits xs) (omega arith)))

masked_none :
    (a : IpAddr) (bit_offset : ℕ)
    → get_masked_value a bit_offset 0 ≡ number (take 0 (drop bit_offset (bits a.bytes)))
unfolding get_masked_value number
masked_none a bit_offset = refl

masked_some :
    (a : IpAddr) (bit_offset k : ℕ)
    → get_masked_value a bit_offset (suc k)
      ≡ masked_loop a.bytes 0 (bit_offset / 8) (bit_offset % 8) (suc k) 0
unfolding get_masked_value
masked_some a bit_offset k = ground arith

-- For every address whose bytes are below 256, `getMaskedValue` returns the number whose binary
-- digits are the `nbits` bits from the offset on, or as many of them as the address has.
pub get_masked_value-number :
    (a : IpAddr) (bit_offset nbits : ℕ)
    → All (λ x. x < 256) a.bytes
    → get_masked_value a bit_offset nbits ≡ number (take nbits (drop bit_offset (bits a.bytes)))
get_masked_value-number a bit_offset zero h = masked_none a bit_offset
get_masked_value-number a bit_offset (suc k) h =
    let n = suc k in
    let at : 8 * (bit_offset / 8) + bit_offset % 8 ≡ bit_offset = omega arith in
    let zero_plus : bit_offset / 8 ≡ 0 + bit_offset / 8 = omega arith in
    masked_some a bit_offset k
    ∙ ap (λ o. masked_loop a.bytes 0 o (bit_offset % 8) n 0) zero_plus
    ∙ skipped_bytes a.bytes 0 (bit_offset / 8) (bit_offset % 8) n (omega arith) h
    ∙ ap (λ o. number (take n (drop o (bits a.bytes)))) at
