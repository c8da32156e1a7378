-- ===== src/IpAddr/ToMask.antt =====
-- ipaddr.ts: `toMask` keeps the first bits of an address and clears the others.
use Prim.Native.Nat.{bit_and}
use rbmq_demo.Common.{
  ℕ, zero, suc, ◌+◌, ◌-◌, ◌*◌, ◌^◌, ◌≤◌, ◌<◌, min, Bool, true, false, ◌&&◌, List, [], ◌∷◌, ◌++◌,
  append_assoc, append-nil, length, take, replicate, leb, nat_beq, if◌then◌else◌, ◌≡◌, refl, ap,
  ap₂, ◌∙◌, sym, inl, inr, arith, All, Bool-cases,
}
use rbmq_demo.Common.Bits.{holds_below, holds_below-lt}
use rbmq_demo.IpAddr.{IpAddr, mask_bytes, to_mask}
use rbmq_demo.IpAddr.Digits.{byte_bits, bits, take-append}
use rbmq_demo.IpAddr.Masked.{take_nil, take-min}
use native.Mathlib.Decide.{dec_le}

same_digits : List ℕ → List ℕ → Bool
same_digits [] [] = true
same_digits (a ∷ as') (b ∷ bs) = nat_beq a b && same_digits as' bs
same_digits _ _ = false

same_digits→eq : (as' bs : List ℕ) → same_digits as' bs ≡ true → as' ≡ bs
unfolding same_digits
same_digits→eq [] [] h = refl
same_digits→eq (a ∷ as') (b ∷ bs) h = ground (arith, same_digits→eq as' bs)
same_digits→eq _ _ h = cc

-- A byte with only its `r` highest bits kept.
abbrev kept : ℕ → ℕ → ℕ
kept r x = bit_and x (0xff - (2 ^ (8 - r) - 1))

abbrev kept_bits : ℕ → ℕ → List ℕ
kept_bits r x = take r (byte_bits x) ++ replicate (8 - r) 0

abbrev kept_ok : ℕ → ℕ → Bool
kept_ok r x = same_digits (byte_bits (kept r x)) (kept_bits r x)

kept_table : holds_below 9 (λ r. holds_below 256 (kept_ok r)) ≡ true
unfolding holds_below same_digits
kept_table = refl

kept_lem : (r x : ℕ) → r ≤ 8 → x < 256 → byte_bits (kept r x) ≡ kept_bits r x
kept_lem r x hr hx = same_digits→eq (byte_bits (kept r x)) (kept_bits r x) (
    holds_below-lt 256 x (kept_ok r) hx
      (holds_below-lt 9 r (λ r. holds_below 256 (kept_ok r)) (omega arith) kept_table))

abbrev zeros : ℕ → List ℕ
zeros n = replicate n 0

zeros-add : (m n : ℕ) → zeros m ++ zeros n ≡ zeros (m + n)
zeros-add zero n = let same : n ≡ 0 + n = omega arith in ap zeros same
zeros-add (suc m) n =
    let same : suc (m + n) ≡ suc m + n = omega arith in ap (◌∷◌ 0) (zeros-add m n) ∙ ap zeros same

-- The bits of a list of bytes with all but the first `q` cleared.
abbrev first_bits : ℕ → List ℕ → List ℕ
first_bits q xs = take q (bits xs) ++ replicate (8 * length xs - q) 0

step_bits :
    (q x : ℕ) (xs : List ℕ) → kept_bits (min 8 q) x ++ first_bits (q - 8) xs ≡ first_bits q (x ∷ xs)
unfolding bits
step_bits q x xs = elim (dec_le 8 q) [
  | yes h ↦
      let all : min 8 q ≡ 8 = omega arith in
      let rest : 8 * length xs - (q - 8) ≡ 8 * length (x ∷ xs) - q = omega arith in
      ap (λ r. kept_bits r x ++ first_bits (q - 8) xs) all
      ∙ sym (append_assoc (byte_bits x) (take (q - 8) (bits xs)) (zeros (8 * length xs - (q - 8))))
      ∙ ap₂ (λ l n. (l ++ take (q - 8) (bits xs)) ++ zeros n)
          (ap (λ r. take r (byte_bits x)) (sym all) ∙ sym (take-min q (byte_bits x))) rest
      ∙ ap (λ l. l ++ zeros (8 * length (x ∷ xs) - q)) (sym (take-append q (byte_bits x) (bits xs)))
  | no h ↦
      let some_of : min 8 q ≡ q = omega arith in
      let none : q - 8 ≡ 0 = omega arith in
      let rest : (8 - q) + (8 * length xs - 0) ≡ 8 * length (x ∷ xs) - q = omega arith in
      ap₂ (λ r n. kept_bits r x ++ first_bits n xs) some_of none
      ∙ append_assoc (take q (byte_bits x)) (zeros (8 - q)) (zeros (8 * length xs - 0))
      ∙ ap (λ l. take q (byte_bits x) ++ l) (zeros-add (8 - q) (8 * length xs - 0) ∙ ap zeros rest)
      ∙ ap (λ l. l ++ zeros (8 * length (x ∷ xs) - q)) (whole q none)
]
  where
    whole : (q : ℕ) → q - 8 ≡ 0 → take q (byte_bits x) ≡ take q (byte_bits x ++ bits xs)
    whole q none = sym (
        take-append q (byte_bits x) (bits xs)
        ∙ ap (λ n. take q (byte_bits x) ++ take n (bits xs)) none
        ∙ append-nil (take q (byte_bits x)))

-- What the loop writes for one byte.
abbrev masked_byte : ℕ → ℕ → ℕ → ℕ
masked_byte i p x = if leb p (i * 8) then 0 else kept (min 8 (p - i * 8)) x

masked_byte_lem :
    (i p x : ℕ) → x < 256 → byte_bits (masked_byte i p x) ≡ kept_bits (min 8 (p - i * 8)) x
masked_byte_lem i p x hx = elim (Bool-cases (leb p (i * 8))) [
  | inl e ↦
      let none : 0 ≡ min 8 (p - i * 8) = ground arith in
      ap (λ b. byte_bits (if b then 0 else kept (min 8 (p - i * 8)) x)) e
      ∙ ap (λ r. kept_bits r x) none
  | inr e ↦
      ap (λ b. byte_bits (if b then 0 else kept (min 8 (p - i * 8)) x)) e
      ∙ kept_lem (min 8 (p - i * 8)) x (omega arith) hx
]

mask_bytes_lem :
    (xs : List ℕ) (i p : ℕ)
    → All (λ x. x < 256) xs
    → bits (mask_bytes xs i p) ≡ first_bits (p - i * 8) xs
unfolding mask_bytes bits
mask_bytes_lem [] i p h = sym (ap₂ (λ l n. l ++ zeros n) (take_nil (p - i * 8)) (sym none))
  where
    none : 0 ≡ 8 * 0 - (p - i * 8)
    none = omega arith
mask_bytes_lem (x ∷ xs) i p (hx, h) =
    let later : p - (i + 1) * 8 ≡ p - i * 8 - 8 = omega arith in
    ap₂ (λ b r. b ++ r) (masked_byte_lem i p x hx)
      (mask_bytes_lem xs (i + 1) p h ∙ ap (λ q. first_bits q xs) later)
    ∙ step_bits (p - i * 8) x xs

-- For every address whose bytes are below 256, the bits of `toMask` are the first `prefixLen` bits
-- of the address and then zeros, and its family is that of the address.
pub to_mask_lem :
    (a : IpAddr) (prefix_len : ℕ)
    → All (λ x. x < 256) a.bytes
    → (bits (to_mask a prefix_len).bytes
        ≡ take prefix_len (bits a.bytes) ++ replicate (8 * length a.bytes - prefix_len) 0)
      × ((to_mask a prefix_len).family ≡ a.family)
unfolding to_mask
to_mask_lem a prefix_len h =
    let from_start : prefix_len - 0 * 8 ≡ prefix_len = omega arith in
    (mask_bytes_lem a.bytes 0 prefix_len h ∙ ap (λ q. first_bits q a.bytes) from_start, refl)
