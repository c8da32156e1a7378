-- ===== src/IpAddr/Slices.antt =====
-- ipaddr.ts: addresses of the right size give the routing table what it relies on.
use rbmq_demo.Common.{
  ℕ, zero, suc, ◌+◌, ◌*◌, ◌^◌, ◌<◌, List, [], ◌∷◌, ◌++◌, length, take, drop, length-take,
  length-drop, ◌≡◌, ◌↔◌, refl, ap, ap₂, ◌∙◌, sym, arith, All,
}
use rbmq_demo.Router.{AddrLike, family_max_bits}
use rbmq_demo.Router.Longest.{IsSliced}
use rbmq_demo.IpAddr.{IpAddr, get_masked_value}
use rbmq_demo.IpAddr.Digits.{
  AreBits, byte_bits, bits, number_from, number, number_from-eq, number-lt,
}
use rbmq_demo.IpAddr.Masked.{take_nil, AreBits-take, get_masked_value-number}

-- An address whose bytes are bytes, 4 of them for IPv4 and 16 for IPv6.
pub record CheckedAddr : Type 0 where
  pub addr : IpAddr
  pub in_range : All (λ x. x < 256) addr.bytes
  pub whole : 8 * length addr.bytes ≡ family_max_bits addr.family

instance abbrev pub checked_addr_like : AddrLike CheckedAddr
checked_addr_like = record {
  get_family = λ a. a.addr.family;
  get_masked_value = λ a bit_offset nbits. get_masked_value a.addr bit_offset nbits;
}

number-cons : (b : ℕ) (bs : List ℕ) → number (b ∷ bs) ≡ b * 2 ^ length bs + number bs
unfolding number number_from
number-cons b bs =
    let same : 0 * 2 + b ≡ b = omega arith in ap (λ v. number_from v bs) same ∙ number_from-eq b bs

number-injective :
    (bs cs : List ℕ)
    → AreBits bs
    → AreBits cs
    → length bs ≡ length cs
    → number bs ≡ number cs
    → bs ≡ cs
number-injective [] [] hb hc l e = refl
number-injective [] (c ∷ cs) hb hc l e = absurd (omega arith)
number-injective (b ∷ bs) [] hb hc l e = absurd (omega arith)
number-injective (b ∷ bs) (c ∷ cs) (lb, hb) (lc, hc) l e =
    let same : length bs ≡ length cs = omega arith in
    let power = ap (λ n. 2 ^ n) same in
    let heads : b ≡ c =
      grind (arith, number-cons b bs, number-cons c cs, number-lt bs hb, number-lt cs hc) in
    let tails : number bs ≡ number cs = grind (arith, number-cons b bs, number-cons c cs) in
    ap₂ ◌∷◌ heads (number-injective bs cs hb hc same tails)

module _ {ℓ} {A : Type ℓ} where
  take_add : (m n : ℕ) (xs : List A) → take (m + n) xs ≡ take m xs ++ take n (drop m xs)
  take_add zero n xs = let same : 0 + n ≡ n = omega arith in ap (λ k. take k xs) same
  take_add (suc m) n [] = take_nil (suc m + n) ∙ sym (take_nil n)
  take_add (suc m) n (x ∷ xs) =
      let same : suc m + n ≡ suc (m + n) = omega arith in
      ap (λ k. take k (x ∷ xs)) same ∙ ap (◌∷◌ x) (take_add m n xs)

  append-injective :
      (as' bs cs ds : List A)
      → length as' ≡ length bs
      → as' ++ cs ≡ bs ++ ds
      → (as' ≡ bs) × (cs ≡ ds)
  append-injective [] [] cs ds l e = (refl, e)
  append-injective [] (b ∷ bs) cs ds l e = absurd (omega arith)
  append-injective (a ∷ as') [] cs ds l e = absurd (omega arith)
  append-injective (a ∷ as') (b ∷ bs) cs ds l e =
      let heads : a ≡ b = cc in
      let tails : as' ++ cs ≡ bs ++ ds = cc in
      let (fronts, backs) = append-injective as' bs cs ds (omega arith) tails in
      (ap₂ ◌∷◌ heads fronts, backs)

AreBits-drop : (n : ℕ) (bs : List ℕ) → AreBits bs → AreBits (drop n bs)
AreBits-drop zero bs h = h
AreBits-drop (suc n) [] h = tt
AreBits-drop (suc n) (b ∷ bs) (lt, h) = AreBits-drop n bs h

AreBits-append : (bs cs : List ℕ) → AreBits bs → AreBits cs → AreBits (bs ++ cs)
AreBits-append [] cs h k = k
AreBits-append (b ∷ bs) cs (lt, h) k = (lt, AreBits-append bs cs h k)

bits-AreBits : (xs : List ℕ) → AreBits (bits xs)
unfolding bits
bits-AreBits [] = tt
bits-AreBits (x ∷ xs) = AreBits-append (byte_bits x) (bits xs) (omega arith) (bits-AreBits xs)

length-bits : (xs : List ℕ) → length (bits xs) ≡ 8 * length xs
unfolding bits
length-bits [] = omega arith
length-bits (x ∷ xs) = omega (arith, length-bits xs)

module _ (as' bs : List ℕ) (same_length : length as' ≡ length bs) (ha : AreBits as')
    (hb : AreBits bs) where
  same_digits :
      (m n : ℕ)
      → number (take n (drop m as')) ≡ number (take n (drop m bs))
      → take n (drop m as') ≡ take n (drop m bs)
  same_digits m n e =
      number-injective (take n (drop m as')) (take n (drop m bs))
        (AreBits-take n _ (AreBits-drop m as' ha)) (AreBits-take n _ (AreBits-drop m bs hb))
        (omega (
          arith,
          length-take n (drop m as'),
          length-take n (drop m bs),
          length-drop m as',
          length-drop m bs,
        ))
        e

  split_digits :
      (m n : ℕ)
      → (number (take (m + n) as') ≡ number (take (m + n) bs)) ↔ (
          (number (take m as') ≡ number (take m bs))
          × (number (take n (drop m as')) ≡ number (take n (drop m bs))))
  split_digits m n = (
    λ e.
        let joined = sym (take_add m n as') ∙ same_digits 0 (m + n) e ∙ take_add m n bs in
        let count : length (take m as') ≡ length (take m bs) =
          omega (arith, length-take m as', length-take m bs) in
        let (fronts, backs) = append-injective (take m as') (take m bs) _ _ count joined in
        (ap number fronts, ap number backs),
    λ (first, second). ap number (
        take_add m n as'
        ∙ ap₂ (λ l r. l ++ r) (same_digits 0 m first) (same_digits m n second)
        ∙ sym (take_add m n bs)),
  )

-- What a masked value of an address is, as a number of bits.
reads :
    (a : CheckedAddr) (m n : ℕ)
    → get_masked_value a.addr m n ≡ number (take n (drop m (bits a.addr.bytes)))
reads a m n = get_masked_value-number a.addr m n a.in_range

same_length :
    (a b : CheckedAddr)
    → a.addr.family ≡ b.addr.family
    → length (bits a.addr.bytes) ≡ length (bits b.addr.bytes)
same_length a b family =
    length-bits a.addr.bytes
    ∙ a.whole
    ∙ ap family_max_bits family
    ∙ sym (length-bits b.addr.bytes ∙ b.whole)

-- Addresses of the right size are sliced: their first `m + n` bits, as `getMaskedValue` reads them,
-- are their first `m` bits and the next `n`.
pub CheckedAddr-IsSliced : IsSliced CheckedAddr
CheckedAddr-IsSliced = record {
  start = λ a b. reads a 0 0 ∙ sym (reads b 0 0);
  split = λ a b m n family fits.
      rw (reads, reads, reads, reads, reads, reads)
        (split_digits (bits a.addr.bytes) (bits b.addr.bytes) (same_length a b family)
          (bits-AreBits a.addr.bytes) (bits-AreBits b.addr.bytes) m n);
}
