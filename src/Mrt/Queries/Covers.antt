-- ===== src/Mrt/Queries/Covers.antt =====
-- web/apis/mrtProviders.ts: the entries that the query for a range of addresses keeps.
use rbmq_demo.Common.{
  ℕ, zero, suc, ◌≤◌, ◌<◌, ◌≡◌, ◌≢◌, ◌↔◌, refl, sym, ap, ◌∙◌, String, List, [], ◌∷◌, Bool, true,
  false, not, ◌==◌, ==_self, string_key, leb, length, take, filter, Bool-cases, leb→le, inl, inr,
  both_true, arith,
}
use rbmq_demo.Mrt.{MrtEntryDataEvent}
use rbmq_demo.Mrt.Queries.{
  IpaddrRanges, ip_or_cidr, resolved, prefix_of, matches, covers_cidr, filter_data,
  filter_by_ip_or_cidr,
}

-- The list with the bit at an index turned.
abbrev flip : ℕ → List Bool → List Bool
flip n [] = []
flip zero (b ∷ bs) = not b ∷ bs
flip (suc n) (b ∷ bs) = b ∷ flip n bs

length-flip : (n : ℕ) (bs : List Bool) → length (flip n bs) ≡ length bs
length-flip zero [] = refl
length-flip (suc n) [] = refl
length-flip zero (b ∷ bs) = refl
length-flip (suc n) (b ∷ bs) = ap suc (length-flip n bs)

take-flip : (n : ℕ) (bs : List Bool) → take n (flip n bs) ≡ take n bs
take-flip zero bs = refl
take-flip (suc n) [] = refl
take-flip (suc n) (b ∷ bs) = ap (◌∷◌ b) (take-flip n bs)

take-flip_apart :
    (n m : ℕ) (bs : List Bool) → n < m → m ≤ length bs → take m (flip n bs) ≢ take m bs
take-flip_apart n zero bs h k e = absurd (omega arith)
take-flip_apart n (suc m) [] h k e = absurd (omega arith)
take-flip_apart zero (suc m) (true ∷ bs) h k e = cc
take-flip_apart zero (suc m) (false ∷ bs) h k e = cc
take-flip_apart (suc n) (suc m) (b ∷ bs) h k e =
    take-flip_apart n m bs (omega arith) (omega arith) cc

take-take {ℓ} : {A : Type ℓ} (n m : ℕ) (xs : List A) → n ≤ m → take n (take m xs) ≡ take n xs
take-take zero m xs h = refl
take-take (suc n) zero xs h = absurd (omega arith)
take-take (suc n) (suc m) [] h = refl
take-take (suc n) (suc m) (x ∷ xs) h = ap (◌∷◌ x) (take-take n m xs (omega arith))

module _ {A : Type 0} (js : IpaddrRanges A) (bits : A → List Bool) where
  -- Addresses of one kind are all the texts of bits of one length; an address is in a range of its
  -- kind if it starts with the same bits; a range that is read is no longer than its address.
  pub record IsIpaddr : Type 0 where
    pub length_bits : (a b : A) → js.kind a ≡ js.kind b → length (bits a) ≡ length (bits b)
    pub in_range_iff :
        (a r : A) (n : ℕ)
        → js.kind r ≡ js.kind a
        → (js.in_range a (r, n) ≡ true) ↔ (take n (bits a) ≡ take n (bits r))
    pub address_with :
        (a : A) (bs : List Bool)
        → length bs ≡ length (bits a)
        → (b : A) × (js.kind b ≡ js.kind a) × (bits b ≡ bs)
    pub range_fits :
        (t : String)
        → js.is_valid_cidr t ≡ true
        → (js.parse_cidr t).1 ≤ length (bits (js.parse_cidr t).0)

  abbrev pub IsIn : A → A × ℕ → Type 0
  IsIn a range = (js.kind range.0 ≡ js.kind a) × (js.in_range a range ≡ true)

module _ {A : Type 0} {js : IpaddrRanges A} {bits : A → List Bool} (laws : IsIpaddr js bits) where
  matches_iff : (a : A) (range : A × ℕ) → (matches js a range ≡ true) ↔ IsIn js bits a range
  matches_iff a range = (
    λ h.
        let both : ((js.kind range.0 == js.kind a) ≡ true) × (js.in_range a range ≡ true) =
          both_true (js.kind range.0 == js.kind a) (js.in_range a range) h in
        ((string_key.same_iff (js.kind range.0) (js.kind a)).0 both.0, both.1),
    λ (k, h). rw (k, ==_self (js.kind a), h) refl,
  )

  -- An address starts with the same bits as a range that it is in.
  take-IsIn : (a r : A) (n : ℕ) → IsIn js bits a (r, n) → take n (bits a) ≡ take n (bits r)
  take-IsIn a r n (k, h) = (laws.in_range_iff a r n k).0 h

  IsIn-wider :
      (a s r : A) (m n : ℕ)
      → n ≤ m
      → IsIn js bits s (r, n)
      → IsIn js bits a (s, m)
      → IsIn js bits a (r, n)
  IsIn-wider a s r m n le inner outer =
      let same : js.kind r ≡ js.kind a = inner.0 ∙ outer.0 in
      let firsts : take n (bits a) ≡ take n (bits s) =
        sym (take-take n m (bits a) le)
        ∙ ap (take n) (take-IsIn a s m outer)
        ∙ take-take n m (bits s) le in
      (same, (laws.in_range_iff a r n same).1 (firsts ∙ take-IsIn s r n inner))

  -- A range that holds a whole other range has no more bits fixed than it.
  IsIn-le :
      (s r : A) (m n : ℕ)
      → n ≤ length (bits r)
      → ((a : A) → IsIn js bits a (s, m) → IsIn js bits a (r, n))
      → n ≤ m
  IsIn-le s r m n fits holds =
      let at_s : IsIn js bits s (r, n) = holds s (refl, (laws.in_range_iff s s m refl).1 refl) in
      let b = laws.address_with s (flip m (bits s)) (length-flip m (bits s)) in
      let near : IsIn js bits b.0 (s, m) = (
        sym b.1,
        (laws.in_range_iff b.0 s m (sym b.1)).1 (ap (take m) b.2 ∙ take-flip m (bits s)),
      ) in
      let equal : take n (flip m (bits s)) ≡ take n (bits s) =
        ap (take n) (sym b.2) ∙ take-IsIn b.0 r n (holds b.0 near) ∙ sym (take-IsIn s r n at_s) in
      elim (Bool-cases (leb n m)) [
        | inl e ↦ leb→le n m e
        | inr e ↦
            let long : n ≤ length (bits s) = omega (arith, fits, laws.length_bits r s at_s.0) in
            absurd (take-flip_apart m n (bits s) (ground arith) long equal)
      ]

  -- What the query keeps of the entries at hand.
  abbrev pub Covers : String → MrtEntryDataEvent → Type 0
  Covers target e =
      (js.is_valid_cidr (prefix_of js e) ≡ true)
      × ((a : A)
          → IsIn js bits a (js.parse_cidr target)
          → IsIn js bits a (js.parse_cidr (prefix_of js e)))

  covers_cidr_iff :
      (target : String) (e : MrtEntryDataEvent)
      → (covers_cidr js (js.parse_cidr target) e ≡ true) ↔ Covers target e
  covers_cidr_iff target e =
      let of_entry : A × ℕ = js.parse_cidr (prefix_of js e) in
      let range : A × ℕ = js.parse_cidr target in
      (
        λ h.
            let both = both_true _ _ h in
            let inner = both_true _ _ both.1 in
            (
              both.0,
              λ a outer.
                  IsIn-wider a range.0 of_entry.0 range.1 of_entry.1 (leb→le _ _ inner.0)
                    ((matches_iff range.0 of_entry).0 inner.1) outer,
            ),
        λ (valid, holds).
            let le : of_entry.1 ≤ range.1 =
              IsIn-le range.0 of_entry.0 range.1 of_entry.1 (laws.range_fits (prefix_of js e) valid)
                holds in
            let here : IsIn js bits range.0 of_entry =
              holds range.0 (refl, (laws.in_range_iff range.0 range.0 range.1 refl).1 refl) in
            rw (valid, (matches_iff range.0 of_entry).1 here) (ground arith),
      )

  -- If the package reads and compares ranges as documented, the query for a range of addresses
  -- returns, in their order, exactly those entries whose prefix is a range that holds every address
  -- of it.
  pub filter_data-Covers :
      (all_data : List MrtEntryDataEvent) (target : String)
      → js.is_valid target ≡ false
      → js.is_valid_cidr target ≡ true
      → (kept : MrtEntryDataEvent → Bool) × (filter_data js all_data ip_or_cidr target
          ≡ resolved (filter kept all_data))
        × ((e : MrtEntryDataEvent) → (kept e ≡ true) ↔ Covers target e)
  unfolding filter_data filter_by_ip_or_cidr
  filter_data-Covers all_data target no_ip valid =
      (covers_cidr js (js.parse_cidr target), rw (no_ip, valid) refl, covers_cidr_iff target)
