-- ===== src/Router/Longest/Level.antt =====
-- router.ts: one level of the walk, when the routes are those that the walk can meet.
use rbmq_demo.Common.{
  ℕ, ◌+◌, ◌-◌, ◌≤◌, ◌<◌, Bool, ◌&&◌, true, false, List, [], ◌∷◌, filter, nat_beq, nat_beq_iff, ◌≡◌,
  ◌≢◌, refl, sym, subst, ap, ◌∙◌, inl, inr, arith, All, All-filter, All-impl, Bool-cases,
}
use rbmq_demo.Common.Filters.{
  filter-congr, filter-filter, filter-impl, filter_nil, All-zip, largest, largest-ge, largest_mono,
  largest-filter_le, all_largest, all_largest_ne, all_largest_const,
}
use rbmq_demo.Router.{AddrLike, get_family, get_masked_value, get_max_bits, Route}
use rbmq_demo.Router.Levels.{below_or, stops_at, goes_into}
use rbmq_demo.Router.Longest.{
  IsSliced, IsBoundary, IsBoundary-le, covers, longest_prefix_match, IsCandidate,
}

agrees_shorter :
    {A : Type 0} ⦃addr : AddrLike A⦄ (sliced : IsSliced A) (a b : A) (m len : ℕ)
    → get_family a ≡ get_family b
    → m ≤ len
    → len ≤ get_max_bits a
    → get_masked_value a 0 len ≡ get_masked_value b 0 len
    → get_masked_value a 0 m ≡ get_masked_value b 0 m
agrees_shorter sliced a b m len family le fits h =
    let whole : m + (len - m) ≡ len = omega arith in
    ((sliced.split a b m (len - m) family (omega arith)).0 (rw whole h)).0

module _ {A V : Type 0} ⦃addr : AddrLike A⦄ (sliced : IsSliced A) (a : A) (segment : ℕ)
    (segments : List ℕ) (eaten : ℕ) (pos : 0 < segment) where
  abbrev pub goes : Route A V → Bool
  goes = goes_into eaten segment (get_masked_value a eaten segment)

  goes_len : (r : Route A V) → goes r ≡ true → eaten + segment ≤ r.prefix_length
  goes_len r h = ground arith

  goes_reached :
      (r : Route A V)
      → IsCandidate a (segment ∷ segments) eaten r
      → goes r ≡ true
      → IsBoundary segments (eaten + segment) r.prefix_length
  goes_reached r c h = reached_after c.reached
    where
      reached_after :
          IsBoundary (segment ∷ segments) eaten r.prefix_length
          → IsBoundary segments (eaten + segment) r.prefix_length
      reached_after (inl e) = absurd (ground arith)
      reached_after (inr b) = b

  pub goes-IsCandidate :
      (r : Route A V)
      → IsCandidate a (segment ∷ segments) eaten r
      → goes r ≡ true
      → IsCandidate a segments (eaten + segment) r
  goes-IsCandidate r c h = record {
    same_family = c.same_family;
    fits = c.fits;
    reached = goes_reached r c h;
    agrees =
        (sliced.split r.network_addr a eaten segment c.same_family (omega (arith, goes_len r h))).1
          (c.agrees, ground arith);
  }

  -- A covering route either stops here or goes on along the address.
  covers-goes :
      (r : Route A V)
      → IsCandidate a (segment ∷ segments) eaten r
      → covers a r ≡ true
      → stops_at eaten segment r ≡ false
      → goes r ≡ true
  covers-goes r c h s =
      let deep : eaten + segment ≤ r.prefix_length = ground arith in
      let same =
        agrees_shorter sliced r.network_addr a (eaten + segment) r.prefix_length c.same_family deep
          c.fits ((nat_beq_iff _ _).0 h) in
      let next =
        ((sliced.split r.network_addr a eaten segment c.same_family (omega arith)).0 same).1 in
      ground (arith, next)

  stops_len :
      (r : Route A V)
      → IsCandidate a (segment ∷ segments) eaten r
      → stops_at eaten segment r ≡ true
      → r.prefix_length ≡ eaten
  stops_len r c h = at_boundary c.reached
    where
      at_boundary : IsBoundary (segment ∷ segments) eaten r.prefix_length → r.prefix_length ≡ eaten
      at_boundary (inl e) = e
      at_boundary (inr b) =
          absurd (ground (arith, IsBoundary-le segments (eaten + segment) r.prefix_length b))

  stops_covers :
      (r : Route A V)
      → IsCandidate a (segment ∷ segments) eaten r
      → stops_at eaten segment r ≡ true
      → covers a r ≡ true
  stops_covers r c h = (nat_beq_iff _ _).1 (
      subst (λ n. get_masked_value r.network_addr 0 n ≡ get_masked_value a 0 n)
        (sym (stops_len r c h)) c.agrees)

  abbrev pub Candidates : List (Route A V) → Type 0
  Candidates rs = All (IsCandidate a (segment ∷ segments) eaten) rs

  abbrev covering : Route A V → Bool
  covering r = goes r && covers a r

  covers-eq-stops :
      (r : Route A V)
      → IsCandidate a (segment ∷ segments) eaten r × (covering r ≡ false)
      → covers a r ≡ stops_at eaten segment r
  covers-eq-stops r (c, h) = elim (Bool-cases (stops_at eaten segment r)) [
    | inl s ↦ rw s (stops_covers r c s)
    | inr s ↦ ground (arith, covers-goes r c)
  ]

  -- No covering route goes on: the routes kept here are the answer.
  ends_here :
      (rs : List (Route A V))
      → Candidates rs
      → filter (covers a) (filter goes rs) ≡ []
      → filter (stops_at eaten segment) rs ≡ longest_prefix_match rs a
  unfolding longest_prefix_match
  ends_here rs cs e =
      let none = filter_nil covering rs (sym (filter-filter (covers a) goes rs) ∙ e) in
      let same = filter-congr (covers a) (stops_at eaten segment) rs (
        All-impl covers-eq-stops rs (
          All-zip (IsCandidate a (segment ∷ segments) eaten) (λ r. covering r ≡ false) rs cs
            none)) in
      sym (
        ap (all_largest (λ r. r.prefix_length)) same
        ∙ all_largest_const (λ r. r.prefix_length) eaten (filter (stops_at eaten segment) rs)
            (filter-impl (stops_at eaten segment) rs stops_len cs))

  deep_largest :
      (rs : List (Route A V)) (r : Route A V) (more : List (Route A V))
      → Candidates rs
      → filter (covers a) (filter goes rs) ≡ r ∷ more
      → eaten + segment ≤ largest (λ r. r.prefix_length) (filter (covers a) (filter goes rs))
  deep_largest rs r more cs e =
      let deep =
        All-filter (λ r. eaten + segment ≤ r.prefix_length) (covers a) (filter goes rs)
          (filter-impl goes rs (λ r c h. goes_len r h) cs) in
      subst (λ l. eaten + segment ≤ largest (λ r. r.prefix_length) l) (sym e)
        (largest-ge (λ r. r.prefix_length) (eaten + segment) r more
          (subst (All (λ r. eaten + segment ≤ r.prefix_length)) e deep))

  shallow_len :
      (r : Route A V)
      → IsCandidate a (segment ∷ segments) eaten r
      → covers a r ≡ true
      → covering r ≡ false
      → r.prefix_length ≤ eaten
  shallow_len r c h g = elim (Bool-cases (stops_at eaten segment r)) [
    | inl s ↦ omega (arith, stops_len r c s)
    | inr s ↦ absurd (ground (arith, covers-goes r c h s))
  ]

  same_largest :
      (rs : List (Route A V))
      → Candidates rs
      → eaten + segment ≤ largest (λ r. r.prefix_length) (filter covering rs)
      → largest (λ r. r.prefix_length) (filter covering rs)
        ≡ largest (λ r. r.prefix_length) (filter (covers a) rs)
  same_largest rs cs deep = omega (
    arith,
    largest-filter_le (λ r. r.prefix_length) eaten (covers a) covering rs
        (All-impl shallow_len rs cs),
    largest_mono (λ r. r.prefix_length) covering (covers a) rs
        (All-impl (λ r c. ground arith) rs cs),
  )

  covering_deep :
      (n : ℕ) (r : Route A V)
      → eaten + segment ≤ n
      → IsCandidate a (segment ∷ segments) eaten r
      → (covering r && nat_beq r.prefix_length n) ≡ (covers a r && nat_beq r.prefix_length n)
  covering_deep n r deep c = ground (arith, covers-goes r c)

  -- A covering route goes on: those kept here have shorter prefixes.
  goes_on :
      (rs : List (Route A V)) (r : Route A V) (more : List (Route A V))
      → Candidates rs
      → filter (covers a) (filter goes rs) ≡ r ∷ more
      → longest_prefix_match (filter goes rs) a ≡ longest_prefix_match rs a
  unfolding longest_prefix_match
  goes_on rs r more cs e =
      let twice = filter-filter (covers a) goes rs in
      let deep =
        subst (λ l. eaten + segment ≤ largest (λ r. r.prefix_length) l) twice
          (deep_largest rs r more cs e) in
      let n = largest (λ r. r.prefix_length) (filter covering rs) in
      ap (all_largest (λ r. r.prefix_length)) twice
      ∙ filter-filter (λ r. nat_beq r.prefix_length n) covering rs
      ∙ filter-congr _ _ rs (All-impl (λ r. covering_deep n r deep) rs cs)
      ∙ sym (filter-filter (λ r. nat_beq r.prefix_length n) (covers a) rs)
      ∙ ap (λ m. filter (λ r. nat_beq r.prefix_length m) (filter (covers a) rs))
          (same_largest rs cs deep)

  below_or_ne : (below here : List (Route A V)) → below ≢ [] → below_or below here ≡ below
  below_or_ne [] here h = absurd (h refl)
  below_or_ne (r ∷ rs) here h = refl

  level_by :
      (rs found : List (Route A V))
      → Candidates rs
      → filter (covers a) (filter goes rs) ≡ found
      → below_or (longest_prefix_match (filter goes rs) a) (filter (stops_at eaten segment) rs)
        ≡ longest_prefix_match rs a
  unfolding longest_prefix_match
  level_by rs [] cs e = rw e (ends_here rs cs e)
  level_by rs (r ∷ more) cs e =
      below_or_ne _ _ (rw e (all_largest_ne (λ r. r.prefix_length) r more)) ∙ goes_on rs r more cs e

  pub level_lem :
      (rs : List (Route A V))
      → Candidates rs
      → below_or (longest_prefix_match (filter goes rs) a) (filter (stops_at eaten segment) rs)
        ≡ longest_prefix_match rs a
  level_lem rs cs = level_by rs (filter (covers a) (filter goes rs)) cs refl
