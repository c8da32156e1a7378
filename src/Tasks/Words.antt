-- ===== src/Tasks/Words.antt =====
-- web/components/TaskCreatorPanel.tsx: the words of a field.
use rbmq_demo.Common.{
  ℕ, suc, ◌≤◌, ◌≡◌, refl, ap, sym, ◌∙◌, some, List, [], ◌∷◌, ◌++◌, append_assoc, append-nil, map,
  false, ◌||◌, nat_beq, length, All, All-impl, subst, Bool-cases, inl, inr, ◌==◌, arith, Key,
  nat_key,
}
use rbmq_demo.Common.Codes.{
  same_codes, same_codes_iff, Codes, codes_key, is_empty, trim, trim_start, trim_end, split, among,
  add_new, dedup,
}
use rbmq_demo.Common.Groups.{foldl}
use rbmq_demo.Tasks.{comma, pieces, clean_words, words_of}

abbrev pub space : ℕ
space = 32

-- A word without a comma and without white space around it.
abbrev pub IsClean : Codes → Type 0
IsClean w = (trim w ≡ w) × (is_empty w ≡ false) × (among comma w ≡ false)

-- Each word after the first behind a comma and a space.
abbrev pub written_rest : List Codes → Codes
written_rest [] = []
written_rest (w ∷ ws) = comma ∷ space ∷ w ++ written_rest ws

abbrev pub written : Codes → List Codes → Codes
written w ws = w ++ written_rest ws

-- `new Set` keeps a list of different members as it is.
module _ {ℓ} {K : Type ℓ} ⦃e : Key K⦄ where
  abbrev pub AreDistinctKeys : List K → Type 0
  AreDistinctKeys [] = Unit
  AreDistinctKeys (k ∷ ks) = (among k ks ≡ false) × AreDistinctKeys ks

  among-append : (k : K) (js ks : List K) → among k (js ++ ks) ≡ (among k js || among k ks)
  among-append k [] ks = refl
  among-append k (j ∷ js) ks = ground (arith, among-append k js ks)

  other_sym : (j k : K) → (j == k) ≡ false → (k == j) ≡ false
  other_sym j k h = elim (Bool-cases (k == j)) [
    | inl same ↦ cc (h, (e.same_iff j k).1 (sym ((e.same_iff k j).0 same)))
    | inr other ↦ other
  ]

  absent_snoc :
      (x : K) (seen ks : List K)
      → among x ks ≡ false
      → All (λ k. among k seen ≡ false) ks
      → All (λ k. among k (seen ++ x ∷ []) ≡ false) ks
  absent_snoc x seen [] h hs = tt
  absent_snoc x seen (k ∷ ks) h (a, hs) =
      let apart : (k == x) ≡ false = ground arith in
      let away : (x == k) ≡ false = other_sym k x apart in
      let rest : among x ks ≡ false = ground arith in
      (among-append k seen (x ∷ []) ∙ rw (a, away) refl, absent_snoc x seen ks rest hs)

  dedup_from :
      (seen ks : List K)
      → AreDistinctKeys ks
      → All (λ k. among k seen ≡ false) ks
      → foldl add_new seen ks ≡ seen ++ ks
  dedup_from seen [] d h = sym (append-nil seen)
  dedup_from seen (k ∷ ks) (a, d) (n, h) =
      ap (λ js. foldl add_new js ks) (kept seen k n)
      ∙ dedup_from (seen ++ k ∷ []) ks d (absent_snoc k seen ks a h)
      ∙ append_assoc seen (k ∷ []) ks
    where
      kept : (seen : List K) (k : K) → among k seen ≡ false → add_new seen k ≡ seen ++ k ∷ []
      kept seen k n = rw n refl

  dedup-distinct : (ks : List K) → AreDistinctKeys ks → dedup ks ≡ ks
  unfolding dedup
  dedup-distinct ks d = dedup_from [] ks d (nothing_seen ks)
    where
      nothing_seen : (ks : List K) → All (λ k. among k [] ≡ false) ks
      nothing_seen [] = tt
      nothing_seen (k ∷ ks) = (refl, nothing_seen ks)

no_comma :
    (c : ℕ) (w : Codes)
    → among comma (c ∷ w) ≡ false
    → (nat_beq c comma ≡ false) × (among comma w ≡ false)
no_comma c w h = (ground arith, ground arith)

-- The pieces between the commas.
split_word :
    (w rest : Codes)
    → among comma w ≡ false
    → split comma (w ++ comma ∷ rest) ≡ w ∷ split comma rest
unfolding split
split_word [] rest h = refl
split_word (c ∷ w) rest h =
    let apart : nat_beq c comma ≡ false = (no_comma c w h).0 in
    rw (apart, split_word w rest (no_comma c w h).1) refl

split_last : (w : Codes) → among comma w ≡ false → split comma w ≡ w ∷ []
unfolding split
split_last [] h = refl
split_last (c ∷ w) h =
    let apart : nat_beq c comma ≡ false = (no_comma c w h).0 in
    rw (apart, split_last w (no_comma c w h).1) refl

abbrev spaced : List Codes → List Codes
spaced ws = map (λ (w : Codes). space ∷ w) ws

split-written :
    (w : Codes) (ws : List Codes)
    → among comma w ≡ false
    → All (λ v. among comma v ≡ false) ws
    → split comma (written w ws) ≡ w ∷ spaced ws
split-written w [] h hs = ap (split comma) (append-nil w) ∙ split_last w h
split-written w (v ∷ vs) h (k, ks) =
    split_word w (space ∷ v ++ written_rest vs) h ∙ ap (◌∷◌ w) (split-written (space ∷ v) vs k ks)

length-trim_start : (s : Codes) → length (trim_start s) ≤ length s
unfolding trim_start
length-trim_start [] = omega arith
length-trim_start (c ∷ s) = ground (arith, length-trim_start s)

length-trim_end : (s : Codes) → length (trim_end s) ≤ length s
unfolding trim_end
length-trim_end [] = omega arith
length-trim_end (c ∷ s) = ground (arith, length-trim_end s)

length-trim : (s : Codes) → length (trim s) ≤ length s
unfolding trim
length-trim s = omega (arith, length-trim_start s, length-trim_end (trim_start s))

trim-space : (w : Codes) → trim (space ∷ w) ≡ trim w
unfolding trim trim_start
trim-space w = refl

-- A clean word starts with no space.
apart_from_spaced : (w v : Codes) → trim w ≡ w → same_codes (space ∷ v) w ≡ false
apart_from_spaced w v h = elim (Bool-cases (same_codes (space ∷ v) w)) [
  | inl same ↦
      let at : space ∷ v ≡ w = (same_codes_iff (space ∷ v) w).0 same in
      let short : length (trim w) ≤ length v =
        subst (λ t. length (trim t) ≤ length v) at
          (subst (λ t. length t ≤ length v) (sym (trim-space v)) (length-trim v)) in
      let size : suc (length v) ≡ length w = ap length at in
      let kept : length (trim w) ≡ length w = ap length h in absurd (omega arith)
  | inr other ↦ other
]

among-spaced : (v : Codes) (ws : List Codes) → among (space ∷ v) (spaced ws) ≡ among v ws
among-spaced v [] = refl
among-spaced v (w ∷ ws) = ap (λ b. same_codes w v || b) (among-spaced v ws)

spaced-distinct : (ws : List Codes) → AreDistinctKeys ws → AreDistinctKeys (spaced ws)
spaced-distinct [] d = tt
spaced-distinct (w ∷ ws) (a, d) = (among-spaced w ws ∙ a, spaced-distinct ws d)

not_spaced : (w : Codes) (ws : List Codes) → trim w ≡ w → among w (spaced ws) ≡ false
not_spaced w [] h = refl
not_spaced w (v ∷ vs) h = rw (apart_from_spaced w v h) (not_spaced w vs h)

clean_words-spaced : (ws : List Codes) → All IsClean ws → clean_words (spaced ws) ≡ ws
unfolding clean_words
clean_words-spaced [] h = refl
clean_words-spaced (w ∷ ws) ((same, full, _), h) =
    let shown : trim (space ∷ w) ≡ w = trim-space w ∙ same in
    rw (shown, full) (ap (◌∷◌ w) (clean_words-spaced ws h))

clean_words-first :
    (w : Codes) (ws : List Codes) → IsClean w → clean_words (w ∷ ws) ≡ w ∷ clean_words ws
unfolding clean_words
clean_words-first w ws (same, full, _) = rw (same, full) refl

-- Words without a comma and without white space around them, written with a comma and a space
-- between two, are read back, if no two of those after the first are equal. The first one may come
-- again: the set holds the pieces before they are trimmed, so it keeps both.
pub words_of-written :
    (w : Codes) (ws : List Codes)
    → IsClean w
    → All IsClean ws
    → AreDistinctKeys ws
    → words_of (some (written w ws)) ≡ w ∷ ws
unfolding words_of pieces
words_of-written w ws c cs d =
    ap (λ ps. clean_words (dedup ps)) (split-written w ws c.2 (All-impl (λ v h. h.2) ws cs))
    ∙ ap clean_words (dedup-distinct (w ∷ spaced ws) (not_spaced w ws c.0, spaced-distinct ws d))
    ∙ clean_words-first w (spaced ws) c
    ∙ ap (◌∷◌ w) (clean_words-spaced ws cs)
