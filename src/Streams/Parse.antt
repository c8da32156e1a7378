-- ===== src/Streams/Parse.antt =====
-- streams.ts: the words that leave the parser depend on the bytes alone, not on the buffers in which
-- they arrive.
use rbmq_demo.Common.{
  ℕ, ◌+◌, ◌/◌, ◌%◌, ◌<◌, some, List, [], ◌∷◌, ◌++◌, map, length, ltb, leb, if◌then◌else◌, ◌≡◌, refl,
  sym, subst, ap, ◌∙◌, append_assoc, append-nil, length-append, arith, Bool-cases, inl, inr,
}
use rbmq_demo.Common.Options.{◌>>=◌}
use rbmq_demo.Streams.{
  Chunk, array_buffer, unknown, Feedback, initial, keep_rest, merge_array_buffers, do_consume,
  consume_merged, Outcome, outcome_of, running, errored, transform, flush, parse_from, parse,
}
use rbmq_demo.Streams.Merge.{concat_bytes, merge_array_buffers_exact}
use rbmq_demo.Streams.Words.{
  words, leftover, length-leftover, words-append, leftover-append, get_words-words, drop-leftover,
  words_short, leftover_short,
}

-- The state keeps these bytes, fewer than a word.
pub record Keeps (st : Feedback) (bytes : List ℕ) : Type 0 where
  pub content : concat_bytes st.chunks ≡ bytes
  pub counted : st.total_size ≡ length bytes

length_zero : (bytes : List ℕ) → length bytes ≡ 0 → bytes ≡ []
length_zero [] h = refl
length_zero (b ∷ bs) h = absurd (omega arith)

keep_rest-Keeps : (merged : List ℕ) → Keeps (keep_rest merged (length merged % 4)) (leftover merged)
keep_rest-Keeps merged = elim (Bool-cases (ltb 0 (length merged % 4))) [
  | inl e ↦ rw e (record {
    content = append-nil _ ∙ drop-leftover merged;
    counted = sym (length-leftover merged);
  })
  | inr e ↦
      let empty : length (leftover merged) ≡ 0 = ground (arith, length-leftover merged) in
      rw e (record { content = sym (length_zero (leftover merged) empty); counted = sym empty })
]

consume_merged_lem :
    (merged : List ℕ)
    → consume_merged merged (length merged)
      ≡ some (keep_rest merged (length merged % 4), words merged)
consume_merged_lem merged =
    ap (λ o. o >>= λ ws. some (keep_rest merged (length merged % 4), ws))
      (get_words-words merged merged 0 (length merged / 4) refl refl)

concat_bytes_snoc :
    (chunks : List (List ℕ)) (bytes : List ℕ)
    → concat_bytes (chunks ++ bytes ∷ []) ≡ concat_bytes chunks ++ bytes
concat_bytes_snoc [] bytes = append-nil bytes
concat_bytes_snoc (c ∷ cs) bytes =
    ap (λ b. c ++ b) (concat_bytes_snoc cs bytes) ∙ sym (append_assoc c (concat_bytes cs) bytes)

do_consume_steps :
    (st : Feedback)
    → do_consume st ≡ (
        if leb 4 st.total_size
        then (merge_array_buffers st.chunks st.total_size >>= λ m. consume_merged m st.total_size)
        else some (st, []))
unfolding do_consume
do_consume_steps st = refl

-- Whatever the buffers, the words of the bytes kept leave, and the bytes after them are kept.
do_consume_lem :
    (st : Feedback) (bytes : List ℕ)
    → Keeps st bytes
    → (next : Feedback) × (do_consume st ≡ some (next, words bytes)) × Keeps next (leftover bytes)
do_consume_lem st bytes k = elim (Bool-cases (leb 4 st.total_size)) [
  | inl e ↦ (
    keep_rest bytes (length bytes % 4),
    do_consume_steps st
        ∙ rw e (
            ap (λ n. merge_array_buffers st.chunks n >>= λ m. consume_merged m n)
              (k.counted ∙ ap length (sym k.content))
            ∙ ap (λ o. o >>= λ m. consume_merged m (length (concat_bytes st.chunks)))
                (merge_array_buffers_exact st.chunks)
            ∙ ap (λ bs. consume_merged bs (length bs)) k.content
            ∙ consume_merged_lem bytes),
    keep_rest-Keeps bytes,
  )
  | inr e ↦
      let short : length bytes < 4 = ground arith in
      (
        st,
        do_consume_steps st ∙ rw e (ap (λ ws. some (st, ws)) (sym (words_short bytes short))),
        subst (Keeps st) (sym (leftover_short bytes short)) k,
      )
]

transform_lem :
    (st : Feedback) (kept bytes : List ℕ)
    → Keeps st kept
    → (next : Feedback) × (transform st (array_buffer bytes)
        ≡ (running next, words (kept ++ bytes)))
      × Keeps next (leftover (kept ++ bytes))
unfolding transform
transform_lem st kept bytes k =
    let fed : Feedback = record {
      chunks = st.chunks ++ bytes ∷ [];
      total_size = st.total_size + length bytes;
    } in
    let more : Keeps fed (kept ++ bytes) = record {
      content = concat_bytes_snoc st.chunks bytes ∙ ap (λ b. b ++ bytes) k.content;
      counted = omega (arith, k.counted, length-append kept bytes);
    } in
    let (next, eq, left) = do_consume_lem fed (kept ++ bytes) more in (next, ap outcome_of eq, left)

leftover_fewer : (bytes : List ℕ) → length (leftover bytes) < 4
leftover_fewer bytes = omega (arith, length-leftover bytes)

-- `ws` leave before what a run gives.
abbrev pub after_words : List ℕ → Outcome × List ℕ → Outcome × List ℕ
after_words ws (last, more) = (last, ws ++ more)

after_words-append :
    (vs ws : List ℕ) (r : Outcome × List ℕ)
    → after_words vs (after_words ws r) ≡ after_words (vs ++ ws) r
after_words-append vs ws (last, more) = ap (λ us. (last, us)) (sym (append_assoc vs ws more))

parse_from_step :
    (st next : Feedback) (chunk : Chunk) (ws : List ℕ) (more : List Chunk)
    → transform st chunk ≡ (running next, ws)
    → parse_from (running st) (chunk ∷ more) ≡ after_words ws (parse_from (running next) more)
unfolding parse_from
parse_from_step st next chunk ws more e =
    ap (λ (o : Outcome × List ℕ). after_words o.1 (parse_from o.0 more)) e

-- From a state that keeps fewer bytes than a word, the words are those of all bytes.
parse_from_lem :
    (chunks : List (List ℕ)) (st : Feedback) (kept : List ℕ) (more : List Chunk)
    → Keeps st kept
    → length kept < 4
    → (last : Feedback) × (parse_from (running st) (map array_buffer chunks ++ more)
        ≡ after_words (words (kept ++ concat_bytes chunks)) (parse_from (running last) more))
      × Keeps last (leftover (kept ++ concat_bytes chunks))
parse_from_lem [] st kept more k short = (
  st,
  ap (λ ws. after_words ws (parse_from (running st) more))
      (sym (words_short kept short) ∙ ap words (sym (append-nil kept))),
  subst (Keeps st) (sym (leftover_short kept short) ∙ ap leftover (sym (append-nil kept))) k,
)
parse_from_lem (c ∷ cs) st kept more k short =
    let all_bytes = kept ++ c in
    let (next, step, kept') = transform_lem st kept c k in
    let (last, rest, left) =
      parse_from_lem cs next (leftover all_bytes) more kept' (leftover_fewer all_bytes) in
    (
      last,
      parse_from_step st next (array_buffer c) (words all_bytes) (map array_buffer cs ++ more) step
          ∙ ap (after_words (words all_bytes)) rest
          ∙ after_words-append (words all_bytes) (words (leftover all_bytes ++ concat_bytes cs)) _
          ∙ ap (λ ws. after_words ws (parse_from (running last) more))
              (sym (words-append all_bytes (concat_bytes cs))
                ∙ ap words (append_assoc kept c (concat_bytes cs))),
      subst (Keeps last)
          (sym (leftover-append all_bytes (concat_bytes cs))
            ∙ ap leftover (append_assoc kept c (concat_bytes cs)))
          left,
    )

-- Buffers never fail: after them the stream runs, the words that left are the big-endian words of
-- all their bytes together, and the state keeps the bytes after those, fewer than four.
pub parse_lem :
    (chunks : List (List ℕ))
    → (last : Feedback) × (parse (map array_buffer chunks)
        ≡ (running last, words (concat_bytes chunks)))
      × Keeps last (leftover (concat_bytes chunks))
      × (last.total_size < 4)
unfolding parse parse_from
parse_lem chunks =
    let (last, run, left) =
      parse_from_lem chunks initial [] [] (record { content = refl; counted = refl })
        (omega arith) in
    (
      last,
      ap (λ cs. parse_from (running initial) cs) (sym (append-nil (map array_buffer chunks)))
          ∙ run
          ∙ ap (λ ws. (running last, ws)) (append-nil (words (concat_bytes chunks))),
      left,
      omega (arith, left.counted, leftover_fewer (concat_bytes chunks)),
    )

-- A chunk that is no ArrayBuffer fails the stream, whatever follows; the words of the buffers
-- before it have left.
pub parse-unknown :
    (before : List (List ℕ)) (after : List Chunk)
    → parse (map array_buffer before ++ unknown ∷ after) ≡ (errored, words (concat_bytes before))
unfolding parse parse_from transform
parse-unknown before after =
    let (last, run, left) =
      parse_from_lem before initial [] (unknown ∷ after) (record { content = refl; counted = refl })
        (omega arith) in
    run ∙ ap (λ ws. (errored, ws)) (append-nil (words (concat_bytes before)))

-- At the end of a stream of buffers, `flush` lets nothing leave: bytes short of a word are dropped.
pub flush-parse :
    (chunks : List (List ℕ))
    → (last : Feedback) × ((parse (map array_buffer chunks)).0 ≡ running last)
      × (flush last ≡ (running last, []))
unfolding flush
flush-parse chunks =
    let (last, run, left, few) = parse_lem chunks in
    (
      last,
      ap (λ (o : Outcome × List ℕ). o.0) run,
      ap outcome_of (do_consume_steps last) ∙ ground arith,
    )
