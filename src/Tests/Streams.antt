-- ===== src/Tests/Streams.antt =====
-- web/utls/streams.ts on concrete buffers.
use rbmq_demo.Common.{ℕ, ◌≡◌, ◌<◌, refl, [], ◌∷◌, List, map, none, arith}
use rbmq_demo.Streams.{Feedback, array_buffer, running, parse, merge_array_buffers}
use rbmq_demo.Streams.Merge.{concat_bytes}
use rbmq_demo.Streams.Words.{words, leftover}
use rbmq_demo.Streams.Parse.{Keeps, parse_lem}
use rbmq_demo.Streams.RoundTrip.{encode, parse-encode}

abbrev cut : List (List ℕ)
cut = (0 ∷ 0 ∷ []) ∷ (1 ∷ []) ∷ [] ∷ (2 ∷ 255 ∷ 1 ∷ 0 ∷ 9 ∷ 7 ∷ []) ∷ []

parse_runs :
    parse (map array_buffer cut)
    ≡ (running (record { chunks = (7 ∷ []) ∷ []; total_size = 1 }), 258 ∷ 4278255625 ∷ [])
unfolding parse
parse_runs = refl

-- A size below that of the chunks makes `setUint8` throw.
merge_array_buffers_runs : merge_array_buffers cut 8 ≡ none
unfolding merge_array_buffers
merge_array_buffers_runs = refl

parse_lem_example :
    (last : Feedback) × (parse (map array_buffer cut) ≡ (running last, words (concat_bytes cut)))
    × Keeps last (leftover (concat_bytes cut))
    × (last.total_size < 4)
parse_lem_example = parse_lem cut

parse-encode_example :
    (last : Feedback) × (parse (map array_buffer ((0 ∷ 0 ∷ []) ∷ (1 ∷ []) ∷ (2 ∷ []) ∷ []))
      ≡ (running last, 258 ∷ []))
    × (last.total_size ≡ 0)
unfolding encode
parse-encode_example =
    parse-encode ((0 ∷ 0 ∷ []) ∷ (1 ∷ []) ∷ (2 ∷ []) ∷ []) (258 ∷ []) (omega arith, tt) refl
