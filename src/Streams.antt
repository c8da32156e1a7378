-- ===== src/Streams.antt =====
-- web/utls/streams.ts: a stream of buffers read as a stream of 32-bit words.
pub mod Merge
pub mod Words
pub mod Parse
pub mod RoundTrip
use rbmq_demo.Common.{
  ℕ, zero, suc, ◌+◌, ◌-◌, ◌*◌, ◌/◌, ◌%◌, Option, none, some, List, [], ◌∷◌, ◌++◌, length, drop,
  replicate, ltb, leb, if◌then◌else◌,
}
use rbmq_demo.Common.Options.{◌>>=◌}

abbrev pub word_size : ℕ
word_size = 4

-- What the source reads: an ArrayBuffer as its bytes, or any other value.
pub data Chunk : Type 0 where
  array_buffer : List ℕ → Chunk
  unknown : Chunk

-- `feedBackParseRef`
pub record Feedback : Type 0 where
  pub chunks : List (List ℕ)
  pub total_size : ℕ

abbrev pub initial : Feedback
initial = record { chunks = []; total_size = 0 }

-- `dv.setUint8(i, octet)`, which throws out of range.
unfoldable pub set_uint8 : List ℕ → ℕ → ℕ → Option (List ℕ)
set_uint8 [] i octet = none
set_uint8 (b ∷ bs) zero octet = some (octet ∷ bs)
set_uint8 (b ∷ bs) (suc i) octet = set_uint8 bs i octet >>= λ rest. some (b ∷ rest)

-- `u8s.forEach(...)`
unfoldable pub set_octets : List ℕ → ℕ → List ℕ → Option (List ℕ)
unfolding set_uint8
set_octets buffer i [] = some buffer
set_octets buffer i (octet ∷ octets) =
    set_uint8 buffer i octet >>= λ next. set_octets next (i + 1) octets

-- The loop of `mergeArrayBuffers`.
unfoldable pub merge_from : List ℕ → ℕ → List (List ℕ) → Option (List ℕ)
unfolding set_octets
merge_from buffer offset [] = some buffer
merge_from buffer offset (chunk ∷ chunks) =
    set_octets buffer offset chunk >>= λ next. merge_from next (offset + length chunk) chunks

unfoldable pub merge_array_buffers : List (List ℕ) → ℕ → Option (List ℕ)
unfolding merge_from
merge_array_buffers chunks total_size = merge_from (replicate total_size 0) 0 chunks

abbrev pub big_endian : ℕ → ℕ → ℕ → ℕ → ℕ
big_endian a b c d = a * 0x1000000 + b * 0x10000 + c * 0x100 + d

-- `dv.getUint32(0, false)`, which throws out of range.
abbrev pub first_word : List ℕ → Option ℕ
first_word (a ∷ b ∷ c ∷ d ∷ rest) = some (big_endian a b c d)
first_word _ = none

-- The loop over the words, from the one with index `i` on.
unfoldable pub get_words : List ℕ → ℕ → ℕ → Option (List ℕ)
get_words buffer i zero = some []
get_words buffer i (suc n) = first_word (drop (i * word_size) buffer) >>= λ word.
    get_words buffer (i + 1) n >>= λ words. some (word ∷ words)

-- What is kept when the words are read.
abbrev pub keep_rest : List ℕ → ℕ → Feedback
keep_rest merged rest_size =
    if ltb 0 rest_size
    then record { chunks = drop (length merged - rest_size) merged ∷ []; total_size = rest_size }
    else initial

-- What follows the merging of the chunks.
abbrev pub consume_merged : List ℕ → ℕ → Option (Feedback × List ℕ)
consume_merged merged total_size = get_words merged 0 (total_size / word_size) >>= λ words.
    some (keep_rest merged (total_size % word_size), words)

-- `doConsume`: the next state and the words that it enqueues.
unfoldable pub do_consume : Feedback → Option (Feedback × List ℕ)
unfolding merge_array_buffers get_words
do_consume st =
    if leb word_size st.total_size
    then (merge_array_buffers st.chunks st.total_size >>= λ merged.
        consume_merged merged st.total_size)
    else some (st, [])

-- How a call of `transform` ends: in the next state, in `controller.error`, or in an exception.
pub data Outcome : Type 0 where
  running : Feedback → Outcome
  errored : Outcome
  threw : Outcome

abbrev pub outcome_of : Option (Feedback × List ℕ) → Outcome × List ℕ
outcome_of none = (threw, [])
outcome_of (some (st, words)) = (running st, words)

unfoldable pub transform : Feedback → Chunk → Outcome × List ℕ
unfolding do_consume
transform st unknown = (errored, [])
transform st (array_buffer bytes) = outcome_of (
    do_consume
      (record { chunks = st.chunks ++ bytes ∷ []; total_size = st.total_size + length bytes }))

unfoldable pub flush : Feedback → Outcome × List ℕ
unfolding do_consume
flush st = outcome_of (do_consume st)

-- The chunks pass through `transform` one by one; a stream that has failed reads no further.
unfoldable pub parse_from : Outcome → List Chunk → Outcome × List ℕ
unfolding transform
parse_from (running st) (chunk ∷ chunks) =
    let (next, words) = transform st chunk in
    let (last, more) = parse_from next chunks in (last, words ++ more)
parse_from outcome _ = (outcome, [])

unfoldable pub parse : List Chunk → Outcome × List ℕ
unfolding parse_from
parse chunks = parse_from (running initial) chunks
