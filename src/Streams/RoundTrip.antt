-- ===== src/Streams/RoundTrip.antt =====
-- streams.ts: words that are sent in network byte order are read back, however the bytes are cut
-- into buffers.
use rbmq_demo.Common.{
  ℕ, ◌/◌, ◌%◌, ◌^◌, ◌<◌, List, [], ◌∷◌, map, ◌≡◌, refl, ap, ap₂, ◌∙◌, All, arith, length,
}
use rbmq_demo.Streams.{array_buffer, Feedback, big_endian, running, parse}
use rbmq_demo.Streams.Merge.{concat_bytes}
use rbmq_demo.Streams.Words.{words, leftover}
use rbmq_demo.Streams.Parse.{parse_lem}

-- The four bytes of each word, the highest first.
unfoldable pub encode : List ℕ → List ℕ
encode [] = []
encode (w ∷ ws) =
    (w / 0x1000000 % 256) ∷ (w / 0x10000 % 256) ∷ (w / 0x100 % 256) ∷ (w % 256) ∷ encode ws

big_endian_digits :
    (w : ℕ)
    → w < 2 ^ 32
    → big_endian (w / 0x1000000 % 256) (w / 0x10000 % 256) (w / 0x100 % 256) (w % 256) ≡ w
big_endian_digits w h = omega arith

words-encode : (ws : List ℕ) → All (λ w. w < 2 ^ 32) ws → words (encode ws) ≡ ws
unfolding words encode
words-encode [] h = refl
words-encode (w ∷ ws) (p, h) = ap₂ (λ v vs. v ∷ vs) (big_endian_digits w p) (words-encode ws h)

leftover-encode : (ws : List ℕ) → leftover (encode ws) ≡ []
unfolding leftover encode
leftover-encode [] = refl
leftover-encode (w ∷ ws) = leftover-encode ws

-- If the buffers together are the encoding of 32-bit words, then those words leave, and no byte
-- stays.
pub parse-encode :
    (chunks : List (List ℕ)) (ws : List ℕ)
    → All (λ w. w < 2 ^ 32) ws
    → concat_bytes chunks ≡ encode ws
    → (last : Feedback) × (parse (map array_buffer chunks) ≡ (running last, ws))
      × (last.total_size ≡ 0)
parse-encode chunks ws h e =
    let (last, run, left, few) = parse_lem chunks in
    (
      last,
      run ∙ ap (λ vs. (running last, vs)) (ap words e ∙ words-encode ws h),
      left.counted ∙ ap (λ bytes. length (leftover bytes)) e ∙ ap length (leftover-encode ws),
    )
