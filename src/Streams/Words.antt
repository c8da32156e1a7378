-- ===== src/Streams/Words.antt =====
-- streams.ts: the words of a buffer, and the bytes after them.
use rbmq_demo.Common.{
  ℕ, zero, suc, ◌+◌, ◌-◌, ◌*◌, ◌/◌, ◌%◌, ◌<◌, some, List, [], ◌∷◌, ◌++◌, length, drop, ◌≡◌, refl,
  ap, ◌∙◌, arith,
}
use rbmq_demo.Common.Options.{◌>>=◌}
use rbmq_demo.Streams.{big_endian, first_word, get_words}

-- The words whose bytes are all there.
unfoldable pub words : List ℕ → List ℕ
words (a ∷ b ∷ c ∷ d ∷ rest) = big_endian a b c d ∷ words rest
words _ = []

-- The bytes after them.
unfoldable pub leftover : List ℕ → List ℕ
leftover (a ∷ b ∷ c ∷ d ∷ rest) = leftover rest
leftover bytes = bytes

pub length-leftover : (bytes : List ℕ) → length (leftover bytes) ≡ length bytes % 4
unfolding leftover
length-leftover [] = refl
length-leftover (a ∷ []) = refl
length-leftover (a ∷ b ∷ []) = refl
length-leftover (a ∷ b ∷ c ∷ []) = refl
length-leftover (a ∷ b ∷ c ∷ d ∷ rest) = omega (arith, length-leftover rest)

pub words-append : (xs ys : List ℕ) → words (xs ++ ys) ≡ words xs ++ words (leftover xs ++ ys)
unfolding words leftover
words-append [] ys = refl
words-append (a ∷ []) ys = refl
words-append (a ∷ b ∷ []) ys = refl
words-append (a ∷ b ∷ c ∷ []) ys = refl
words-append (a ∷ b ∷ c ∷ d ∷ rest) ys = ap (◌∷◌ (big_endian a b c d)) (words-append rest ys)

pub leftover-append : (xs ys : List ℕ) → leftover (xs ++ ys) ≡ leftover (leftover xs ++ ys)
unfolding leftover
leftover-append [] ys = refl
leftover-append (a ∷ []) ys = refl
leftover-append (a ∷ b ∷ []) ys = refl
leftover-append (a ∷ b ∷ c ∷ []) ys = refl
leftover-append (a ∷ b ∷ c ∷ d ∷ rest) ys = leftover-append rest ys

drop-plus_four : (n : ℕ) (xs : List ℕ) → drop (n + 4) xs ≡ drop 4 (drop n xs)
drop-plus_four zero xs = refl
drop-plus_four (suc n) [] = let k : suc n + 4 ≡ suc (n + 4) = omega arith in ap (λ m. drop m []) k
drop-plus_four (suc n) (x ∷ xs) =
    let k : suc n + 4 ≡ suc (n + 4) = omega arith in
    ap (λ m. drop m (x ∷ xs)) k ∙ drop-plus_four n xs

pub get_words-words :
    (buffer rest : List ℕ) (i n : ℕ)
    → drop (i * 4) buffer ≡ rest
    → n ≡ length rest / 4
    → get_words buffer i n ≡ some (words rest)
unfolding get_words words
get_words-words buffer [] i n e h = ap (get_words buffer i) h
get_words-words buffer (a ∷ []) i n e h = ap (get_words buffer i) h
get_words-words buffer (a ∷ b ∷ []) i n e h = ap (get_words buffer i) h
get_words-words buffer (a ∷ b ∷ c ∷ []) i n e h = ap (get_words buffer i) h
get_words-words buffer (a ∷ b ∷ c ∷ d ∷ rest) i n e h =
    let more : n ≡ suc (length rest / 4) = omega arith in
    let at : (i + 1) * 4 ≡ i * 4 + 4 = omega arith in
    let after : drop ((i + 1) * 4) buffer ≡ rest =
      ap (λ m. drop m buffer) at ∙ drop-plus_four (i * 4) buffer ∙ ap (drop 4) e in
    ap (get_words buffer i) more
    ∙ ap
        (λ bytes. first_word bytes >>= λ word.
          get_words buffer (i + 1) (length rest / 4) >>= λ words. some (word ∷ words))
        e
    ∙ ap (λ o. o >>= λ words. some (big_endian a b c d ∷ words))
        (get_words-words buffer rest (i + 1) (length rest / 4) after refl)

pub drop-leftover : (bytes : List ℕ) → drop (length bytes - length bytes % 4) bytes ≡ leftover bytes
unfolding leftover
drop-leftover [] = refl
drop-leftover (a ∷ []) = refl
drop-leftover (a ∷ b ∷ []) = refl
drop-leftover (a ∷ b ∷ c ∷ []) = refl
drop-leftover (a ∷ b ∷ c ∷ d ∷ rest) =
    let n = length rest in
    let k : suc (suc (suc (suc n))) - suc (suc (suc (suc n))) % 4
        ≡ suc (suc (suc (suc (n - n % 4)))) =
      omega arith in
    ap (λ m. drop m (a ∷ b ∷ c ∷ d ∷ rest)) k ∙ drop-leftover rest

pub words_short : (bytes : List ℕ) → length bytes < 4 → words bytes ≡ []
unfolding words
words_short [] h = refl
words_short (a ∷ []) h = refl
words_short (a ∷ b ∷ []) h = refl
words_short (a ∷ b ∷ c ∷ []) h = refl
words_short (a ∷ b ∷ c ∷ d ∷ rest) h = absurd (omega arith)

pub leftover_short : (bytes : List ℕ) → length bytes < 4 → leftover bytes ≡ bytes
unfolding leftover
leftover_short [] h = refl
leftover_short (a ∷ []) h = refl
leftover_short (a ∷ b ∷ []) h = refl
leftover_short (a ∷ b ∷ c ∷ []) h = refl
leftover_short (a ∷ b ∷ c ∷ d ∷ rest) h = absurd (omega arith)
