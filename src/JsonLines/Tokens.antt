-- ===== src/JsonLines/Tokens.antt =====
-- LineTokenizer: its tokens and the lines of the whole text.
use rbmq_demo.Common.{
  ℕ, zero, suc, ◌+◌, ◌-◌, ◌≤◌, Option, none, some, List, [], ◌∷◌, ◌++◌, length, take, drop, last?,
  nat_beq, Bool, true, false, if◌then◌else◌, ◌≡◌, refl, sym, ap, ap₂, ◌∙◌, append_assoc, append-nil,
  Bool-cases, inl, inr, arith, length-drop,
}
use rbmq_demo.JsonLines.{
  Text, newline, index_of, shift, is_carriage_return, clean_line, TokenObject, tokenize_loop,
  tokenize_at, transform, flush, tokenize_from, tokenize,
}

abbrev token : Text → TokenObject
token line = record { content = clean_line line }

-- The text without the rest after its last newline, read unit by unit: `line` is what stands since
-- the last newline. The result is the rest and the lines before it.
unfoldable pub scan : Text → Text → Text × List TokenObject
scan line [] = (line, [])
scan line (c ∷ cs) =
    let (rest, lines) = scan [] cs in
    let longer = scan (line ++ c ∷ []) cs in
    if nat_beq c newline then (rest, record { content = clean_line line } ∷ lines) else longer

-- The tokens of a scan, with that of the rest.
abbrev pub finish : Text × List TokenObject → List TokenObject
finish (rest, lines) = lines ++ flush rest

-- A line without a carriage return (13) at its end.
unfoldable pub without_return : Text → Text
without_return [] = []
without_return (c ∷ []) = if nat_beq c 13 then [] else c ∷ []
without_return (c ∷ d ∷ cs) = c ∷ without_return (d ∷ cs)

-- The line at the end of a text counts if it is not empty.
abbrev pub last_line : Text → List TokenObject
unfolding without_return
last_line [] = []
last_line (c ∷ cs) = record { content = without_return (c ∷ cs) } ∷ []

-- The lines of a text, each up to a newline (10), where `line` is what stands since the last one.
unfoldable pub lines_from : Text → Text → List TokenObject
unfolding without_return
lines_from line [] = last_line line
lines_from line (c ∷ cs) =
    let next = lines_from [] cs in
    let longer = lines_from (line ++ c ∷ []) cs in
    if nat_beq c 10 then record { content = without_return line } ∷ next else longer

abbrev pub lines_of : Text → List TokenObject
unfolding lines_from
lines_of text = lines_from [] text

clean_line-without_return : (line : Text) → clean_line line ≡ without_return line
unfolding clean_line without_return
clean_line-without_return [] = refl
clean_line-without_return (c ∷ []) = elim (Bool-cases (nat_beq c 13)) [
  | inl e ↦ rw e refl
  | inr e ↦ rw e refl
]
clean_line-without_return (c ∷ d ∷ cs) =
    longer (is_carriage_return (last? (d ∷ cs))) ∙ ap (◌∷◌ c) (clean_line-without_return (d ∷ cs))
  where
    longer :
        (b : Bool)
        → (if b then take (length (c ∷ d ∷ cs) - 1) (c ∷ d ∷ cs) else c ∷ d ∷ cs)
          ≡ c ∷ (if b then take (length (d ∷ cs) - 1) (d ∷ cs) else d ∷ cs)
    longer true =
        let size : length (c ∷ d ∷ cs) - 1 ≡ suc (length (d ∷ cs) - 1) = omega arith in
        ap (λ n. take n (c ∷ d ∷ cs)) size
    longer false = refl

flush-last_line : (line : Text) → flush line ≡ last_line line
unfolding flush without_return
flush-last_line [] = refl
flush-last_line (c ∷ cs) =
    ap (λ l. record { content = l } ∷ []) (clean_line-without_return (c ∷ cs))

finish-lines_from : (text line : Text) → finish (scan line text) ≡ lines_from line text
unfolding scan lines_from
finish-lines_from [] line = flush-last_line line
finish-lines_from (c ∷ cs) line = elim (Bool-cases (nat_beq c newline)) [
  | inl e ↦ rw e (
      ap₂ (λ l ts. record { content = l } ∷ ts) (clean_line-without_return line)
        (finish-lines_from cs []))
  | inr e ↦ rw e (finish-lines_from cs (line ++ c ∷ []))
]

abbrev pub after : List TokenObject → Text × List TokenObject → Text × List TokenObject
after before (rest, lines) = (rest, before ++ lines)

scan-append :
    (xs ys line : Text) → scan line (xs ++ ys) ≡ after (scan line xs).1 (scan (scan line xs).0 ys)
unfolding scan
scan-append [] ys line = refl
scan-append (c ∷ cs) ys line = elim (Bool-cases (nat_beq c newline)) [
  | inl e ↦
      rw e (ap (λ (r : Text × List TokenObject). (r.0, token line ∷ r.1)) (scan-append cs ys []))
  | inr e ↦ rw e (scan-append cs ys (line ++ c ∷ []))
]

-- What the scan gives, told by where the first newline stands.
abbrev at_index : Text → Text → Option ℕ → Text × List TokenObject
at_index xs line none = (line ++ xs, [])
at_index xs line (some i) = after (token (line ++ take i xs) ∷ []) (scan [] (drop (i + 1) xs))

drop_suc : (c : ℕ) (cs : Text) (i : ℕ) → drop (i + 1) (c ∷ cs) ≡ drop i cs
drop_suc c cs i = let k : i + 1 ≡ suc i = omega arith in ap (λ n. drop n (c ∷ cs)) k

at_index-shift :
    (c : ℕ) (cs line : Text) (o : Option ℕ)
    → at_index (c ∷ cs) line (shift o) ≡ at_index cs (line ++ c ∷ []) o
at_index-shift c cs line none = ap (λ l. (l, [])) (sym (append_assoc line (c ∷ []) cs))
at_index-shift c cs line (some i) =
    let suc_i : suc i ≡ i + 1 = omega arith in
    ap₂ (λ l rest. after (token l ∷ []) (scan [] rest))
      (sym (append_assoc line (c ∷ []) (take i cs)))
      (drop_suc c cs (suc i) ∙ ap (λ n. drop n cs) suc_i)

scan-index_of : (xs line : Text) → scan line xs ≡ at_index xs line (index_of xs)
unfolding scan index_of
scan-index_of [] line = ap (λ l. (l, [])) (sym (append-nil line))
scan-index_of (c ∷ cs) line = elim (Bool-cases (nat_beq c newline)) [
  | inl e ↦ rw e (ap (λ l. after (token l ∷ []) (scan [] cs)) (sym (append-nil line)))
  | inr e ↦ rw e (scan-index_of cs (line ++ c ∷ []) ∙ sym (at_index-shift c cs line (index_of cs)))
]

tokenize_at-at_index :
    (again : Text → Text × List TokenObject) (fuel : ℕ) (buffer : Text) (o : Option ℕ)
    → ((text : Text) → length text ≤ fuel → again text ≡ scan [] text)
    → length buffer ≤ suc fuel
    → tokenize_at again buffer o ≡ at_index buffer [] o
tokenize_at-at_index again fuel buffer none ih h = refl
tokenize_at-at_index again fuel buffer (some i) ih h =
    ap (after (token (take i buffer) ∷ []))
      (ih (drop (i + 1) buffer) (omega (arith, length-drop (i + 1) buffer)))

-- The loop ends with the rest of the scan, whatever the fuel from the length on.
pub tokenize_loop-scan :
    (fuel : ℕ) (buffer : Text) → length buffer ≤ fuel → tokenize_loop fuel buffer ≡ scan [] buffer
unfolding tokenize_loop scan
tokenize_loop-scan zero [] h = refl
tokenize_loop-scan zero (c ∷ cs) h = absurd (omega arith)
tokenize_loop-scan (suc fuel) buffer h =
    tokenize_at-at_index (tokenize_loop fuel) fuel buffer (index_of buffer)
      (tokenize_loop-scan fuel) h
    ∙ sym (scan-index_of buffer [])

abbrev IsRest : Text → Type 0
IsRest line = scan [] line ≡ (line, [])

scan-IsRest : (xs line : Text) → IsRest line → IsRest (scan line xs).0
unfolding scan
scan-IsRest [] line h = h
scan-IsRest (c ∷ cs) line h = elim (Bool-cases (nat_beq c newline)) [
  | inl e ↦ rw e (scan-IsRest cs [] refl)
  | inr e ↦
      let longer : IsRest (line ++ c ∷ []) =
        scan-append line (c ∷ []) []
        ∙ ap (λ (r : Text × List TokenObject). after r.1 (scan r.0 (c ∷ []))) h
        ∙ rw e refl in
      rw e (scan-IsRest cs (line ++ c ∷ []) longer)
]

transform-scan : (buffer chunk : Text) → IsRest buffer → transform buffer chunk ≡ scan buffer chunk
unfolding transform
transform-scan buffer chunk h =
    tokenize_loop-scan (length (buffer ++ chunk)) (buffer ++ chunk) (omega arith)
    ∙ scan-append buffer chunk []
    ∙ ap (λ (r : Text × List TokenObject). after r.1 (scan r.0 chunk)) h

abbrev pub join : List Text → Text
join [] = []
join (chunk ∷ chunks) = chunk ++ join chunks

tokenize_from-scan :
    (chunks : List Text) (buffer : Text)
    → IsRest buffer
    → tokenize_from buffer chunks ≡ finish (scan buffer (join chunks))
unfolding tokenize_from scan
tokenize_from-scan [] buffer h = refl
tokenize_from-scan (chunk ∷ chunks) buffer h =
    ap (λ (r : Text × List TokenObject). r.1 ++ tokenize_from r.0 chunks)
      (transform-scan buffer chunk h)
    ∙ ap (λ tokens. (scan buffer chunk).1 ++ tokens)
        (tokenize_from-scan chunks (scan buffer chunk).0 (scan-IsRest chunk buffer h))
    ∙ sym (append_assoc (scan buffer chunk).1 _ _)
    ∙ ap finish (sym (scan-append chunk (join chunks) buffer))

-- The tokens are those of a scan of the whole text.
pub tokenize-finish : (chunks : List Text) → tokenize chunks ≡ finish (scan [] (join chunks))
unfolding tokenize scan
tokenize-finish chunks = tokenize_from-scan chunks [] refl

-- The tokens are the lines of the whole text, each without a carriage return at its end, however
-- the text is cut into chunks; the last line counts even without a newline, unless it is empty.
pub tokenize-lines_of : (chunks : List Text) → tokenize chunks ≡ lines_of (join chunks)
unfolding lines_of
tokenize-lines_of chunks = tokenize-finish chunks ∙ finish-lines_from (join chunks) []
