-- ===== src/Tests/JsonLines.antt =====
-- LineTokenizer and JSONLineDecoder of web/apis/globalping.ts on concrete chunks.
use rbmq_demo.Common.{
  ◌+◌, ◌≡◌, none, ◌≡◌, refl, List, [], ◌∷◌, Option, some, none, Bool, true, false, nat_beq,
  if◌then◌else◌,
}
use rbmq_demo.JsonLines.{
  tokenize_loop, index_of, Text, index_of, clean_line, flush, tokenize, decode_lines,
}
use rbmq_demo.JsonLines.Ends.{tokenize_loop-ends}
use rbmq_demo.JsonLines.Tokens.{lines_of, join, tokenize-lines_of}
use rbmq_demo.JsonLines.Objects.{as_token}

-- "1\r", "\n", "23\n\n4"
abbrev cut : List Text
cut = (49 ∷ 13 ∷ []) ∷ (10 ∷ []) ∷ (50 ∷ 51 ∷ 10 ∷ 10 ∷ 52 ∷ []) ∷ []

tokenize_runs :
    tokenize cut
    ≡ as_token (49 ∷ []) ∷ as_token (50 ∷ 51 ∷ []) ∷ as_token [] ∷ as_token (52 ∷ []) ∷ []
unfolding tokenize index_of clean_line flush
tokenize_runs = refl

tokenize-lines_of_example : tokenize cut ≡ lines_of (join cut)
tokenize-lines_of_example = tokenize-lines_of cut

-- "1\r\n2\r": the last line has no newline, and loses its carriage return as well.
returned_runs :
    tokenize ((49 ∷ 13 ∷ 10 ∷ []) ∷ (50 ∷ 13 ∷ []) ∷ [])
    ≡ as_token (49 ∷ []) ∷ as_token (50 ∷ []) ∷ []
unfolding tokenize index_of clean_line flush
returned_runs = refl

-- A stand-in for JSON: the two texts "1" and "0".
abbrev json_parse : Text → Option Bool
json_parse (c ∷ []) = if nat_beq c 49 then some true else if nat_beq c 48 then some false else none
json_parse _ = none

-- A line that is no JSON is skipped.
decode_lines_runs :
    decode_lines json_parse (tokenize ((49 ∷ 10 ∷ 50 ∷ []) ∷ (10 ∷ 48 ∷ []) ∷ []))
    ≡ true ∷ false ∷ []
unfolding decode_lines tokenize index_of clean_line flush
decode_lines_runs = refl

tokenize_loop-ends_example :
    (index_of (tokenize_loop 4 (49 ∷ 10 ∷ 50 ∷ 51 ∷ [])).0 ≡ none)
    × (tokenize_loop (4 + 3) (49 ∷ 10 ∷ 50 ∷ 51 ∷ []) ≡ tokenize_loop 4 (49 ∷ 10 ∷ 50 ∷ 51 ∷ []))
tokenize_loop-ends_example = tokenize_loop-ends (49 ∷ 10 ∷ 50 ∷ 51 ∷ []) 3
