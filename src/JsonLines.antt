-- ===== src/JsonLines.antt =====
-- web/apis/globalping.ts: the streams LineTokenizer and JSONLineDecoder, which cut the text of a
-- response into lines and parse each.
pub mod Tokens
pub mod Ends
pub mod Objects
use rbmq_demo.Common.{
  ℕ, zero, suc, ◌+◌, ◌-◌, Option, none, some, List, [], ◌∷◌, ◌++◌, length, take, drop, last?, Bool,
  true, false, nat_beq, if◌then◌else◌,
}

-- A text by its UTF-16 code units.
abbrev pub Text : Type 0
Text = List ℕ

abbrev pub newline : ℕ
newline = 10

abbrev pub carriage_return : ℕ
carriage_return = 13

abbrev pub shift : Option ℕ → Option ℕ
shift none = none
shift (some i) = some (suc i)

-- `buffer.indexOf("\n")`, none for -1.
unfoldable pub index_of : Text → Option ℕ
index_of [] = none
index_of (c ∷ cs) = if nat_beq c newline then some 0 else shift (index_of cs)

abbrev pub is_carriage_return : Option ℕ → Bool
is_carriage_return none = false
is_carriage_return (some c) = nat_beq c carriage_return

-- `line.endsWith("\r") ? line.slice(0, -1) : line`
unfoldable pub clean_line : Text → Text
clean_line line = if is_carriage_return (last? line) then take (length line - 1) line else line

-- `TokenObject`
pub record TokenObject : Type 0 where
  pub content : Text

-- A round of the `while` loop of `transform`: the buffer that is left and the tokens, where `again`
-- is the rest of the loop.
abbrev pub tokenize_at :
    (Text → Text × List TokenObject) → Text → Option ℕ → Text × List TokenObject
tokenize_at again buffer none = (buffer, [])
tokenize_at again buffer (some i) =
    let (left, tokens) = again (drop (i + 1) buffer) in
    (left, record { content = clean_line (take i buffer) } ∷ tokens)

-- The loop. A round takes a newline at least from the buffer, so its length is fuel enough.
unfoldable pub tokenize_loop : ℕ → Text → Text × List TokenObject
tokenize_loop zero buffer = (buffer, [])
tokenize_loop (suc fuel) buffer = tokenize_at (tokenize_loop fuel) buffer (index_of buffer)

unfoldable pub transform : Text → Text → Text × List TokenObject
unfolding tokenize_loop
transform buffer chunk = tokenize_loop (length (buffer ++ chunk)) (buffer ++ chunk)

unfoldable pub flush : Text → List TokenObject
flush [] = []
flush (c ∷ cs) = record { content = clean_line (c ∷ cs) } ∷ []

-- The chunks pass through `transform` one by one, then `flush` is called.
unfoldable pub tokenize_from : Text → List Text → List TokenObject
unfolding transform
tokenize_from buffer [] = flush buffer
tokenize_from buffer (chunk ∷ chunks) =
    let (left, tokens) = transform buffer chunk in tokens ++ tokenize_from left chunks

unfoldable pub tokenize : List Text → List TokenObject
unfolding tokenize_from
tokenize chunks = tokenize_from [] chunks

module _ {J : Type 0} (json_parse : Text → Option J) where
  abbrev pub enqueue : Option J → List J → List J
  enqueue none objects = objects
  enqueue (some object) objects = object ∷ objects

  -- JSONLineDecoder, with `JSON.parse` as a parameter that returns none where it throws: a line that
  -- is no JSON is skipped.
  unfoldable pub decode_lines : List TokenObject → List J
  decode_lines [] = []
  decode_lines (token ∷ tokens) = enqueue (json_parse token.content) (decode_lines tokens)
