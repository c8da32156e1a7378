-- ===== src/JsonLines/Objects.antt =====
-- JSONLineDecoder after LineTokenizer: objects that are written one a line are read back.
use rbmq_demo.Common.{
  ℕ, ◌-◌, Option, some, List, [], ◌∷◌, ◌++◌, map, length, take, last?, Bool, true, false, nat_beq,
  ◌≡◌, refl, sym, ap, ◌∙◌, append_assoc, append-nil, arith, length-append, All, All-append,
}
use rbmq_demo.JsonLines.{
  Text, newline, carriage_return, is_carriage_return, clean_line, TokenObject, flush, tokenize,
  decode_lines,
}
use rbmq_demo.JsonLines.Tokens.{scan, after, finish, join, tokenize-finish}

last?-append : (xs : Text) (c : ℕ) → last? (xs ++ c ∷ []) ≡ some c
last?-append [] c = refl
last?-append (x ∷ []) c = refl
last?-append (x ∷ y ∷ ys) c = last?-append (y ∷ ys) c

-- A text that a line of JSON can be: without a newline, and without a carriage return at its end.
pub record IsLine (text : Text) : Type 0 where
  pub one_line : All (λ c. nat_beq c newline ≡ false) text
  pub no_return : is_carriage_return (last? text) ≡ false

clean_line_plain : (text : Text) → is_carriage_return (last? text) ≡ false → clean_line text ≡ text
unfolding clean_line
clean_line_plain text h = rw h refl

take-append : (xs ys : Text) → take (length xs) (xs ++ ys) ≡ xs
take-append [] ys = refl
take-append (x ∷ xs) ys = ap (λ r. x ∷ r) (take-append xs ys)

clean_line_return : (text : Text) → clean_line (text ++ carriage_return ∷ []) ≡ text
unfolding clean_line
clean_line_return text =
    let n : length (text ++ carriage_return ∷ []) - 1 ≡ length text =
      omega (arith, length-append text (carriage_return ∷ [])) in
    rw (last?-append text carriage_return)
      (ap (λ k. take k (text ++ carriage_return ∷ [])) n ∙ take-append text (carriage_return ∷ []))

-- A line and its newline are scanned at once.
scan_line :
    (text more line : Text)
    → All (λ c. nat_beq c newline ≡ false) text
    → scan line (text ++ newline ∷ more)
      ≡ after (record { content = clean_line (line ++ text) } ∷ []) (scan [] more)
unfolding scan
scan_line [] more line h =
    ap (λ l. after (record { content = clean_line l } ∷ []) (scan [] more)) (sym (append-nil line))
scan_line (c ∷ cs) more line (p, h) = rw p (
    scan_line cs more (line ++ c ∷ []) h
    ∙ ap (λ l. after (record { content = clean_line l } ∷ []) (scan [] more))
        (append_assoc line (c ∷ []) cs))

-- How the lines end: by "\n" or by "\r\n".
abbrev pub line_end : Bool → Text
line_end true = carriage_return ∷ newline ∷ []
line_end false = newline ∷ []

-- The texts, one a line.
abbrev pub written_lines : Bool → List Text → Text
written_lines crlf [] = []
written_lines crlf (text ∷ texts) = text ++ (line_end crlf ++ written_lines crlf texts)

abbrev pub as_token : Text → TokenObject
as_token text = record { content = text }

-- The scan of a line and its end gives the line as a token.
scan_written :
    (crlf : Bool) (text more : Text)
    → IsLine text
    → scan [] (text ++ (line_end crlf ++ more)) ≡ after (as_token text ∷ []) (scan [] more)
scan_written false text more h =
    scan_line text more [] h.one_line
    ∙ ap (λ l. after (as_token l ∷ []) (scan [] more)) (clean_line_plain text h.no_return)
scan_written true text more h =
    ap (scan []) (sym (append_assoc text (carriage_return ∷ []) (newline ∷ more)))
    ∙ scan_line (text ++ carriage_return ∷ []) more []
        (All-append _ text (carriage_return ∷ []) h.one_line (refl, tt))
    ∙ ap (λ l. after (as_token l ∷ []) (scan [] more)) (clean_line_return text)

scan_unended :
    (text line : Text)
    → All (λ c. nat_beq c newline ≡ false) text
    → scan line text ≡ (line ++ text, [])
unfolding scan
scan_unended [] line h = ap (λ l. (l, [])) (sym (append-nil line))
scan_unended (c ∷ cs) line (p, h) =
    rw p (scan_unended cs (line ++ c ∷ []) h ∙ ap (λ l. (l, [])) (append_assoc line (c ∷ []) cs))

scan-written_lines :
    (crlf : Bool) (texts : List Text) (last : Text)
    → All IsLine texts
    → IsLine last
    → scan [] (written_lines crlf texts ++ last) ≡ (last, map as_token texts)
scan-written_lines crlf [] last h k = scan_unended last [] k.one_line
scan-written_lines crlf (text ∷ texts) last (p, h) k =
    let more = written_lines crlf texts in
    ap (scan []) (
      append_assoc text (line_end crlf ++ more) last
      ∙ ap (λ r. text ++ r) (append_assoc (line_end crlf) more last))
    ∙ scan_written crlf text (more ++ last) p
    ∙ ap (after (as_token text ∷ [])) (scan-written_lines crlf texts last h k)

-- If the chunks together are texts without line ends, each with "\n" after it or each with "\r\n",
-- and then a last text without a line end, then the tokens are these texts, and the last one unless
-- it is empty.
pub tokenize-written_lines :
    (chunks : List Text) (crlf : Bool) (texts : List Text) (last : Text)
    → All IsLine texts
    → IsLine last
    → join chunks ≡ written_lines crlf texts ++ last
    → tokenize chunks ≡ map as_token texts ++ flush last
tokenize-written_lines chunks crlf texts last h k e =
    tokenize-finish chunks
    ∙ ap (λ text. finish (scan [] text)) e
    ∙ ap finish (scan-written_lines crlf texts last h k)

module _ {J : Type 0} (json_parse : Text → Option J) (write : J → Text)
    (reads_back : (object : J) → json_parse (write object) ≡ some object)
    (writes_a_line : (object : J) → IsLine (write object)) where
  decode_lines-write :
      (objects : List J) → decode_lines json_parse (map as_token (map write objects)) ≡ objects
  unfolding decode_lines
  decode_lines-write [] = refl
  decode_lines-write (object ∷ objects) =
      rw (reads_back object) (ap (λ r. object ∷ r) (decode_lines-write objects))

  map-write-IsLine : (objects : List J) → All IsLine (map write objects)
  map-write-IsLine [] = tt
  map-write-IsLine (object ∷ objects) = (writes_a_line object, map-write-IsLine objects)

  -- If objects are written as JSON without line ends, which `JSON.parse` reads back, one a line,
  -- then the decoder enqueues these objects, however the text is cut into chunks.
  pub decode_lines-tokenize :
      (chunks : List Text) (crlf : Bool) (objects : List J)
      → join chunks ≡ written_lines crlf (map write objects)
      → decode_lines json_parse (tokenize chunks) ≡ objects
  unfolding flush
  decode_lines-tokenize chunks crlf objects e =
      let texts = map write objects in
      ap (decode_lines json_parse) (
        tokenize-written_lines chunks crlf texts [] (map-write-IsLine objects)
          (record { one_line = tt; no_return = refl })
          (e ∙ sym (append-nil (written_lines crlf texts)))
        ∙ append-nil (map as_token texts))
      ∙ decode_lines-write objects
