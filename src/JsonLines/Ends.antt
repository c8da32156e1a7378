-- ===== src/JsonLines/Ends.antt =====
-- LineTokenizer: the loop of `transform` ends by its own test.
use rbmq_demo.Common.{
  ℕ, ◌+◌, Option, none, some, List, [], ◌∷◌, ◌++◌, length, nat_beq, ◌≡◌, refl, sym, ap, ◌∙◌, false,
  Bool-cases, inl, inr, arith,
}
use rbmq_demo.JsonLines.{Text, newline, index_of, shift, TokenObject, tokenize_loop}
use rbmq_demo.JsonLines.Tokens.{scan, tokenize_loop-scan}

shift-none : (o : Option ℕ) → shift o ≡ none → o ≡ none
shift-none none h = refl
shift-none (some i) h = ground arith

index_of-cons :
    (c : ℕ) (cs : Text)
    → index_of (c ∷ cs) ≡ none
    → (nat_beq c newline ≡ false) × (index_of cs ≡ none)
unfolding index_of
index_of-cons c cs h = elim (Bool-cases (nat_beq c newline)) [
  | inl e ↦ ground (arith, rw e at h)
  | inr e ↦ (e, shift-none (index_of cs) (rw e at h))
]

index_of-snoc :
    (line : Text) (c : ℕ)
    → index_of line ≡ none
    → nat_beq c newline ≡ false
    → index_of (line ++ c ∷ []) ≡ none
unfolding index_of
index_of-snoc [] c h e = rw e refl
index_of-snoc (d ∷ line) c h e =
    let first = index_of-cons d line h in rw first.0 (ap shift (index_of-snoc line c first.1 e))

index_of-scan : (xs line : Text) → index_of line ≡ none → index_of (scan line xs).0 ≡ none
unfolding scan index_of
index_of-scan [] line h = h
index_of-scan (c ∷ cs) line h = elim (Bool-cases (nat_beq c newline)) [
  | inl e ↦ rw e (index_of-scan cs [] refl)
  | inr e ↦ rw e (index_of-scan cs (line ++ c ∷ []) (index_of-snoc line c h e))
]

-- With the length of the buffer as fuel the loop ends where the source's does, at a buffer without
-- a newline, and more fuel changes nothing.
pub tokenize_loop-ends :
    (buffer : Text) (more : ℕ)
    → (index_of (tokenize_loop (length buffer) buffer).0 ≡ none)
      × (tokenize_loop (length buffer + more) buffer ≡ tokenize_loop (length buffer) buffer)
unfolding index_of
tokenize_loop-ends buffer more =
    let ended : tokenize_loop (length buffer) buffer ≡ scan [] buffer =
      tokenize_loop-scan (length buffer) buffer (omega arith) in
    (
      ap (λ (r : Text × List TokenObject). index_of r.0) ended ∙ index_of-scan buffer [] refl,
      tokenize_loop-scan (length buffer + more) buffer (omega arith) ∙ sym ended,
    )
