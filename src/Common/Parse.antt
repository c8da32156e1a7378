-- ===== src/Common/Parse.antt =====
-- `parseInt` of a text of digits, and that it reads back what a template string prints.
use Prim.Native.Char.{Char, code}
use Prim.Native.Nat.{ℕ, zero, suc, ◌+◌, ◌-◌, ◌*◌, ◌/◌, ◌%◌, ◌<◌}
use Prim.Native.String.{String, ◌++◌ as append_text}
use mathlib.Core.Bool.{true, ◌&&◌}
use mathlib.Core.Logic.{inl, inr}
use mathlib.Core.Path.{◌≡◌, refl, sym, ap, ◌∙◌}
use native.Mathlib.Omega.{arith}
use text.Mathlib.TextLemmas.{append-nil, append_assoc, cons-append, nil-append}
use rbmq_demo.Common.Tests.{if◌then◌else◌, leb, ltb, Bool-cases}
use rbmq_demo.Common.Decimal.{decimal, number_text, digit}

-- The digits that the text starts with, after the number `n`.
unfoldable pub parse_digits : ℕ → String → ℕ
parse_digits n String.[] = n
parse_digits n (String.◌∷◌ c s) =
    let rest = parse_digits (n * 10 + (code c - b'0')) s in
    if leb b'0' (code c) && leb (code c) b'9' then rest else n

unfoldable pub parse_int : String → ℕ
unfolding parse_digits
parse_int s = parse_digits 0 s

parse-char :
    (n : ℕ) (c : Char) (t : String)
    → (leb b'0' (code c) && leb (code c) b'9') ≡ true
    → parse_digits n (append_text (String.◌∷◌ c "") t) ≡ parse_digits (n * 10 + (code c - b'0')) t
unfolding parse_digits
parse-char n c t h =
    ap (parse_digits n) (cons-append c "" t)
    ∙ rw h (ap (parse_digits (n * 10 + (code c - b'0'))) (nil-append t))

parse-digit :
    (n d : ℕ) (t : String)
    → d < 10
    → parse_digits n (append_text (digit d) t) ≡ parse_digits (n * 10 + d) t
parse-digit n zero t h = parse-char n "0" t refl
parse-digit n (suc zero) t h = parse-char n "1" t refl
parse-digit n (suc (suc zero)) t h = parse-char n "2" t refl
parse-digit n (suc (suc (suc zero))) t h = parse-char n "3" t refl
parse-digit n (suc (suc (suc (suc zero)))) t h = parse-char n "4" t refl
parse-digit n (suc (suc (suc (suc (suc zero))))) t h = parse-char n "5" t refl
parse-digit n (suc (suc (suc (suc (suc (suc zero)))))) t h = parse-char n "6" t refl
parse-digit n (suc (suc (suc (suc (suc (suc (suc zero))))))) t h = parse-char n "7" t refl
parse-digit n (suc (suc (suc (suc (suc (suc (suc (suc zero)))))))) t h = parse-char n "8" t refl
parse-digit n (suc (suc (suc (suc (suc (suc (suc (suc (suc zero))))))))) t h =
    parse-char n "9" t refl
parse-digit n (suc (suc (suc (suc (suc (suc (suc (suc (suc (suc d)))))))))) t h =
    absurd (omega arith)

parse-decimal :
    (fuel n : ℕ) (t : String)
    → n < fuel
    → parse_digits 0 (append_text (decimal fuel n) t) ≡ parse_digits n t
unfolding decimal
parse-decimal zero n t h = absurd (omega arith)
parse-decimal (suc fuel) n t h = elim (Bool-cases (ltb n 10)) [
  | inl e ↦ rw e (parse-digit 0 n t (ground arith) ∙ ap (λ k. parse_digits k t) (omega arith))
  | inr e ↦ rw e (
      ap (parse_digits 0) (append_assoc (decimal fuel (n / 10)) (digit (n % 10)) t)
      ∙ parse-decimal fuel (n / 10) (append_text (digit (n % 10)) t) (ground arith)
      ∙ parse-digit (n / 10) (n % 10) t (omega arith)
      ∙ ap (λ k. parse_digits k t) (omega arith))
]

pub parse_int-number_text : (n : ℕ) → parse_int (number_text n) ≡ n
unfolding parse_int number_text
parse_int-number_text n =
    ap (parse_digits 0) (sym (append-nil (decimal (suc n) n)))
    ∙ parse-decimal (suc n) n "" (omega arith)
    ∙ unfold parse_digits in refl
