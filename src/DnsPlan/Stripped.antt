-- ===== src/DnsPlan/Stripped.antt =====
-- web/apis/types.ts: the address in the text of a resolver.
use rbmq_demo.Common.{
  ℕ, ◌≡◌, refl, ap, sym, ◌∙◌, none, some, [], ◌∷◌, ◌++◌, append_assoc, true, false, arith,
  both_true,
}
use rbmq_demo.Common.Codes.{Codes, is_empty, is_white_space, trim, trim_start, trim_end}
use rbmq_demo.Trace.{or_else}
use rbmq_demo.DnsPlan.{
  without_prefix, tls_prefix, is_digit, all_digits, without_port, without_close, without_open,
  strip_resolver,
}

is_empty-append : (xs : Codes) (c : ℕ) (s : Codes) → is_empty (xs ++ c ∷ s) ≡ false
is_empty-append [] c s = refl
is_empty-append (x ∷ xs) c s = refl

digit_shown : (c : ℕ) → is_digit c ≡ true → is_white_space c ≡ false
digit_shown c h = ground arith

trim_end-step : (c : ℕ) (s : Codes) → is_empty s ≡ false → trim_end s ≡ s → trim_end (c ∷ s) ≡ c ∷ s
unfolding trim_end
trim_end-step c s h e = rw (e, h) (ground arith)

trim_end-digits : (d : ℕ) (ds : Codes) → all_digits (d ∷ ds) ≡ true → trim_end (d ∷ ds) ≡ d ∷ ds
unfolding trim_end all_digits
trim_end-digits d [] h = rw (digit_shown d (both_true (is_digit d) true h).0) refl
trim_end-digits d (e ∷ ds) h =
    trim_end-step d (e ∷ ds) refl
      (trim_end-digits e ds (both_true (is_digit d) (all_digits (e ∷ ds)) h).1)

all_digits-port : (d : ℕ) (ds xs : Codes) → all_digits (xs ++ b':' ∷ d ∷ ds) ≡ false
unfolding all_digits
all_digits-port d ds [] = refl
all_digits-port d ds (x ∷ xs) = rw (all_digits-port d ds xs) (ground arith)

-- A port is a digit and more digits.
module _ (d : ℕ) (ds : Codes) (digits : all_digits (d ∷ ds) ≡ true) where
  trim_end-port : (xs : Codes) → trim_end (xs ++ b':' ∷ d ∷ ds) ≡ xs ++ b':' ∷ d ∷ ds
  trim_end-port [] = trim_end-step b':' (d ∷ ds) refl (trim_end-digits d ds digits)
  trim_end-port (x ∷ xs) =
      trim_end-step x (xs ++ b':' ∷ d ∷ ds) (is_empty-append xs b':' (d ∷ ds)) (trim_end-port xs)

  without_port-port : (xs : Codes) → without_port (xs ++ b':' ∷ d ∷ ds) ≡ xs
  unfolding without_port
  without_port-port [] = rw digits refl
  without_port-port (x ∷ xs) = rw (all_digits-port d ds xs, without_port-port xs) (ground arith)

without_close_last : (xs : Codes) → without_close (xs ++ b']' ∷ []) ≡ xs
unfolding without_close
without_close_last [] = refl
without_close_last (x ∷ xs) =
    rw (is_empty-append xs b']' []) (ground (arith, without_close_last xs))

without_prefix-append : (p s : Codes) → without_prefix p (p ++ s) ≡ some s
unfolding without_prefix
without_prefix-append [] s = refl
without_prefix-append (c ∷ p) s = rw (without_prefix-append p s) (ground arith)

abbrev bare : Codes → Codes
bare s = without_open (without_close (without_port s))

bare-brackets :
    (addr : Codes) (d : ℕ) (ds : Codes)
    → all_digits (d ∷ ds) ≡ true
    → bare ((b'[' ∷ addr ++ b']' ∷ []) ++ b':' ∷ d ∷ ds) ≡ addr
bare-brackets addr d ds h =
    ap (λ s. without_open (without_close s)) (without_port-port d ds h (b'[' ∷ addr ++ b']' ∷ []))
    ∙ ap without_open (without_close_last (b'[' ∷ addr))

-- A text that starts with no white space and ends with a port is not trimmed.
strip_resolver-trimmed :
    (c : ℕ) (xs : Codes) (d : ℕ) (ds : Codes)
    → all_digits (d ∷ ds) ≡ true
    → is_white_space c ≡ false
    → strip_resolver (c ∷ xs ++ b':' ∷ d ∷ ds)
      ≡ bare
          (or_else (without_prefix tls_prefix (c ∷ xs ++ b':' ∷ d ∷ ds)) (c ∷ xs ++ b':' ∷ d ∷ ds))
unfolding strip_resolver trim trim_start
strip_resolver-trimmed c xs d ds h shown = rw (shown, trim_end-port d ds h (c ∷ xs)) refl

-- An address in brackets with a port is the address, whatever the address is, with and without
-- the prefix of TLS.
pub strip_resolver_lem :
    (addr : Codes) (d : ℕ) (ds : Codes)
    → all_digits (d ∷ ds) ≡ true
    → let text = b'[' ∷ addr ++ b']' ∷ b':' ∷ d ∷ ds in
      (strip_resolver text ≡ addr) × (strip_resolver (tls_prefix ++ text) ≡ addr)
strip_resolver_lem addr d ds h =
    let whole : b'[' ∷ addr ++ b']' ∷ b':' ∷ d ∷ ds ≡ (b'[' ∷ addr ++ b']' ∷ []) ++ b':' ∷ d ∷ ds =
      sym (append_assoc (b'[' ∷ addr) (b']' ∷ []) (b':' ∷ d ∷ ds)) in
    let plain : without_prefix tls_prefix ((b'[' ∷ addr ++ b']' ∷ []) ++ b':' ∷ d ∷ ds) ≡ none =
      unfold without_prefix in refl in
    (
      ap strip_resolver whole
          ∙ strip_resolver-trimmed b'[' (addr ++ b']' ∷ []) d ds h refl
          ∙ ap (λ o. bare (or_else o ((b'[' ∷ addr ++ b']' ∷ []) ++ b':' ∷ d ∷ ds))) plain
          ∙ bare-brackets addr d ds h,
      ap (λ t. strip_resolver (tls_prefix ++ t)) whole
          ∙ strip_resolver-trimmed b't'
              (b'l' ∷ b's' ∷ b':' ∷ b'/' ∷ b'/' ∷ b'[' ∷ addr ++ b']' ∷ []) d ds h refl
          ∙ ap (λ o. bare (or_else o (tls_prefix ++ (b'[' ∷ addr ++ b']' ∷ []) ++ b':' ∷ d ∷ ds)))
              (without_prefix-append tls_prefix ((b'[' ∷ addr ++ b']' ∷ []) ++ b':' ∷ d ∷ ds))
          ∙ bare-brackets addr d ds h,
    )

-- A text without brackets that ends with a port is what stands before the port, if it starts with
-- no white space and without the prefix of TLS. The last group of an address of IPv6, if it has
-- digits only, is such a port.
pub strip_resolver_bare :
    (c : ℕ) (xs : Codes) (d : ℕ) (ds : Codes)
    → all_digits (d ∷ ds) ≡ true
    → is_white_space c ≡ false
    → without_prefix tls_prefix (c ∷ xs ++ b':' ∷ d ∷ ds) ≡ none
    → without_open (without_close (c ∷ xs)) ≡ c ∷ xs
    → strip_resolver (c ∷ xs ++ b':' ∷ d ∷ ds) ≡ c ∷ xs
strip_resolver_bare c xs d ds h shown prefix brackets =
    strip_resolver-trimmed c xs d ds h shown
    ∙ ap (λ o. bare (or_else o (c ∷ xs ++ b':' ∷ d ∷ ds))) prefix
    ∙ ap (λ s. without_open (without_close s)) (without_port-port d ds h (c ∷ xs))
    ∙ brackets
