-- ===== src/Httpapi/Etag/RoundTrip.antt =====
-- From a version to its entity tag and back.
use qdt_test.Common.{
  ℕ, zero, suc, ◌+◌, ◌/◌, ◌%◌, ◌^◌, ◌≤◌, ◌<◌, Text, text_dec, ltb, ◌≡◌, refl, sym, subst, ap, ◌∙◌,
  inl, inr, Bool-cases, some, true, false, [], ◌∷◌, ◌++◌, ok, arith, parse_digits, is_digit,
  contains_byte, trim_space-quoted,
}
use qdt_test.Httpapi.Etag.{
  digits, format_int, format_etag, parse_int, parse_if_match, int64_bound, unquote_from, parse_tag,
  positive, unquote,
}

-- Reading the digits of a number in front of a text, and reading on from the number.
parse-digits :
    (fuel n : ℕ) (rest : Text)
    → n < 10 ^ fuel
    → parse_digits 0 (digits fuel n rest) ≡ parse_digits n rest
unfolding parse_digits digits
parse-digits zero n rest h = let e : n ≡ 0 = omega arith in rw e
parse-digits (suc fuel) n rest h =
    ground (arith, parse-digits fuel (n / 10) ((b'0' + n % 10) ∷ rest))

contains-digits :
    (fuel n : ℕ) (rest : Text) → contains_byte b',' (digits fuel n rest) ≡ contains_byte b',' rest
unfolding digits
contains-digits zero n rest = refl
contains-digits (suc fuel) n rest =
    ground (arith, contains-digits fuel (n / 10) ((b'0' + n % 10) ∷ rest))

-- The text of a number begins with a digit.
digits-head :
    (fuel n : ℕ) (c : ℕ) (rest : Text)
    → is_digit c ≡ true
    → (d : ℕ) × (s : Text) × (digits fuel n (c ∷ rest) ≡ d ∷ s) × (is_digit d ≡ true)
unfolding digits
digits-head zero n c rest h = (c, rest, refl, h)
digits-head (suc fuel) n c rest h = elim (Bool-cases (ltb n 10)) [
  | inl small ↦ rw small (b'0' + n, c ∷ rest, refl, ground arith)
  | inr big ↦ rw big (digits-head fuel (n / 10) (b'0' + n % 10) (c ∷ rest) (ground arith))
]

format_int-head : (n : ℕ) → (d : ℕ) × (s : Text) × (format_int n ≡ d ∷ s) × (is_digit d ≡ true)
unfolding format_int
format_int-head n = elim (Bool-cases (ltb n 10)) [
  | inl small ↦ rw small (b'0' + n, [], refl, ground arith)
  | inr big ↦ rw big (digits-head 19 (n / 10) (b'0' + n % 10) [] (ground arith))
]

pub contains-append : (s : Text) → contains_byte b',' (s ++ b'"' ∷ []) ≡ contains_byte b',' s
contains-append [] = refl
contains-append (c ∷ s) = ground (arith, contains-append s)

unquote_from-append : (s : Text) → unquote_from (s ++ b'"' ∷ []) ≡ some s
unfolding unquote_from
unquote_from-append [] = refl
unquote_from-append (c ∷ []) = refl
unquote_from-append (c ∷ d ∷ s) = rw (unquote_from-append (d ∷ s))

-- The digits of a number spell it.
parse_digits-format_int : (n : ℕ) → n < int64_bound → parse_digits 0 (format_int n) ≡ some n
unfolding format_int parse_digits
parse_digits-format_int n h = parse-digits 20 n [] (omega arith)

pub contains-format_int : (n : ℕ) → contains_byte b',' (format_int n) ≡ false
unfolding format_int
contains-format_int n = contains-digits 20 n []

-- A text that begins with a digit is read without a sign.
parse_int-digits :
    (d n : ℕ) (s : Text)
    → is_digit d ≡ true
    → parse_digits 0 (d ∷ s) ≡ some n
    → n < int64_bound
    → parse_int (d ∷ s) ≡ some (false, n)
unfolding parse_int
parse_int-digits d n s digit e h = ground arith

parse_int-format_int : (n : ℕ) → n < int64_bound → parse_int (format_int n) ≡ some (false, n)
parse_int-format_int n h =
    let (d, s, e, digit) = format_int-head n in
    subst (λ t. parse_int t ≡ some (false, n)) (sym e)
      (parse_int-digits d n s digit
        (subst (λ t. parse_digits 0 t ≡ some n) e (parse_digits-format_int n h)) h)

parse_tag-unquote : (raw s : Text) → unquote raw ≡ some s → parse_tag raw ≡ positive (parse_int s)
unfolding parse_tag
parse_tag-unquote raw s e = rw (parse_tag, e) refl

parse_tag-quoted : (s : Text) → parse_tag (b'"' ∷ s ++ b'"' ∷ []) ≡ positive (parse_int s)
unfolding unquote
parse_tag-quoted s = parse_tag-unquote (b'"' ∷ s ++ b'"' ∷ []) s (unquote_from-append s)

positive-some : (n : ℕ) → 1 ≤ n → positive (some (false, n)) ≡ ok (n, false)
unfolding positive
positive-some n h = ground arith

parse_if_match-quoted :
    (s : Text)
    → contains_byte b',' s ≡ false
    → parse_if_match (b'"' ∷ s ++ b'"' ∷ []) ≡ parse_tag (b'"' ∷ s ++ b'"' ∷ [])
unfolding parse_if_match text_dec
parse_if_match-quoted s h = rw (trim_space-quoted s, contains-append s, h) refl

-- The entity tag of a version is read back as that version, not as the wildcard, for every version
-- from 1 up to the largest int64.
pub parse_if_match-format_etag :
    (n : ℕ) → 1 ≤ n → n < int64_bound → parse_if_match (format_etag n) ≡ ok (n, false)
unfolding format_etag
parse_if_match-format_etag n pos h =
    parse_if_match-quoted (format_int n) (contains-format_int n)
    ∙ parse_tag-quoted (format_int n)
    ∙ ap positive (parse_int-format_int n h)
    ∙ positive-some n pos
