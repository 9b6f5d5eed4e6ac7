-- ===== src/Httpapi/Etag.antt =====
-- internal/httpapi/etag.go: the optimistic-lock token as an entity tag.
pub mod RoundTrip
pub mod Fresh
use qdt_test.Common.{
  ℕ, zero, suc, ◌+◌, ◌/◌, ◌%◌, ◌^◌, Text, codes, text_eq, ltb, ◌==◌, if◌then◌else◌, Option, none,
  some, Bool, true, false, ◌||◌, List, [], ◌∷◌, ◌++◌, Result, ok, err, cut_prefix, contains_byte,
  trim_space, parse_digits,
}

pub data MatchError : Type 0 where
  no_if_match bad_if_match weak_if_match : MatchError

-- `strconv.FormatInt` of a version: the digits of a number, on fuel.
digits : ℕ → ℕ → Text → Text
digits zero n acc = acc
digits (suc fuel) n acc =
    let more = digits fuel (n / 10) ((b'0' + n % 10) ∷ acc) in
    if ltb n 10 then (b'0' + n) ∷ acc else more

-- An int64 has at most nineteen digits.
unfoldable pub format_int : ℕ → Text
unfolding digits
format_int n = digits 20 n []

unfoldable pub format_etag : ℕ → Text
format_etag version = b'"' ∷ format_int version ++ b'"' ∷ []

abbrev pub int64_bound : ℕ
int64_bound = 2 ^ 63

-- `strconv.ParseInt` in base 10: a sign, then digits, within an int64. The flag says that the
-- number is negative.
abbrev within : Bool → ℕ → Option ℕ → Option (Bool × ℕ)
within negative bound none = none
within negative bound (some n) = if ltb n bound then some (negative, n) else none

parse_magnitude : Bool → ℕ → Text → Option (Bool × ℕ)
parse_magnitude negative bound [] = none
parse_magnitude negative bound (c ∷ s) = within negative bound (parse_digits 0 (c ∷ s))

unfoldable pub parse_int : Text → Option (Bool × ℕ)
unfolding parse_magnitude parse_digits
parse_int [] = none
parse_int (c ∷ s) =
    if c == b'+'
    then parse_magnitude false int64_bound s
    else if c == b'-'
    then parse_magnitude true (int64_bound + 1) s
    else parse_magnitude false int64_bound (c ∷ s)

-- The text between two quotation marks, one at each end.
unquote_from : Text → Option Text
unquote_from [] = none
unquote_from (c ∷ []) = if c == b'"' then some [] else none
unquote_from (c ∷ d ∷ s) = elim (unquote_from (d ∷ s)) [ none ↦ none | some t ↦ some (c ∷ t) ]

unquote : Text → Option Text
unfolding unquote_from
unquote [] = none
unquote (c ∷ s) = if c == b'"' then unquote_from s else none

-- A version is positive.
positive : Option (Bool × ℕ) → Result MatchError (ℕ × Bool)
positive none = err bad_if_match
positive (some (negative, v)) = if negative || ltb v 1 then err bad_if_match else ok (v, false)

parse_tag : Text → Result MatchError (ℕ × Bool)
unfolding unquote parse_int positive
parse_tag raw = elim (unquote raw) [
  | none ↦ err bad_if_match
  | some inner ↦ positive (parse_int inner)
]

abbrev has_prefix : Text → Text → Bool
has_prefix p s = elim (cut_prefix p s) [ none ↦ false | some _ ↦ true ]

-- The version, and whether the header is the wildcard.
unfoldable pub parse_if_match : Text → Result MatchError (ℕ × Bool)
unfolding parse_tag
parse_if_match header =
    let raw = trim_space header in
    if text_eq raw []
    then err no_if_match
    else if text_eq raw (codes "*")
    then ok (0, true)
    else if contains_byte b',' raw
    then err bad_if_match
    else if has_prefix (codes "W/") raw
    then err weak_if_match
    else parse_tag raw

-- `strings.Split(raw, ",")`.
abbrev cons_first : ℕ → List Text → List Text
cons_first c [] = (c ∷ []) ∷ []
cons_first c (p ∷ ps) = (c ∷ p) ∷ ps

split_commas : Text → List Text
split_commas [] = [] ∷ []
split_commas (c ∷ s) =
    let rest = split_commas s in if c == b',' then [] ∷ rest else cons_first c rest

-- `strings.TrimPrefix`.
abbrev trim_prefix : Text → Text → Text
trim_prefix p s = elim (cut_prefix p s) [ none ↦ s | some rest ↦ rest ]

any_matches : Text → List Text → Bool
any_matches current [] = false
any_matches current (t ∷ ts) =
    text_eq (trim_prefix (codes "W/") (trim_space t)) current || any_matches current ts

unfoldable pub if_none_match_matches : Text → Text → Bool
unfolding split_commas any_matches
if_none_match_matches header current =
    let raw = trim_space header in
    if text_eq raw []
    then false
    else if text_eq raw (codes "*")
    then true
    else any_matches current (split_commas raw)
