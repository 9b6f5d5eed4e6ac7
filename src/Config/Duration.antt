-- ===== src/Config/Duration.antt =====
-- `time.ParseDuration`, as internal/config/config.go calls it: nanoseconds in an int64. The product of
-- a fraction with its unit is computed in floating point, and is a parameter.
pub mod Bounds
use qdt_test.Common.{
  ℕ, zero, suc, ◌+◌, ◌-◌, ◌*◌, ◌/◌, ◌%◌, ◌^◌, Text, codes, text_eq, ltb, leb, ◌==◌, if◌then◌else◌,
  Option, none, some, Bool, true, false, ◌||◌, not, List, [], ◌∷◌, Result, ok, err, is_digit,
  length,
}

abbrev pub half : ℕ
half = 2 ^ 63

-- `leadingInt`: the value and the rest; `none` is an overflow.
pub leading_int : ℕ → Text → Option (ℕ × Text)
leading_int x [] = some (x, [])
leading_int x (c ∷ s) =
    let y = x * 10 + (c - b'0') in
    let more = leading_int y s in
    if is_digit c then (if ltb (half / 10) x || ltb half y then none else more) else some (x, c ∷ s)

pub record Fraction : Type 0 where
  pub value : ℕ
  pub scale : ℕ
  pub overflow : Bool

-- One digit of `leadingFraction`. After an overflow the digits are read and ignored.
abbrev next_digit : ℕ → Fraction → Fraction
next_digit c f =
    let y = f.value * 10 + (c - b'0') in
    if f.overflow || (ltb ((half - 1) / 10) f.value || ltb half y)
    then record f { overflow = true }
    else record { value = y; scale = f.scale * 10; overflow = false }

pub leading_fraction : Fraction → Text → Fraction × Text
leading_fraction f [] = (f, [])
leading_fraction f (c ∷ s) =
    let more = leading_fraction (next_digit c f) s in if is_digit c then more else (f, c ∷ s)

-- The unit is what stands before the next digit or point.
pub split_unit : Text → Text × Text
split_unit [] = ([], [])
split_unit (c ∷ s) =
    let (u, rest) = split_unit s in if c == b'.' || is_digit c then ([], c ∷ s) else (c ∷ u, rest)

-- `unitMap`. A micro is written with U+00B5 or U+03BC, or by a u.
abbrev pub unit_of : Text → Option ℕ
unit_of u =
    if text_eq u (codes "ns")
    then some 1
    else if text_eq u (codes "us")
        || (text_eq u (0xc2 ∷ 0xb5 ∷ codes "s") || text_eq u (0xce ∷ 0xbc ∷ codes "s"))
    then some 1_000
    else if text_eq u (codes "ms")
    then some 1_000_000
    else if text_eq u (codes "s")
    then some 1_000_000_000
    else if text_eq u (codes "m")
    then some 60_000_000_000
    else if text_eq u (codes "h")
    then some 3_600_000_000_000
    else none

abbrev no_fraction : Fraction
no_fraction = record { value = 0; scale = 1; overflow = false }

-- What follows the whole part: the fraction, the rest, and whether there were digits.
pub fraction_part : Text → Fraction × Text × Bool
unfolding leading_fraction
fraction_part [] = (no_fraction, [], false)
fraction_part (c ∷ s) =
    let (f, rest) = leading_fraction no_fraction s in
    if c == b'.' then (f, rest, not (length rest == length s)) else (no_fraction, c ∷ s, false)

pub data Scan : Type 0 where
  out_of_fuel not_a_duration : Scan
  total : ℕ → Scan

pub data DurationError : Type 0 where
  stuck invalid : DurationError

abbrev before : Text → Option ℕ → Option (ℕ × Text)
before rest none = none
before rest (some n) = some (n, rest)

module _ (product : ℕ → ℕ → ℕ → ℕ) where
  -- A number of units in nanoseconds.
  pub scaled : ℕ → Fraction → ℕ → Option ℕ
  scaled v f unit =
      let whole = v * unit in
      let both = (whole + product f.value unit f.scale) % 2 ^ 64 in
      if ltb (half / unit) v
      then none
      else if f.value == 0
      then some whole
      else if ltb half both
      then none
      else some both

  pub in_unit : ℕ → Fraction → Text → Option ℕ → Option (ℕ × Text)
  unfolding scaled
  in_unit v f rest none = none
  in_unit v f rest (some unit) = before rest (scaled v f unit)

  -- The unit with what precedes it.
  pub with_unit : ℕ → Fraction → Text × Text → Option (ℕ × Text)
  unfolding in_unit
  with_unit v f ([], rest) = none
  with_unit v f (c ∷ u, rest) = in_unit v f rest (unit_of (c ∷ u))

  pub after_whole : Text → ℕ × Text → Option (ℕ × Text)
  unfolding with_unit fraction_part split_unit
  after_whole s (v, s1) =
      let (f, s2, post) = fraction_part s1 in
      if not (length s1 == length s) || post then with_unit v f (split_unit s2) else none

  -- One pass of the loop: a number and its unit.
  pub term : Text → Option (ℕ × Text)
  unfolding after_whole leading_int
  term [] = none
  term (c ∷ s) =
      if c == b'.' || is_digit c
      then elim (leading_int 0 (c ∷ s)) [ none ↦ none | some whole ↦ after_whole (c ∷ s) whole ]
      else none

  pub terms : ℕ → ℕ → Text → Scan
  unfolding term
  terms fuel d [] = total d
  terms zero d (c ∷ s) = out_of_fuel
  terms (suc fuel) d (c ∷ s) = elim (term (c ∷ s)) [
    | none ↦ not_a_duration
    | some (v, rest) ↦
        let more = terms fuel ((d + v) % 2 ^ 64) rest in
        if ltb half ((d + v) % 2 ^ 64) then not_a_duration else more
  ]

  pub signed : Bool → Scan → Result DurationError (Bool × ℕ)
  signed negative out_of_fuel = err stuck
  signed negative not_a_duration = err invalid
  signed true (total d) = ok (true, d)
  signed false (total d) = if ltb (half - 1) d then err invalid else ok (false, d)

  pub magnitude : Bool → Text → Result DurationError (Bool × ℕ)
  unfolding signed terms
  magnitude negative s =
      if text_eq s (codes "0")
      then ok (false, 0)
      else if text_eq s []
      then err invalid
      else signed negative (terms (length s) 0 s)

  -- The duration is negative by the flag.
  unfoldable pub parse_duration : Text → Result DurationError (Bool × ℕ)
  unfolding magnitude
  parse_duration [] = err invalid
  parse_duration (c ∷ s) =
      if c == b'-'
      then magnitude true s
      else if c == b'+'
      then magnitude false s
      else magnitude false (c ∷ s)
