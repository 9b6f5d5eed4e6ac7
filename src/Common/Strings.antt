-- ===== src/Common/Strings.antt =====
-- What the program uses of Go's strings, unicode/utf8 and strconv, over the bytes of a string.
use Prim.Native.Nat.{ℕ, zero, suc, ◌+◌, ◌-◌, ◌*◌}
use mathlib.Core.Bool.{Bool, true, false, ◌&&◌, ◌||◌}
use mathlib.Core.Option.{Option, none, some}
use mathlib.Core.List.{[], ◌∷◌, ◌++◌, reverse, reverse-append, reverse-reverse}
use mathlib.Core.Path.{◌≡◌, refl}
use native.Mathlib.Omega.{arith}
use qdt_test.Common.Tests.{Text, leb, ◌==◌, if◌then◌else◌}

abbrev pub between : ℕ → ℕ → ℕ → Bool
between lo hi c = leb lo c && leb c hi

abbrev pub is_digit : ℕ → Bool
is_digit c = between b'0' b'9' c

-- `unicode.IsSpace` below 0x80.
abbrev is_space : ℕ → Bool
is_space c = between 0x09 0x0d c || c == 0x20

-- U+0085 and U+00A0; U+1680, U+2000 to U+200A, U+2028, U+2029, U+202F, U+205F and U+3000.
abbrev is_space_2 : ℕ → ℕ → Bool
is_space_2 c d = c == 0xc2 && (d == 0x85 || d == 0xa0)

abbrev is_space_3 : ℕ → ℕ → ℕ → Bool
is_space_3 c d e =
    (c == 0xe1 && (d == 0x9a && e == 0x80))
    || ((c == 0xe2
          && ((d == 0x80 && (between 0x80 0x8a e || (e == 0xa8 || (e == 0xa9 || e == 0xaf))))
              || (d == 0x81 && e == 0x9f)))
        || (c == 0xe3 && (d == 0x80 && e == 0x80)))

-- The bytes of the white space with which a text begins, or ends where it is given backwards.
space_len : Bool → Text → ℕ
space_len back [] = 0
space_len back (c ∷ []) = if is_space c then 1 else 0
space_len back (c ∷ d ∷ []) =
    if is_space c then 1 else if (if back then is_space_2 d c else is_space_2 c d) then 2 else 0
space_len back (c ∷ d ∷ e ∷ _) =
    if is_space c
    then 1
    else if (if back then is_space_2 d c else is_space_2 c d)
    then 2
    else if (if back then is_space_3 e d c else is_space_3 c d e)
    then 3
    else 0

-- The first argument counts the bytes still to drop of the white space that was met.
trim_from : Bool → ℕ → Text → Text
unfolding space_len
trim_from back k [] = []
trim_from back (suc k) (c ∷ s) = trim_from back k s
trim_from back zero (c ∷ s) = elim (space_len back (c ∷ s)) [
  | zero ↦ c ∷ s
  | suc k ↦ trim_from back k s
]

-- `strings.TrimSpace`.
unfoldable pub trim_space : Text → Text
unfolding trim_from
trim_space s = reverse (trim_from true 0 (reverse (trim_from false 0 s)))

-- The size of the first rune; a byte that begins no rune stands for one.
abbrev is_cont : ℕ → Bool
is_cont c = between 0x80 0xbf c

-- The range of the second byte after the first.
abbrev second_lo : ℕ → ℕ
second_lo c = if c == 0xe0 then 0xa0 else if c == 0xf0 then 0x90 else 0x80

abbrev second_hi : ℕ → ℕ
second_hi c = if c == 0xed then 0x9f else if c == 0xf4 then 0x8f else 0xbf

abbrev opens : ℕ → ℕ → Bool
opens c d = between (second_lo c) (second_hi c) d

rune_size : Text → ℕ
rune_size [] = 0
rune_size (c ∷ []) = 1
rune_size (c ∷ d ∷ []) = if between 0xc2 0xdf c && is_cont d then 2 else 1
rune_size (c ∷ d ∷ e ∷ []) =
    if between 0xc2 0xdf c && is_cont d
    then 2
    else if between 0xe0 0xef c && (opens c d && is_cont e)
    then 3
    else 1
rune_size (c ∷ d ∷ e ∷ f ∷ _) =
    if between 0xc2 0xdf c && is_cont d
    then 2
    else if between 0xe0 0xef c && (opens c d && is_cont e)
    then 3
    else if between 0xf0 0xf4 c && (opens c d && (is_cont e && is_cont f))
    then 4
    else 1

count_from : ℕ → Text → ℕ
unfolding rune_size
count_from k [] = 0
count_from (suc k) (c ∷ s) = count_from k s
count_from zero (c ∷ s) = suc (count_from (rune_size (c ∷ s) - 1) s)

-- `utf8.RuneCountInString`.
unfoldable pub rune_count : Text → ℕ
unfolding count_from
rune_count s = count_from 0 s

-- `strings.CutPrefix`.
abbrev pub cut_prefix : Text → Text → Option Text
cut_prefix [] s = some s
cut_prefix (p ∷ ps) [] = none
cut_prefix (p ∷ ps) (c ∷ s) = if p == c then cut_prefix ps s else none

pub cut_prefix_sound : (p s t : Text) → cut_prefix p s ≡ some t → s ≡ p ++ t
cut_prefix_sound [] s t h = ground arith
cut_prefix_sound (p ∷ ps) [] t h = absurd (cc h)
cut_prefix_sound (p ∷ ps) (c ∷ s) t h = ground (arith, cut_prefix_sound ps s t)

abbrev pub contains_byte : ℕ → Text → Bool
contains_byte b [] = false
contains_byte b (c ∷ s) = c == b || contains_byte b s

-- The digits of a decimal number, the value of what stands before them given.
unfoldable pub parse_digits : ℕ → Text → Option ℕ
parse_digits acc [] = some acc
parse_digits acc (c ∷ s) =
    let rest = parse_digits (acc * 10 + (c - b'0')) s in if is_digit c then rest else none

-- A quotation mark is no white space, and begins or ends none.
trim_from-quote : (back : Bool) (s : Text) → trim_from back 0 (b'"' ∷ s) ≡ b'"' ∷ s
unfolding trim_from
trim_from-quote true [] = refl
trim_from-quote true (c ∷ []) = ground arith
trim_from-quote true (c ∷ d ∷ s) = ground arith
trim_from-quote false [] = refl
trim_from-quote false (c ∷ []) = ground arith
trim_from-quote false (c ∷ d ∷ s) = ground arith

pub trim_space-quoted : (s : Text) → trim_space (b'"' ∷ s ++ b'"' ∷ []) ≡ b'"' ∷ s ++ b'"' ∷ []
unfolding trim_space
trim_space-quoted s =
    let backwards : reverse (b'"' ∷ s ++ b'"' ∷ []) ≡ b'"' ∷ reverse (b'"' ∷ s) =
      reverse-append (b'"' ∷ s) (b'"' ∷ []) in
    rw
      (
        trim_from-quote false (s ++ b'"' ∷ []),
        backwards,
        trim_from-quote true (reverse (b'"' ∷ s)),
        ← backwards,
      )
      (reverse-reverse (b'"' ∷ s ++ b'"' ∷ []))
