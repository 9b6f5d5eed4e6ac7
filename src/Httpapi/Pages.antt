-- ===== src/Httpapi/Pages.antt =====
-- The query of a page, `parsePagination` of internal/httpapi/admin.go.
pub mod Bounds
use qdt_test.Common.{
  ℕ, Text, ltb, if◌then◌else◌, Option, none, some, Bool, true, false, ◌&&◌, ◌||◌, not, ◌==◌, [],
  ◌∷◌, Result, ok, err, ◌>>=◌,
}
use qdt_test.Httpapi.Etag.{parse_int}
use qdt_test.Httpapi.Reply.{ErrorDetail, validation_error, refused}

abbrev pub default_limit : ℕ
default_limit = 20

abbrev pub max_limit : ℕ
max_limit = 100

abbrev limit_error : Text → ErrorDetail
limit_error raw = record {
  code = validation_error;
  message = "limit must be an integer between 1 and 100.";
  details = refused "limit" raw;
}

abbrev offset_error : Text → ErrorDetail
offset_error raw = record {
  code = validation_error;
  message = "offset must be a non-negative integer.";
  details = refused "offset" raw;
}

-- `strconv.Atoi`, with a flag for a number below zero.
check_limit : Text → Option (Bool × ℕ) → Result ErrorDetail ℕ
check_limit raw none = err (limit_error raw)
check_limit raw (some (negative, n)) =
    if negative || (ltb n 1 || ltb max_limit n) then err (limit_error raw) else ok n

check_offset : Text → Option (Bool × ℕ) → Result ErrorDetail ℕ
check_offset raw none = err (offset_error raw)
check_offset raw (some (negative, n)) =
    if negative && not (n == 0) then err (offset_error raw) else ok n

-- A value that is missing or empty is the default.
parse_limit : Text → Result ErrorDetail ℕ
unfolding check_limit
parse_limit [] = ok default_limit
parse_limit (c ∷ s) = check_limit (c ∷ s) (parse_int (c ∷ s))

parse_offset : Text → Result ErrorDetail ℕ
unfolding check_offset
parse_offset [] = ok 0
parse_offset (c ∷ s) = check_offset (c ∷ s) (parse_int (c ∷ s))

unfoldable pub parse_pagination : Text → Text → Result ErrorDetail (ℕ × ℕ)
unfolding parse_limit parse_offset
parse_pagination raw_limit raw_offset = do
  limit ← parse_limit raw_limit
  offset ← parse_offset raw_offset
  ok (limit, offset)
