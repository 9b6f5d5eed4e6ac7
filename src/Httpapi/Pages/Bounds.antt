-- ===== src/Httpapi/Pages/Bounds.antt =====
-- What a page may ask for.
use qdt_test.Common.{ℕ, Text, Option, none, some, Bool, [], ◌∷◌, ◌≡◌, ◌≤◌, ok, arith}
use qdt_test.Httpapi.Etag.{parse_int}
use qdt_test.Httpapi.Pages.{check_limit, parse_limit, parse_pagination, max_limit}

check_limit-bounds :
    (raw : Text) (r : Option (Bool × ℕ)) (n : ℕ)
    → check_limit raw r ≡ ok n
    → (1 ≤ n) × (n ≤ max_limit)
unfolding check_limit
check_limit-bounds raw none n h = ground arith
check_limit-bounds raw (some (negative, m)) n h = ground arith

parse_limit-bounds : (raw : Text) (n : ℕ) → parse_limit raw ≡ ok n → (1 ≤ n) × (n ≤ max_limit)
unfolding parse_limit
parse_limit-bounds [] n h = ground arith
parse_limit-bounds (c ∷ s) n h = check_limit-bounds (c ∷ s) (parse_int (c ∷ s)) n h

-- A query of a page that is accepted asks for at least 1 and at most 100 items.
pub parse_pagination-bounds :
    (raw_limit raw_offset : Text) (limit offset : ℕ)
    → parse_pagination raw_limit raw_offset ≡ ok (limit, offset)
    → (1 ≤ limit) × (limit ≤ max_limit)
unfolding parse_pagination
parse_pagination-bounds raw_limit raw_offset limit offset h =
    parse_limit-bounds raw_limit limit (ground arith)
