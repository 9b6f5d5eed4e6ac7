-- ===== src/Content/Validate.antt =====
-- The validation of internal/content/service.go.
pub mod Slugs
pub mod Limits
use qdt_test.Common.{
  ℕ, String, Text, ltb, ◌==◌, if◌then◌else◌, Bool, true, false, ◌&&◌, ◌||◌, List, [], ◌∷◌, Result,
  ok, err, ◌>>◌, length, between, is_digit, trim_space, rune_count,
}
use qdt_test.Store.Model.{Error, validation, VersionFields}

abbrev pub max_slug_len : ℕ
max_slug_len = 200

abbrev pub max_title_len : ℕ
max_title_len = 500

abbrev pub max_body_len : ℕ
max_body_len = 500_000

abbrev pub max_meta_len : ℕ
max_meta_len = 1000

abbrev pub max_url_len : ℕ
max_url_len = 2000

abbrev pub is_slug_char : ℕ → Bool
is_slug_char c = between b'a' b'z' c || is_digit c

-- `^[a-z0-9]+(?:-[a-z0-9]+)*$`, as the automaton that it denotes: the flag says whether the text
-- so far ends in a letter or a digit.
matches_from : Bool → Text → Bool
matches_from inside [] = inside
matches_from inside (c ∷ s) =
    let word = matches_from true s in
    let gap = matches_from false s in
    if is_slug_char c then word else if inside && c == b'-' then gap else false

unfoldable pub slug_matches : Text → Bool
unfolding matches_from
slug_matches s = matches_from false s

abbrev is_empty : Text → Bool
is_empty [] = true
is_empty (c ∷ s) = false

unfoldable pub validate_slug : Text → Result Error (Unit {0})
unfolding slug_matches
validate_slug slug =
    if is_empty slug
    then err (validation "slug" "must not be empty")
    else if ltb max_slug_len (length slug)
    then err (validation "slug" "must be at most 200 characters")
    else if slug_matches slug
    then ok tt
    else err (validation "slug" "must be lowercase alphanumerics separated by single hyphens")

-- One row of the table of limits.
pub record Limit : Type 0 where
  pub field : String
  pub value : Text
  pub max : ℕ
  pub message : String

-- The first field over its limit is refused.
check_limits : List Limit → Result Error (Unit {0})
check_limits [] = ok tt
check_limits (l ∷ ls) =
    let rest = check_limits ls in
    if ltb l.max (rune_count l.value) then err (validation l.field l.message) else rest

abbrev limits : VersionFields → List Limit
limits f =
    record {
      field = "title";
      value = f.title;
      max = max_title_len;
      message = "must be at most 500 characters";
    }
    ∷ record {
      field = "body";
      value = f.body;
      max = max_body_len;
      message = "must be at most 500000 characters";
    }
    ∷ record {
      field = "meta_title";
      value = f.meta_title;
      max = max_meta_len;
      message = "must be at most 1000 characters";
    }
    ∷ record {
      field = "meta_description";
      value = f.meta_description;
      max = max_meta_len;
      message = "must be at most 1000 characters";
    }
    ∷ record {
      field = "canonical_url";
      value = f.canonical_url;
      max = max_url_len;
      message = "must be at most 2000 characters";
    }
    ∷ record {
      field = "og_image_url";
      value = f.og_image_url;
      max = max_url_len;
      message = "must be at most 2000 characters";
    }
    ∷ []

abbrev trimmed : VersionFields → VersionFields
trimmed f = record f {
  title = trim_space f.title;
  meta_title = trim_space f.meta_title;
  meta_description = trim_space f.meta_description;
  canonical_url = trim_space f.canonical_url;
  og_image_url = trim_space f.og_image_url;
}

-- What remains of `normalizeFields` once the fields are trimmed.
check_fields : VersionFields → Result Error VersionFields
unfolding check_limits
check_fields f =
    if is_empty f.title
    then err (validation "title" "must not be empty")
    else (check_limits (limits f) >> ok f)

unfoldable pub normalize_fields : VersionFields → Result Error VersionFields
unfolding check_fields
normalize_fields f = check_fields (trimmed f)
