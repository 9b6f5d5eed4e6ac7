-- ===== src/Tests/Inputs.antt =====
-- The theorems about the inputs of a request, each at a concrete one.
use qdt_test.Common.{◌≡◌, ◌↔◌, refl, ok, codes, trim_space, rune_count, length, ◌≤◌, arith, false}
use qdt_test.Content.Validate.{validate_slug, normalize_fields, max_slug_len}
use qdt_test.Content.Validate.Slugs.{Words, validate_slug_iff}
use qdt_test.Content.Validate.Limits.{IsNormal, normalize_fields-IsNormal}
use qdt_test.Httpapi.Etag.{format_etag, parse_if_match}
use qdt_test.Httpapi.Etag.RoundTrip.{parse_if_match-format_etag}
use qdt_test.Tests.{draft}

validate_slug_iff_example :
    (validate_slug (codes "a-b1") ≡ ok tt)
    ↔ (Words (codes "a-b1") × (length (codes "a-b1") ≤ max_slug_len))
validate_slug_iff_example = validate_slug_iff (codes "a-b1")

normalize_fields-IsNormal_example :
    IsNormal draft
    × ((draft.title ≡ trim_space draft.title)
        × (draft.meta_title ≡ trim_space draft.meta_title)
        × (draft.meta_description ≡ trim_space draft.meta_description)
        × (draft.canonical_url ≡ trim_space draft.canonical_url)
        × (draft.og_image_url ≡ trim_space draft.og_image_url)
        × (draft.body ≡ draft.body)
        × (draft.noindex ≡ draft.noindex))
unfolding normalize_fields trim_space rune_count
normalize_fields-IsNormal_example = normalize_fields-IsNormal draft draft refl

parse_if_match-format_etag_example : parse_if_match (format_etag 4096) ≡ ok (4096, false)
parse_if_match-format_etag_example = parse_if_match-format_etag 4096 (omega arith) (omega arith)
