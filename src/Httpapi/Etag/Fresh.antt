-- ===== src/Httpapi/Etag/Fresh.antt =====
-- A tag that comes back in If-None-Match.
use qdt_test.Common.{
  ℕ, Text, text_eq_refl, text_dec, ◌≡◌, refl, ◌∙◌, true, false, [], ◌∷◌, ◌++◌, arith, contains_byte,
  trim_space-quoted,
}
use qdt_test.Httpapi.Etag.{
  format_int, format_etag, if_none_match_matches, split_commas, any_matches,
}
use qdt_test.Httpapi.Etag.RoundTrip.{contains-format_int, contains-append}

split_commas-one : (s : Text) → contains_byte b',' s ≡ false → split_commas s ≡ s ∷ []
unfolding split_commas
split_commas-one [] h = refl
split_commas-one (c ∷ s) h = ground (arith, split_commas-one s)

quoted_matches :
    (s : Text)
    → contains_byte b',' s ≡ false
    → if_none_match_matches (b'"' ∷ s ++ b'"' ∷ []) (b'"' ∷ s ++ b'"' ∷ []) ≡ true
unfolding if_none_match_matches any_matches text_dec
quoted_matches s h =
    rw
      (
        trim_space-quoted s,
        split_commas-one (b'"' ∷ s ++ b'"' ∷ []) (contains-append s ∙ h),
        trim_space-quoted s,
        text_eq_refl (b'"' ∷ s ++ b'"' ∷ []),
      )
      refl

-- The tag of a number matches itself.
pub format_etag-matches : (n : ℕ) → if_none_match_matches (format_etag n) (format_etag n) ≡ true
unfolding format_etag
format_etag-matches n = quoted_matches (format_int n) (contains-format_int n)
