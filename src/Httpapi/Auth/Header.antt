-- ===== src/Httpapi/Auth/Header.antt =====
-- The Authorization headers that are let through.
use qdt_test.Common.{
  Text, codes, text_eq, text_eq_refl, ◌≡◌, ◌↔◌, refl, true, ◌++◌, inl, inr, arith, Option-cases,
  cut_prefix, cut_prefix_sound, trim_space,
}
use qdt_test.Httpapi.Auth.{admits}

text_eq_sound : (s t : Text) → text_eq s t ≡ true → s ≡ t
text_eq_sound s t h = ground arith

-- A request passes exactly if its header is "Bearer " and then a text that, without the white space
-- around it, is the expected token.
pub admits_iff :
    (expected header : Text)
    → (admits expected header ≡ true)
      ↔ ((token : Text) × (header ≡ codes "Bearer " ++ token) × (trim_space token ≡ expected))
unfolding admits
admits_iff expected header = (passed, kept)
  where
    passed :
        admits expected header ≡ true
        → (token : Text) × (header ≡ codes "Bearer " ++ token) × (trim_space token ≡ expected)
    passed h = elim (Option-cases (cut_prefix (codes "Bearer ") header)) [
      | inl missing ↦ absurd (ground (arith, missing))
      | inr (token, found) ↦ (
        token,
        cut_prefix_sound (codes "Bearer ") header token found,
        text_eq_sound (trim_space token) expected (ground (arith, found)),
      )
    ]

    kept :
        (token : Text) × (header ≡ codes "Bearer " ++ token) × (trim_space token ≡ expected)
        → admits expected header ≡ true
    kept (token, written, same) = rw (written, same, text_eq_refl expected) refl
