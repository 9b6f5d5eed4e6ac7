-- ===== src/Content/Validate/Slugs.antt =====
-- The grammar of slugs, and the automaton that decides it.
use qdt_test.Common.{
  ℕ, Text, ◌≡◌, refl, ◌↔◌, true, false, [], ◌∷◌, ok, inl, inr, Bool-cases, arith, length, ◌≤◌,
}
use qdt_test.Content.Validate.{
  is_slug_char, matches_from, slug_matches, validate_slug, max_slug_len,
}

-- Words of lower-case letters and digits with one hyphen between two words: `Words` is a text that
-- begins a word, `Rest` what may follow a character of one.
mutual
  pub data Words : Text → Type 0 where
    first : {c : ℕ} {s : Text} → is_slug_char c ≡ true → Rest s → Words (c ∷ s)

  pub data Rest : Text → Type 0 where
    finish : Rest []
    more : {c : ℕ} {s : Text} → is_slug_char c ≡ true → Rest s → Rest (c ∷ s)
    hyphen : {c : ℕ} {s : Text} → c ≡ b'-' → Words s → Rest (c ∷ s)

not_char : (c : ℕ) → c ≡ b'-' → is_slug_char c ≡ false
not_char c e = ground arith

mutual
  unfolding matches_from

  Words-matches : {s : Text} → Words s → matches_from false s ≡ true
  Words-matches (first h r) = ground (arith, Rest-matches r)

  Rest-matches : {s : Text} → Rest s → matches_from true s ≡ true
  Rest-matches finish = refl
  Rest-matches (more h r) = ground (arith, Rest-matches r)
  Rest-matches (hyphen {c} e w) = ground (arith, Words-matches w, not_char c e)

-- Both readings at once, by recursion on the text.
matches-grammar :
    (s : Text) → (matches_from false s ≡ true → Words s) × (matches_from true s ≡ true → Rest s)
unfolding matches_from
matches-grammar [] = ((λ h. cc), (λ _. finish))
matches-grammar (c ∷ s) =
    let (words, rest) = matches-grammar s in
    elim (Bool-cases (is_slug_char c)) [
      | inl word ↦ (
        (λ h. first word (rest (ground (arith, word)))),
        (λ h. more word (rest (ground (arith, word)))),
      )
      | inr other ↦ (
        (λ h. absurd (ground (arith, other))),
        (λ h. hyphen (ground (arith, other)) (words (ground (arith, other)))),
      )
    ]

slug_matches_iff : (s : Text) → (slug_matches s ≡ true) ↔ Words s
unfolding slug_matches
slug_matches_iff s = ((matches-grammar s).0, Words-matches)

validate_slug_of_matches :
    (s : Text) → slug_matches s ≡ true → length s ≤ max_slug_len → validate_slug s ≡ ok tt
unfolding validate_slug slug_matches
validate_slug_of_matches [] h short = cc
validate_slug_of_matches (c ∷ s) h short = ground arith

-- A slug is accepted exactly if it consists of words of lower-case letters and digits, with one
-- hyphen between two words, and has at most 200 bytes.
pub validate_slug_iff :
    (s : Text) → (validate_slug s ≡ ok tt) ↔ (Words s × (length s ≤ max_slug_len))
unfolding validate_slug slug_matches
validate_slug_iff s = (accepted, kept)
  where
    accepted : validate_slug s ≡ ok tt → Words s × (length s ≤ max_slug_len)
    accepted h = ((slug_matches_iff s).0 (ground arith), ground arith)

    kept : Words s × (length s ≤ max_slug_len) → validate_slug s ≡ ok tt
    kept (w, short) = validate_slug_of_matches s ((slug_matches_iff s).1 w) short
