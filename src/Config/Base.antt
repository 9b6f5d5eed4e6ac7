-- ===== src/Config/Base.antt =====
-- The base of the links after `strings.TrimRight`.
use qdt_test.Common.{ℕ, Text, ◌==◌, ◌≡◌, ◌≢◌, inl, inr, false, [], ◌∷◌, ◌++◌, arith, Bool-cases}
use qdt_test.Config.{trim_slashes, drop_slash}

snoc_nonempty : (t : Text) (c : ℕ) → [] ≢ t ++ c ∷ []
snoc_nonempty [] c h = absurd (cc h)
snoc_nonempty (d ∷ t) c h = absurd (cc h)

one_end : (c : ℕ) (t : Text) → (c == b'/') ≡ false → c ∷ [] ≢ t ++ b'/' ∷ []
one_end c [] other h = let same : c ≡ b'/' = cc h in ground arith
one_end c (d ∷ t) other h = snoc_nonempty t b'/' (cc h)

drop_slash_end :
    (c : ℕ) (r : Text)
    → ((t : Text) → r ≢ t ++ b'/' ∷ [])
    → (t : Text) → drop_slash c r ≢ t ++ b'/' ∷ []
unfolding drop_slash
drop_slash_end c [] ends t h = elim (Bool-cases (c == b'/')) [
  | inl slash ↦ snoc_nonempty t b'/' (rw slash at h)
  | inr other ↦ one_end c t other (rw other at h)
]
drop_slash_end c (d ∷ r) ends [] h = absurd (cc h)
drop_slash_end c (d ∷ r) ends (x ∷ t) h = ends t (cc h)

pub trim_slashes_end : (s t : Text) → trim_slashes s ≢ t ++ b'/' ∷ []
unfolding trim_slashes
trim_slashes_end [] t h = snoc_nonempty t b'/' h
trim_slashes_end (c ∷ s) t h = drop_slash_end c (trim_slashes s) (trim_slashes_end s) t h
