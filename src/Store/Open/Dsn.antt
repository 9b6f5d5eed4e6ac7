-- ===== src/Store/Open/Dsn.antt =====
-- What a connection string says.
use qdt_test.Common.{
  ℕ, ◌+◌, ◌-◌, ◌*◌, ◌/◌, ◌%◌, ◌<◌, Text, codes, ltb, ◌==◌, if◌then◌else◌, ◌≡◌, refl, true, false,
  [], ◌∷◌, ◌++◌, arith, Bool-cases, inl, inr,
}
use mathlib.Core.List.{append_assoc}
use qdt_test.Store.Open.{is_kept, hex_digit, path_escape, pragmas, base_dsn, write_dsn}

-- A text up to its first question mark, and after it.
unfoldable pub cut_query : Text → Text × Text
cut_query [] = ([], [])
cut_query (c ∷ s) =
    let (before, after) = cut_query s in if c == b'?' then ([], s) else (c ∷ before, after)

abbrev pub hex_value : ℕ → ℕ
hex_value d = if ltb d b'A' then d - b'0' else d - b'7'

-- The bytes that a percent-encoded text stands for.
unfoldable pub percent_decode : Text → Text
percent_decode [] = []
percent_decode (c ∷ []) = c ∷ []
percent_decode (c ∷ d ∷ []) = c ∷ d ∷ []
percent_decode (c ∷ d ∷ e ∷ s) =
    let taken = percent_decode s in
    let passed = percent_decode (d ∷ e ∷ s) in
    if c == b'%' then (hex_value d * 16 + hex_value e) ∷ taken else c ∷ passed

abbrev pub Bytes : Text → Type 0
Bytes [] = Unit {0}
Bytes (c ∷ s) = (c < 256) × Bytes s

percent_decode-plain :
    (c : ℕ) (s : Text) → (c == b'%') ≡ false → percent_decode (c ∷ s) ≡ c ∷ percent_decode s
unfolding percent_decode
percent_decode-plain c [] h = refl
percent_decode-plain c (d ∷ []) h = refl
percent_decode-plain c (d ∷ e ∷ s) h = rw h refl

percent_decode-escaped :
    (c : ℕ) (s : Text)
    → c < 256
    → percent_decode (b'%' ∷ hex_digit (c / 16) ∷ hex_digit (c % 16) ∷ s) ≡ c ∷ percent_decode s
unfolding percent_decode
percent_decode-escaped c s h = ground arith

kept_plain : (c : ℕ) → is_kept c ≡ true → (c == b'%') ≡ false
unfolding is_kept
kept_plain c h = ground arith

kept_no_query : (c : ℕ) → is_kept c ≡ true → (c == b'?') ≡ false
unfolding is_kept
kept_no_query c h = ground arith

decode-escape : (s : Text) → Bytes s → percent_decode (path_escape s) ≡ s
unfolding path_escape percent_decode
decode-escape [] b = refl
decode-escape (c ∷ s) (small, b) = elim (Bool-cases (is_kept c)) [
  | inl kept ↦
      rw (kept, percent_decode-plain c (path_escape s) (kept_plain c kept), decode-escape s b) refl
  | inr changed ↦
      rw (changed, percent_decode-escaped c (path_escape s) small, decode-escape s b) refl
]

hex_no_query : (n : ℕ) → n < 16 → (hex_digit n == b'?') ≡ false
hex_no_query n h = ground arith

-- Nothing that `path_escape` writes cuts a text.
cut-escape : (s t : Text) → Bytes s → cut_query (path_escape s ++ b'?' ∷ t) ≡ (path_escape s, t)
unfolding path_escape cut_query
cut-escape [] t b = refl
cut-escape (c ∷ s) t (small, b) = elim (Bool-cases (is_kept c)) [
  | inl kept ↦ rw (kept, cut-escape s t b, kept_no_query c kept) refl
  | inr changed ↦
      rw
        (
          changed,
          cut-escape s t b,
          hex_no_query (c / 16) (omega arith),
          hex_no_query (c % 16) (omega arith),
        )
        refl
]

cut-file :
    (s t : Text)
    → Bytes s
    → cut_query (codes "file:" ++ path_escape s ++ b'?' ∷ t) ≡ (codes "file:" ++ path_escape s, t)
unfolding cut_query
cut-file s t b = rw (cut-escape s t b) refl

-- For a path of bytes, both connection strings end, after their first question mark, in the options of
-- their pool alone, whatever the path holds; and what stands before it is the file scheme and the
-- percent-encoding of the path.
pub dsn_names_path :
    (path : Text)
    → Bytes path
    → (name : Text) × (cut_query (base_dsn path) ≡ (codes "file:" ++ name, pragmas))
      × (cut_query (write_dsn path)
          ≡ (codes "file:" ++ name, pragmas ++ codes "&_txlock=immediate"))
      × (percent_decode name ≡ path)
unfolding base_dsn write_dsn
dsn_names_path path b = (
  path_escape path,
  cut-file path pragmas b,
  rw (append_assoc (path_escape path) (b'?' ∷ pragmas) (codes "&_txlock=immediate"))
      (cut-file path (pragmas ++ codes "&_txlock=immediate") b),
  decode-escape path b,
)
