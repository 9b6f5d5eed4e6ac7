-- ===== src/Config/Duration/Bounds.antt =====
-- The durations that are read, and that reading one ends.
use qdt_test.Common.{
  ℕ, zero, suc, ◌+◌, ◌-◌, ◌*◌, ◌%◌, ◌^◌, ◌≤◌, ◌<◌, Text, text_eq, codes, ltb, ◌≡◌, ◌≢◌, refl, subst,
  Option, none, some, Bool, true, false, [], ◌∷◌, Result, ok, err, inl, inr, arith, length,
  is_digit, ◌==◌, ◌||◌, not, Option-cases, Bool-cases,
}
use qdt_test.Config.Duration.{
  half, next_digit, no_fraction, unit_of, leading_int, Fraction, leading_fraction, split_unit,
  fraction_part, scaled, in_unit, with_unit, after_whole, term, terms, Scan, out_of_fuel,
  not_a_duration, total, DurationError, stuck, invalid, signed, magnitude, parse_duration,
}

leading_int-shorter :
    (s : Text) (x v : ℕ) (rest : Text) → leading_int x s ≡ some (v, rest) → length rest ≤ length s
unfolding leading_int
leading_int-shorter [] x v rest h = let e : [] ≡ rest = cc h in rw (← e) (omega arith)
leading_int-shorter (c ∷ s) x v rest h = elim (Bool-cases (is_digit c)) [
  | inl digit ↦ ground (arith, leading_int-shorter s (x * 10 + (c - b'0')) v rest)
  | inr other ↦ ground arith
]

leading_fraction-shorter : (f : Fraction) (s : Text) → length (leading_fraction f s).1 ≤ length s
unfolding leading_fraction
leading_fraction-shorter f [] = omega arith
leading_fraction-shorter f (c ∷ s) = elim (Bool-cases (is_digit c)) [
  | inl digit ↦ rw digit (omega (arith, leading_fraction-shorter (next_digit c f) s))
  | inr other ↦ rw other (omega arith)
]

split_unit-length : (s : Text) → length (split_unit s).0 + length (split_unit s).1 ≡ length s
unfolding split_unit
split_unit-length [] = refl
split_unit-length (c ∷ s) = ground (arith, split_unit-length s)

fraction_part-shorter : (s : Text) → length (fraction_part s).1 ≤ length s
unfolding fraction_part
fraction_part-shorter [] = omega arith
fraction_part-shorter (c ∷ s) = elim (Bool-cases (c == b'.')) [
  | inl point ↦ rw point (omega (arith, leading_fraction-shorter no_fraction s))
  | inr other ↦ rw other (omega arith)
]

module _ (product : ℕ → ℕ → ℕ → ℕ) where
  in_unit-rest :
      (v : ℕ) (f : Fraction) (r : Text) (u : Option ℕ) (n : ℕ) (rest : Text)
      → in_unit product v f r u ≡ some (n, rest)
      → r ≡ rest
  unfolding in_unit
  in_unit-rest v f r none n rest h = absurd (cc h)
  in_unit-rest v f r (some unit) n rest h = elim (Option-cases (scaled product v f unit)) [
    | inl large ↦ absurd (cc (rw large at h))
    | inr (m, fits) ↦ cc (rw fits at h)
  ]

  with_unit-shorter :
      (v : ℕ) (f : Fraction) (p : Text × Text) (n : ℕ) (rest : Text)
      → with_unit product v f p ≡ some (n, rest)
      → length rest < length p.0 + length p.1
  unfolding with_unit
  with_unit-shorter v f ([], r) n rest h = absurd (cc h)
  with_unit-shorter v f (c ∷ u, r) n rest h =
      let same = in_unit-rest v f r (unit_of (c ∷ u)) n rest h in rw same (omega arith)

  after_whole-shorter :
      (s : Text) (p : ℕ × Text) (n : ℕ) (rest : Text)
      → after_whole product s p ≡ some (n, rest)
      → length rest < length p.1
  unfolding after_whole
  after_whole-shorter s (v, s1) n rest h =
      elim (Bool-cases (not (length s1 == length s) || (fraction_part s1).2)) [
        | inl digits ↦
            let taken =
              with_unit-shorter v (fraction_part s1).0 (split_unit (fraction_part s1).1) n rest
                (rw digits at h) in
            omega (arith, taken, split_unit-length (fraction_part s1).1, fraction_part-shorter s1)
        | inr nothing ↦ absurd (cc (rw nothing at h))
      ]

  -- Every pass of the loop takes something off.
  term-shorter :
      (s : Text) (n : ℕ) (rest : Text) → term product s ≡ some (n, rest) → length rest < length s
  unfolding term
  term-shorter [] n rest h = absurd (cc h)
  term-shorter (c ∷ s) n rest h = elim (Bool-cases (c == b'.' || is_digit c)) [
    | inl starts ↦ elim (Option-cases (leading_int 0 (c ∷ s))) [
      | inl large ↦ absurd (cc (rw (starts, large) at h))
      | inr ((v, s1), read) ↦
          let taken = after_whole-shorter (c ∷ s) (v, s1) n rest (rw (starts, read) at h) in
          omega (arith, taken, leading_int-shorter (c ∷ s) 0 v s1 read)
    ]
    | inr other ↦ absurd (cc (rw other at h))
  ]

  terms-enough : (fuel d : ℕ) (s : Text) → length s ≤ fuel → terms product fuel d s ≢ out_of_fuel
  unfolding terms
  terms-enough fuel d [] enough h = ground arith
  terms-enough zero d (c ∷ s) enough h = omega arith
  terms-enough (suc fuel) d (c ∷ s) enough h = elim (Option-cases (term product (c ∷ s))) [
    | inl refused ↦ absurd (cc (rw (refused, terms) at h))
    | inr ((v, rest), read) ↦
        let left = term-shorter (c ∷ s) v rest read in
        let next = (d + v) % 2 ^ 64 in
        elim (Bool-cases (ltb half next)) [
          | inl large ↦ absurd (cc (rw (read, terms, large) at h))
          | inr small ↦
              terms-enough fuel next rest (omega (arith, left, enough))
                (rw (read, terms, small) at h)
        ]
  ]

  terms-bounded : (fuel d n : ℕ) (s : Text) → d ≤ half → terms product fuel d s ≡ total n → n ≤ half
  unfolding terms
  terms-bounded fuel d n [] small h = let e : d ≡ n = cc h in rw (← e) small
  terms-bounded zero d n (c ∷ s) small h = absurd (cc h)
  terms-bounded (suc fuel) d n (c ∷ s) small h = elim (Option-cases (term product (c ∷ s))) [
    | inl refused ↦ absurd (cc (rw (refused, terms) at h))
    | inr ((v, rest), read) ↦
        let next = (d + v) % 2 ^ 64 in
        elim (Bool-cases (ltb half next)) [
          | inl large ↦ absurd (cc (rw (read, terms, large) at h))
          | inr fits ↦ terms-bounded fuel next n rest (ground arith) (rw (read, terms, fits) at h)
        ]
  ]

  -- Every answer of the loop, with its sign.
  IsRead : Result DurationError (Bool × ℕ) → Type 0
  IsRead (err stuck) = ⊥
  IsRead (err invalid) = Unit {0}
  IsRead (ok (true, d)) = d ≤ half
  IsRead (ok (false, d)) = d < half

  signed-IsRead :
      (negative : Bool) (r : Scan)
      → r ≢ out_of_fuel
      → ((n : ℕ) → r ≡ total n → n ≤ half)
      → IsRead (signed product negative r)
  unfolding IsRead signed
  signed-IsRead negative out_of_fuel ends small = ends refl
  signed-IsRead negative not_a_duration ends small = tt
  signed-IsRead true (total d) ends small = small d refl
  signed-IsRead false (total d) ends small = elim (Bool-cases (ltb (half - 1) d)) [
    | inl large ↦ rw large tt
    | inr fits ↦ rw fits (ground arith)
  ]

  magnitude-IsRead : (negative : Bool) (s : Text) → IsRead (magnitude product negative s)
  unfolding IsRead magnitude
  magnitude-IsRead negative s = elim (Bool-cases (text_eq s (codes "0"))) [
    | inl zero_only ↦ rw zero_only (omega arith)
    | inr other ↦ elim (Bool-cases (text_eq s [])) [
      | inl nothing ↦ rw (other, nothing) tt
      | inr something ↦
          rw (other, something)
            (signed-IsRead negative (terms product (length s) 0 s)
              (terms-enough (length s) 0 s (omega arith))
              (λ n h. terms-bounded (length s) 0 n s (omega arith) h))
    ]
  ]

  parse_duration-IsRead : (s : Text) → IsRead (parse_duration product s)
  unfolding IsRead parse_duration
  parse_duration-IsRead [] = tt
  parse_duration-IsRead (c ∷ s) = elim (Bool-cases (c == b'-')) [
    | inl minus ↦ rw minus (magnitude-IsRead true s)
    | inr other ↦ elim (Bool-cases (c == b'+')) [
      | inl plus ↦ rw (other, plus) (magnitude-IsRead false s)
      | inr digit ↦ rw (other, digit) (magnitude-IsRead false (c ∷ s))
    ]
  ]

  -- Reading a duration ends.
  pub parse_duration_ends : (s : Text) → parse_duration product s ≢ err stuck
  unfolding IsRead
  parse_duration_ends s h = subst IsRead h (parse_duration-IsRead s)

  -- What is read is an int64.
  pub parse_duration-bounds :
      (s : Text) (d : ℕ) → parse_duration product s ≡ ok (false, d) → d < half
  unfolding IsRead
  parse_duration-bounds s d h = subst IsRead h (parse_duration-IsRead s)
