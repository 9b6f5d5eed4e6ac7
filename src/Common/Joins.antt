-- ===== src/Common/Joins.antt =====
-- Which rows a query returns: joins, selections, orders and limits.
use Prim.Native.Nat.{ℕ, zero, suc, ◌≤◌}
use mathlib.Core.Bool.{Bool, true}
use mathlib.Core.Logic.{inl, inr}
use mathlib.Core.List.{List, [], ◌∷◌, Memᴰ}
use mathlib.Core.List.Memᴰ
use mathlib.Core.Path.{◌≡◌, refl}
use native.Mathlib.Omega.{arith}
use qdt_test.Common.Tests.{Bool-cases}
use qdt_test.Common.Tables.{length, count, join, join_row, select, take, sort, insert}

module _ {A B C : Type 0} (on : A → B → Bool) (two : A → B → C) where
  join_row-in :
      (a : A) (bs : List B) {r : C}
      → Memᴰ r (join_row on two a bs)
      → (b : B) × Memᴰ b bs × (on a b ≡ true) × (r ≡ two a b)
  join_row-in a [] m = elim m [ ]
  join_row-in a (b ∷ bs) {r} m = elim (Bool-cases (on a b)) [
    | inl hit ↦ elim (Memᴰ.cases_cons (rw hit at m)) [
      | inl e ↦ (b, Memᴰ.head refl, hit, e)
      | inr n ↦ let (c, k, h, e) = join_row-in a bs n in (c, Memᴰ.tail k, h, e)
    ]
    | inr miss ↦ let (c, k, h, e) = join_row-in a bs (rw miss at m) in (c, Memᴰ.tail k, h, e)
  ]

  -- A row of a join is a pair of rows that match.
  pub join-in :
      (as' : List A) (bs : List B) {r : C}
      → Memᴰ r (join on two as' bs)
      → (a : A) × (b : B) × Memᴰ a as' × Memᴰ b bs × (on a b ≡ true) × (r ≡ two a b)
  join-in [] bs m = elim m [ ]
  join-in (a ∷ as') bs m = elim (Memᴰ.append_cases (join_row on two a bs) m) [
    | inl n ↦ let (b, k, h, e) = join_row-in a bs n in (a, b, Memᴰ.head refl, k, h, e)
    | inr n ↦ let (c, b, l, k, h, e) = join-in as' bs n in (c, b, Memᴰ.tail l, k, h, e)
  ]

  in-join_row :
      (a : A) {b : B} (bs : List B)
      → Memᴰ b bs
      → on a b ≡ true
      → Memᴰ (two a b) (join_row on two a bs)
  in-join_row a [] m h = elim m [ ]
  in-join_row a (c ∷ bs) (Memᴰ.head e) h = rw (← e, h) (Memᴰ.head refl)
  in-join_row a (c ∷ bs) (Memᴰ.tail m) h = elim (Bool-cases (on a c)) [
    | inl hit ↦ rw hit (Memᴰ.tail (in-join_row a bs m h))
    | inr miss ↦ rw miss (in-join_row a bs m h)
  ]

  -- A pair of rows that match is a row of the join.
  pub in-join :
      {a : A} {b : B} (as' : List A) (bs : List B)
      → Memᴰ a as'
      → Memᴰ b bs
      → on a b ≡ true
      → Memᴰ (two a b) (join on two as' bs)
  in-join [] bs m k h = elim m [ ]
  in-join {a} (c ∷ as') bs (Memᴰ.head e) k h =
      Memᴰ.append_left (join on two as' bs) (rw (← e) (in-join_row a bs k h))
  in-join (c ∷ as') bs (Memᴰ.tail m) k h =
      Memᴰ.append_right (join_row on two c bs) (in-join as' bs m k h)

module _ {ℓ} {A : Type ℓ} where
  pub in-select :
      {x : A} (p : A → Bool) (xs : List A) → Memᴰ x xs → p x ≡ true → Memᴰ x (select p xs)
  in-select p [] m h = elim m [ ]
  in-select p (y ∷ xs) (Memᴰ.head e) h = rw (← e, h) (Memᴰ.head refl)
  in-select p (y ∷ xs) (Memᴰ.tail m) h = elim (Bool-cases (p y)) [
    | inl hit ↦ rw hit (Memᴰ.tail (in-select p xs m h))
    | inr miss ↦ rw miss (in-select p xs m h)
  ]

  in-insert :
      {x : A} (before : A → A → Bool) (a : A) (xs : List A)
      → Memᴰ x (a ∷ xs)
      → Memᴰ x (insert before a xs)
  unfolding insert
  in-insert before a [] m = m
  in-insert {x} before a (y ∷ xs) m = elim (Bool-cases (before y a)) [
    | inl later ↦ rw later (elim (Memᴰ.cases_cons m) [
      | inl e ↦ Memᴰ.tail (in-insert before a xs (Memᴰ.head e))
      | inr n ↦ elim (Memᴰ.cases_cons n) [
        | inl e ↦ Memᴰ.head e
        | inr k ↦ Memᴰ.tail (in-insert before a xs (Memᴰ.tail k))
      ]
    ])
    | inr sooner ↦ rw sooner m
  ]

  pub in-sort : {x : A} (before : A → A → Bool) (xs : List A) → Memᴰ x xs → Memᴰ x (sort before xs)
  unfolding sort
  in-sort before [] m = m
  in-sort before (y ∷ xs) (Memᴰ.head e) = in-insert before y (sort before xs) (Memᴰ.head e)
  in-sort before (y ∷ xs) (Memᴰ.tail m) =
      in-insert before y (sort before xs) (Memᴰ.tail (in-sort before xs m))

  length-insert :
      (before : A → A → Bool) (a : A) (xs : List A) → length (insert before a xs) ≡ suc (length xs)
  unfolding insert
  length-insert before a [] = refl
  length-insert before a (y ∷ xs) = ground (arith, length-insert before a xs)

  pub length-sort : (before : A → A → Bool) (xs : List A) → length (sort before xs) ≡ length xs
  unfolding sort
  length-sort before [] = refl
  length-sort before (x ∷ xs) =
      omega (arith, length-insert before x (sort before xs), length-sort before xs)

  -- A limit that is not reached cuts nothing off.
  pub in-take : {x : A} (n : ℕ) (xs : List A) → length xs ≤ n → Memᴰ x xs → Memᴰ x (take n xs)
  in-take n [] short m = elim m [ ]
  in-take zero (y ∷ xs) short m = absurd (omega arith)
  in-take (suc n) (y ∷ xs) short (Memᴰ.head e) = Memᴰ.head e
  in-take (suc n) (y ∷ xs) short (Memᴰ.tail m) = Memᴰ.tail (in-take n xs (omega arith) m)

  pub length-select : (p : A → Bool) (xs : List A) → length (select p xs) ≡ count p xs
  length-select p [] = refl
  length-select p (x ∷ xs) = elim (Bool-cases (p x)) [
    | inl hit ↦ rw hit (ground (arith, length-select p xs))
    | inr miss ↦ rw miss (ground (arith, length-select p xs))
  ]

  pub length-take : (n : ℕ) (xs : List A) → length (take n xs) ≤ n
  length-take zero xs = omega arith
  length-take (suc n) [] = omega arith
  length-take (suc n) (x ∷ xs) = let rest = length-take n xs in omega arith
