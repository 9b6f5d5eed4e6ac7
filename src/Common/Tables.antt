-- ===== src/Common/Tables.antt =====
-- A table is the list of its rows; `SELECT`, `UPDATE` and the aggregates walk it.
use Prim.Native.Nat.{ℕ, zero, suc, ◌+◌}
use mathlib.Core.Bool.{Bool, false, ◌||◌}
use mathlib.Core.Option.{Option, none, some}
use mathlib.Core.List.{List, [], ◌∷◌, ◌++◌}
use qdt_test.Common.Tests.{if◌then◌else◌}

module _ {ℓ} {A : Type ℓ} where
  abbrev pub length : List A → ℕ
  length [] = 0
  length (x ∷ xs) = suc (length xs)

  abbrev pub take : ℕ → List A → List A
  take zero xs = []
  take (suc n) [] = []
  take (suc n) (x ∷ xs) = x ∷ take n xs

  abbrev pub drop : ℕ → List A → List A
  drop zero xs = xs
  drop (suc n) [] = []
  drop (suc n) (x ∷ xs) = drop n xs

  -- The first row that passes the test.
  abbrev pub find : (A → Bool) → List A → Option A
  find p [] = none
  find p (x ∷ xs) = if p x then some x else find p xs

  abbrev pub any : (A → Bool) → List A → Bool
  any p [] = false
  any p (x ∷ xs) = p x || any p xs

  abbrev pub count : (A → Bool) → List A → ℕ
  count p [] = 0
  count p (x ∷ xs) = (if p x then 1 else 0) + count p xs

  abbrev pub select : (A → Bool) → List A → List A
  select p [] = []
  select p (x ∷ xs) = if p x then x ∷ select p xs else select p xs

  -- `UPDATE … SET f WHERE p`.
  abbrev pub update : (A → Bool) → (A → A) → List A → List A
  update p f [] = []
  update p f (x ∷ xs) = (if p x then f x else x) ∷ update p f xs

  -- `ORDER BY`: a stable insertion sort, where `before` is the order of the keys.
  unfoldable pub insert : (A → A → Bool) → A → List A → List A
  insert before a [] = a ∷ []
  insert before a (x ∷ xs) = if before x a then x ∷ insert before a xs else a ∷ x ∷ xs

  unfoldable pub sort : (A → A → Bool) → List A → List A
  unfolding insert
  sort before [] = []
  sort before (x ∷ xs) = insert before x (sort before xs)

-- `JOIN … ON`: the pairs of rows that pass the test, in the order of the first table.
module _ {ℓ κ μ} {A : Type ℓ} {B : Type κ} {C : Type μ} (on : A → B → Bool) (pair : A → B → C) where
  abbrev pub join_row : A → List B → List C
  join_row a [] = []
  join_row a (b ∷ bs) = if on a b then pair a b ∷ join_row a bs else join_row a bs

  abbrev pub join : List A → List B → List C
  join [] bs = []
  join (a ∷ as') bs = join_row a bs ++ join as' bs
