-- ===== src/Common/Rows.antt =====
-- Which rows a table holds after a statement.
use mathlib.Core.Path.{◌≡◌, refl}
use mathlib.Core.Logic.{◌⊎◌, inl, inr}
use mathlib.Core.Bool.{Bool, true, false}
use mathlib.Core.Option.{none, some}
use mathlib.Core.List.{List, [], ◌∷◌, ◌++◌, Memᴰ}
use mathlib.Core.List.Memᴰ
use Prim.Native.Nat.{ℕ, zero, suc, ◌+◌}
use native.Mathlib.Omega.{arith}
use qdt_test.Common.Tests.{if◌then◌else◌, Bool-cases, ◌==◌}
use qdt_test.Common.Tables.{find, any, count, select, update, take, drop, insert, sort}

module _ {A : Type 0} where
  pub in-append_last : (xs : List A) (a : A) → Memᴰ a (xs ++ a ∷ [])
  in-append_last xs a = Memᴰ.append_right xs (Memᴰ.head refl)

  pub of_in-append_last :
      {x : A} (xs : List A) (a : A) → Memᴰ x (xs ++ a ∷ []) → Memᴰ x xs ⊎ (x ≡ a)
  of_in-append_last xs a m = elim (Memᴰ.append_cases xs m) [
    | inl h ↦ inl h
    | inr h ↦ inr (Memᴰ.eq_of_singleton h)
  ]

  -- The rows of an updated table are the old ones, each rewritten where it passes the test.
  pub of_in-update :
      {y : A} (p : A → Bool) (f : A → A) (xs : List A)
      → Memᴰ y (update p f xs)
      → (x : A) × Memᴰ x xs × (y ≡ (if p x then f x else x))
  of_in-update p f [] h = elim h [ ]
  of_in-update p f (x ∷ xs) (Memᴰ.head e) = (x, Memᴰ.head refl, e)
  of_in-update p f (x ∷ xs) (Memᴰ.tail h) =
      let (z, m, e) = of_in-update p f xs h in (z, Memᴰ.tail m, e)

  pub in-update :
      {x : A} (p : A → Bool) (f : A → A) (xs : List A)
      → Memᴰ x xs
      → Memᴰ (if p x then f x else x) (update p f xs)
  in-update p f [] h = elim h [ ]
  in-update p f (y ∷ xs) (Memᴰ.head e) = Memᴰ.head (rw e)
  in-update p f (y ∷ xs) (Memᴰ.tail h) = Memᴰ.tail (in-update p f xs h)

  -- A row that the test misses is left by an update.
  pub in-update_other :
      {x : A} (p : A → Bool) (f : A → A) (xs : List A)
      → p x ≡ false
      → Memᴰ x xs
      → Memᴰ x (update p f xs)
  in-update_other {x} p f xs miss m = Memᴰ.cast (ground (arith, miss)) (in-update p f xs m)

  -- A row that the test hits is there as rewritten.
  pub in-update_hit :
      {x : A} (p : A → Bool) (f : A → A) (xs : List A)
      → p x ≡ true
      → Memᴰ x xs
      → Memᴰ (f x) (update p f xs)
  in-update_hit {x} p f xs hit m = Memᴰ.cast (ground (arith, hit)) (in-update p f xs m)

  -- An update that leaves what another test reads.
  pub any-update :
      (q p : A → Bool) (f : A → A) (xs : List A)
      → ((x : A) → q (f x) ≡ q x)
      → any q (update p f xs) ≡ any q xs
  any-update q p f [] h = refl
  any-update q p f (x ∷ xs) h = ground (arith, h x, any-update q p f xs h)

  pub find-in : (x : A) (p : A → Bool) (xs : List A) → find p xs ≡ some x → Memᴰ x xs × (p x ≡ true)
  find-in x p [] e = cc
  find-in x p (y ∷ xs) e = elim (Bool-cases (p y)) [
    | inl hit ↦ let same : y ≡ x = ground arith in (Memᴰ.head (cc same), rw (← same) hit)
    | inr miss ↦ let (m, h) = find-in x p xs (rw miss at e) in (Memᴰ.tail m, h)
  ]

  pub find-none : (x : A) (p : A → Bool) (xs : List A) → find p xs ≡ none → Memᴰ x xs → p x ≡ false
  find-none x p [] e h = elim h [ ]
  find-none x p (y ∷ xs) e (Memᴰ.head same) = rw same (ground arith)
  find-none x p (y ∷ xs) e (Memᴰ.tail h) = find-none x p xs (ground arith) h

  pub in-find :
      {x : A} (p : A → Bool) (xs : List A) → Memᴰ x xs → p x ≡ true → (y : A) × (find p xs ≡ some y)
  in-find p [] m h = elim m [ ]
  in-find p (y ∷ xs) (Memᴰ.head e) h = (y, rw (← e) (rw h))
  in-find p (y ∷ xs) (Memᴰ.tail m) h = elim (Bool-cases (p y)) [
    | inl hit ↦ (y, rw hit)
    | inr miss ↦ rw miss (in-find p xs m h)
  ]

  pub in-any : (x : A) (p : A → Bool) (xs : List A) → Memᴰ x xs → p x ≡ true → any p xs ≡ true
  in-any x p [] m h = elim m [ ]
  in-any x p (y ∷ xs) (Memᴰ.head e) h = rw (← e) (ground arith)
  in-any x p (y ∷ xs) (Memᴰ.tail m) h = rw (in-any x p xs m h) (ground arith)

  pub any-in : (p : A → Bool) (xs : List A) → any p xs ≡ true → (x : A) × Memᴰ x xs × (p x ≡ true)
  any-in p [] e = cc
  any-in p (y ∷ xs) e = elim (Bool-cases (p y)) [
    | inl hit ↦ (y, Memᴰ.head refl, hit)
    | inr miss ↦ let (x, m, h) = any-in p xs (rw miss at e) in (x, Memᴰ.tail m, h)
  ]

  pub any-false : (x : A) (p : A → Bool) (xs : List A) → any p xs ≡ false → Memᴰ x xs → p x ≡ false
  any-false x p [] e h = elim h [ ]
  any-false x p (y ∷ xs) e (Memᴰ.head same) = rw same (ground arith)
  any-false x p (y ∷ xs) e (Memᴰ.tail h) = any-false x p xs (ground arith) h

  pub any-append_left : (p : A → Bool) (xs ys : List A) → any p xs ≡ true → any p (xs ++ ys) ≡ true
  any-append_left p (x ∷ xs) ys h = ground (arith, any-append_left p xs ys)
  any-append_left p [] ys h = cc

  pub count-in :
      (p : A → Bool) (xs : List A) → (count p xs == 0) ≡ false → (x : A) × Memᴰ x xs × (p x ≡ true)
  count-in p [] e = cc
  count-in p (y ∷ xs) e = elim (Bool-cases (p y)) [
    | inl hit ↦ (y, Memᴰ.head refl, hit)
    | inr miss ↦ let (x, m, h) = count-in p xs (ground arith) in (x, Memᴰ.tail m, h)
  ]

  pub count-zero :
      (x : A) (p : A → Bool) (xs : List A) → (count p xs == 0) ≡ true → Memᴰ x xs → p x ≡ false
  count-zero x p [] e h = elim h [ ]
  count-zero x p (y ∷ xs) e (Memᴰ.head same) = rw same (ground arith)
  count-zero x p (y ∷ xs) e (Memᴰ.tail h) = count-zero x p xs (ground arith) h

  pub count_none :
      (p : A → Bool) (xs : List A) → ((x : A) → Memᴰ x xs → p x ≡ false) → count p xs ≡ 0
  count_none p [] h = refl
  count_none p (x ∷ xs) h =
      ground (arith, h x (Memᴰ.head refl), count_none p xs (λ y m. h y (Memᴰ.tail m)))

  pub count-append_last :
      (p : A → Bool) (xs : List A) (a : A)
      → count p (xs ++ a ∷ []) ≡ count p xs + (if p a then 1 else 0)
  count-append_last p [] a = omega arith
  count-append_last p (x ∷ xs) a = omega (arith, count-append_last p xs a)

  in_kept :
      {x : A} (p : A → Bool) (y : A) (xs zs : List A)
      → p y ≡ true
      → (Memᴰ x zs → Memᴰ x xs × (p x ≡ true))
      → Memᴰ x (y ∷ zs)
      → Memᴰ x (y ∷ xs) × (p x ≡ true)
  in_kept p y xs zs hit rest (Memᴰ.head e) = (Memᴰ.head e, rw e hit)
  in_kept p y xs zs hit rest (Memᴰ.tail m) = let (n, t) = rest m in (Memᴰ.tail n, t)

  pub select-in :
      (x : A) (p : A → Bool) (xs : List A) → Memᴰ x (select p xs) → Memᴰ x xs × (p x ≡ true)
  select-in x p [] h = elim h [ ]
  select-in x p (y ∷ xs) h = elim (Bool-cases (p y)) [
    | inl hit ↦ in_kept p y xs (select p xs) hit (select-in x p xs) (rw hit at h)
    | inr miss ↦ let (m, t) = select-in x p xs (rw miss at h) in (Memᴰ.tail m, t)
  ]

  pub take-in : {x : A} (n : ℕ) (xs : List A) → Memᴰ x (take n xs) → Memᴰ x xs
  take-in zero xs h = elim h [ ]
  take-in (suc n) [] h = elim h [ ]
  take-in (suc n) (y ∷ xs) (Memᴰ.head e) = Memᴰ.head e
  take-in (suc n) (y ∷ xs) (Memᴰ.tail m) = Memᴰ.tail (take-in n xs m)

  insert-in :
      {x : A} (before : A → A → Bool) (a : A) (xs : List A)
      → Memᴰ x (insert before a xs)
      → Memᴰ x (a ∷ xs)
  unfolding insert
  insert-in before a [] h = h
  insert-in {x} before a (y ∷ xs) h = elim (Bool-cases (before y a)) [
    | inl later ↦ elim (Memᴰ.cases_cons (rw later at h)) [
      | inl e ↦ Memᴰ.tail (Memᴰ.head e)
      | inr m ↦ elim (Memᴰ.cases_cons (insert-in before a xs m)) [
        | inl e ↦ Memᴰ.head e
        | inr n ↦ Memᴰ.tail (Memᴰ.tail n)
      ]
    ]
    | inr sooner ↦ rw sooner at h
  ]

  pub sort-in : {x : A} (before : A → A → Bool) (xs : List A) → Memᴰ x (sort before xs) → Memᴰ x xs
  unfolding sort
  sort-in before [] h = h
  sort-in before (y ∷ xs) h = elim (Memᴰ.cases_cons (insert-in before y (sort before xs) h)) [
    | inl e ↦ Memᴰ.head e
    | inr m ↦ Memᴰ.tail (sort-in before xs m)
  ]

  pub drop-in : {x : A} (n : ℕ) (xs : List A) → Memᴰ x (drop n xs) → Memᴰ x xs
  drop-in zero xs h = h
  drop-in (suc n) [] h = elim h [ ]
  drop-in (suc n) (y ∷ xs) h = Memᴰ.tail (drop-in n xs h)
