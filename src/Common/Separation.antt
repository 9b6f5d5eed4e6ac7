-- ===== src/Common/Separation.antt =====
-- Rows that are pairwise apart: unique keys and the partial unique indexes.
use mathlib.Core.Path.{◌≡◌, refl}
use mathlib.Core.Bool.{Bool}
use mathlib.Core.Logic.{inl, inr}
use mathlib.Core.List.{List, [], ◌∷◌, ◌++◌, Memᴰ}
use mathlib.Core.List.Memᴰ
use qdt_test.Common.Tests.{if◌then◌else◌}
use qdt_test.Common.Tables.{update}
use qdt_test.Common.Rows.{of_in-append_last, of_in-update}

module _ {A : Type 0} (Clash : A → A → Type 0) where
  -- No row clashes with one above it.
  abbrev pub Apart : List A → Type 0
  Apart [] = Unit {0}
  Apart (x ∷ xs) = ((y : A) → Memᴰ y xs → ¬ Clash x y) × Apart xs

  pub Apart-append_last :
      (xs : List A) (a : A) → ((x : A) → Memᴰ x xs → ¬ Clash x a) → Apart xs → Apart (xs ++ a ∷ [])
  Apart-append_last [] a fresh h = ((λ y m. absurd (Memᴰ.not-nil m)), tt)
  Apart-append_last (x ∷ xs) a fresh h = (
    (λ y m c. elim (of_in-append_last xs a m) [
      | inl n ↦ h.0 y n c
      | inr e ↦ fresh x (Memᴰ.head refl) (rw e at c)
    ]),
    Apart-append_last xs a (λ z m. fresh z (Memᴰ.tail m)) h.1,
  )

  pub Apart-update_mem :
      (p : A → Bool) (f : A → A) (xs : List A)
      → ((x y : A)
          → Memᴰ x xs
          → Memᴰ y xs
          → Clash (if p x then f x else x) (if p y then f y else y)
          → Clash x y)
      → Apart xs
      → Apart (update p f xs)
  Apart-update_mem p f [] keep h = tt
  Apart-update_mem p f (x ∷ xs) keep h = (
    (λ y m c.
        let (z, n, e) = of_in-update p f xs m in
        h.0 z n (keep x z (Memᴰ.head refl) (Memᴰ.tail n) (rw e at c))),
    Apart-update_mem p f xs (λ z w m n. keep z w (Memᴰ.tail m) (Memᴰ.tail n)) h.1,
  )

  pub Apart-update :
      (p : A → Bool) (f : A → A) (xs : List A)
      → ((x y : A) → Clash (if p x then f x else x) (if p y then f y else y) → Clash x y)
      → Apart xs
      → Apart (update p f xs)
  Apart-update p f xs keep h = Apart-update_mem p f xs (λ x y _ _. keep x y) h

  -- Two rows that clash in one order and the other are one row.
  pub Apart-eq :
      {x y : A} (xs : List A)
      → Apart xs
      → ((a b : A) → Clash a b → Clash b a)
      → Memᴰ x xs
      → Memᴰ y xs
      → Clash x y
      → x ≡ y
  Apart-eq [] h sym_c m n c = elim m [ ]
  Apart-eq (z ∷ xs) h sym_c (Memᴰ.head e) (Memᴰ.head e') c = cc
  Apart-eq (z ∷ xs) h sym_c (Memᴰ.head e) (Memᴰ.tail n) c = absurd (h.0 _ n (rw e at c))
  Apart-eq (z ∷ xs) h sym_c (Memᴰ.tail m) (Memᴰ.head e) c = absurd (h.0 _ m (sym_c _ _ (rw e at c)))
  Apart-eq (z ∷ xs) h sym_c (Memᴰ.tail m) (Memᴰ.tail n) c = Apart-eq xs h.1 sym_c m n c
