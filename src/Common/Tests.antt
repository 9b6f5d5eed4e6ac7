-- ===== src/Common/Tests.antt =====
-- Boolean tests on numbers and on texts, and the conditional. A Go string is its bytes.
use Prim.Native.Nat.{ℕ, compare, Ordering}
use Prim.Native.Char.{code}
use Prim.Native.String.{String}
use mathlib.Core.Path.{◌≡◌, refl, ap₂}
use mathlib.Core.Logic.{◌⊎◌, inl, inr}
use mathlib.Core.Bool.{Bool, true, false}
use mathlib.Core.Option.{Option, none, some}
use mathlib.Core.List.{List, [], ◌∷◌}
use native.Mathlib.Omega.{arith}
use native.Mathlib.Decide.{ℕ_discrete}

abbrev pub Text : Type 0
Text = List ℕ

-- The bytes of an ASCII literal.
abbrev pub codes : String → Text
codes String.[] = []
codes (String.◌∷◌ c s) = code c ∷ codes s

nil_ne_cons : {c : ℕ} {s : Text} → [] ≡ c ∷ s → ⊥
nil_ne_cons e = cc

cons_ne_nil : {c : ℕ} {s : Text} → c ∷ s ≡ [] → ⊥
cons_ne_nil e = cc

head_eq : {c d : ℕ} {s t : Text} → c ∷ s ≡ d ∷ t → c ≡ d
head_eq e = cc

tail_eq : {c d : ℕ} {s t : Text} → c ∷ s ≡ d ∷ t → s ≡ t
tail_eq e = cc

cons_dec : {c d : ℕ} {s t : Text} → Dec (c ≡ d) → Dec (s ≡ t) → Dec (c ∷ s ≡ d ∷ t)
cons_dec (yes p) (yes q) = yes (ap₂ ◌∷◌ p q)
cons_dec (yes p) (no q) = no (λ e. q (tail_eq e))
cons_dec (no p) _ = no (λ e. p (head_eq e))

-- Equality of texts is decided byte by byte.
unfoldable pub text_dec : (s t : Text) → Dec (s ≡ t)
unfolding ℕ_discrete cons_dec nil_ne_cons cons_ne_nil head_eq tail_eq
text_dec [] [] = yes refl
text_dec [] (d ∷ t) = no nil_ne_cons
text_dec (c ∷ s) [] = no cons_ne_nil
text_dec (c ∷ s) (d ∷ t) = cons_dec (ℕ_discrete c d) (text_dec s t)

abbrev pub ltb : ℕ → ℕ → Bool
ltb a b = elim (compare a b) [ Ordering.lt ↦ true | _ ↦ false ]

abbrev pub leb : ℕ → ℕ → Bool
leb a b = elim (compare a b) [ Ordering.gt ↦ false | _ ↦ true ]

infix 50 ◌==◌
abbrev pub ◌==◌ : ℕ → ℕ → Bool
a == b = elim (compare a b) [ Ordering.eq ↦ true | _ ↦ false ]

abbrev pub text_eq : Text → Text → Bool
text_eq a b = elim (text_dec a b) [ yes _ ↦ true | no _ ↦ false ]

infix 1 if◌then◌else◌
abbrev pub if◌then◌else◌ {ℓ} : {A : Type ℓ} → Bool → A → A → A
if true then x else y = x
if false then x else y = y

-- The binary collation: byte by byte, a prefix first.
abbrev pub text_ltb : Text → Text → Bool
text_ltb [] [] = false
text_ltb [] (d ∷ t) = true
text_ltb (c ∷ s) [] = false
text_ltb (c ∷ s) (d ∷ t) =
    let rest = text_ltb s t in if ltb c d then true else if c == d then rest else false

pub Bool-cases : (b : Bool) → (b ≡ true) ⊎ (b ≡ false)
Bool-cases true = inl refl
Bool-cases false = inr refl

pub Option-cases {ℓ} : {A : Type ℓ} (o : Option A) → (o ≡ none) ⊎ ((a : A) × (o ≡ some a))
Option-cases none = inl refl
Option-cases (some a) = inr (a, refl)

-- A test in one of several shapes, turned into what it says.
pub text_eq_refl : (a : Text) → text_eq a a ≡ true
text_eq_refl a = ground arith
