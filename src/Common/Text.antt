-- ===== src/Common/Text.antt =====
-- Comparisons of texts and numbers as the source writes them (`===`, truthiness, `if`).
use Prim.Native.Nat.{ℕ, compare, Ordering}
use Prim.Native.String.{String}
use mathlib.Core.Path.{◌≡◌, refl}
use mathlib.Core.Logic.{◌⊎◌, inl, inr, ite}
use mathlib.Core.Bool.{Bool, true, false}
use mathlib.Core.Option.{Option, none, some}
use native.Mathlib.Omega.{arith}
use text.Mathlib.Text.{◌==◌ as text_eq}
use text.Mathlib.TextEquality.{eq_iff}

-- To split on a computed value and keep the equation.
abbrev pub Bool-cases : (b : Bool) → (b ≡ true) ⊎ (b ≡ false)
Bool-cases true = inl refl
Bool-cases false = inr refl

-- What holds where a test fails, as an alternative to the test.
pub test_or {ℓ} : {P : Type ℓ} (b : Bool) → (b ≡ false → P) → (b ≡ true) ⊎ P
test_or true h = inl refl
test_or false h = inr (h refl)

pub Option-cases {ℓ} : {A : Type ℓ} (o : Option A) → (o ≡ none) ⊎ ((a : A) × (o ≡ some a))
Option-cases none = inl refl
Option-cases (some a) = inr (a, refl)

pub not_text_eq : (a b : String) → text_eq a b ≡ false → ¬ (a ≡ b)
not_text_eq a b h e = cc ((eq_iff a b).1 e)

-- Two texts are equal or not; the model branches on this decision.
unfoldable pub str_dec : Discrete String
str_dec a b = elim (Bool-cases (text_eq a b)) [
  | inl e ↦ yes ((eq_iff a b).0 e)
  | inr e ↦ no (not_text_eq a b e)
]

-- `a === b` on texts.
infix 50 ◌==◌
abbrev pub ◌==◌ : String → String → Bool
a == b = ite (str_dec a b) true false

infix 1 if◌then◌else◌
abbrev pub if◌then◌else◌ {ℓ} : {A : Type ℓ} → Bool → A → A → A
if true then x else y = x
if false then x else y = y

-- `a < b` and `a <= b` on numbers.
abbrev pub ltb : ℕ → ℕ → Bool
ltb a b = elim (compare a b) [ Ordering.lt ↦ true | _ ↦ false ]

abbrev pub leb : ℕ → ℕ → Bool
leb a b = elim (compare a b) [ Ordering.gt ↦ false | _ ↦ true ]

-- An optional text as JavaScript tests it: `undefined`, `null` and "" are falsy.
abbrev pub truthy : Option String → Option String
truthy none = none
truthy (some s) = ite (str_dec s "") none (some s)

-- `o ?? d`
abbrev pub or_else {ℓ} : {A : Type ℓ} → Option A → A → A
or_else none d = d
or_else (some a) d = a

-- `!given || value === given`, for an optional argument that narrows a search.
abbrev pub matches_given : Option String → String → Bool
matches_given given value = elim (truthy given) [ none ↦ true | some c ↦ value == c ]

abbrev pub Differ : String → String → Type 0
Differ a b = ¬ (a ≡ b)

-- Texts that the test tells apart are different.
pub ne_of_test : (a b : String) → (a == b) ≡ false → Differ a b
ne_of_test a b h = ground arith
