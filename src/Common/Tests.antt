-- ===== src/Common/Tests.antt =====
-- Boolean tests, the conditional, and case splits that keep their equation.
use Prim.Native.Nat.{ℕ, compare, Ordering}
use Prim.Native.String.{String}
use mathlib.Core.Path.{◌≡◌, refl}
use mathlib.Core.Logic.{◌↔◌, ◌⊎◌, inl, inr, ◌≢◌}
use mathlib.Core.Bool.{Bool, true, false}
use mathlib.Core.Option.{Option, none, some}
use native.Mathlib.Omega.{arith}
use text.Mathlib.Text.{◌==◌}
use text.Mathlib.TextEquality.{eq_iff}

abbrev pub ltb : ℕ → ℕ → Bool
ltb a b = elim (compare a b) [ Ordering.lt ↦ true | _ ↦ false ]

abbrev pub leb : ℕ → ℕ → Bool
leb a b = elim (compare a b) [ Ordering.gt ↦ false | _ ↦ true ]

abbrev pub eqb : ℕ → ℕ → Bool
eqb a b = elim (compare a b) [ Ordering.eq ↦ true | _ ↦ false ]

infix 1 if◌then◌else◌
abbrev pub if◌then◌else◌ {ℓ} : {A : Type ℓ} → Bool → A → A → A
if true then x else y = x
if false then x else y = y

pub eqb_iff : (a b : ℕ) → (eqb a b ≡ true) ↔ (a ≡ b)
eqb_iff a b = ground arith

pub Bool-cases : (b : Bool) → (b ≡ true) ⊎ (b ≡ false)
Bool-cases true = inl refl
Bool-cases false = inr refl

pub Option-cases {ℓ} : {A : Type ℓ} (o : Option A) → (o ≡ none) ⊎ ((a : A) × (o ≡ some a))
Option-cases none = inl refl
Option-cases (some a) = inr (a, refl)

-- A text test fails exactly at different texts.
pub eq-false : (s t : String) → s ≢ t → (s == t) ≡ false
eq-false s t h = elim (Bool-cases (s == t)) [ inl e ↦ absurd (h ((eq_iff s t).0 e)) | inr e ↦ e ]

-- Texts that the test tells apart differ.
pub differ : (s t : String) → (s == t) ≡ false → s ≢ t
differ s t h e = ground (arith, h, (eq_iff s t).1 e)

-- A conditional whose test is known, and what holds of both branches.
module _ {ℓ} {A : Type ℓ} where
  pub if-true : {b : Bool} (x y : A) → b ≡ true → (if b then x else y) ≡ x
  if-true x y h = rw h refl

  pub if-false : {b : Bool} (x y : A) → b ≡ false → (if b then x else y) ≡ y
  if-false x y h = rw h refl

  pub if-both {κ} :
      (P : A → Type κ) (b : Bool) (x y : A)
      → (b ≡ true → P x)
      → (b ≡ false → P y)
      → P (if b then x else y)
  if-both P true x y f g = f refl
  if-both P false x y f g = g refl
