-- ===== src/Common/Dict.antt =====
-- A JavaScript object used as a map: an association list with text keys. A write to a key that is
-- there keeps its place, a new key goes to the end, and `delete` removes the key.
use Prim.Native.String.{String}
use mathlib.Core.Path.{◌≡◌, refl, subst}
use mathlib.Core.Logic.{inl, inr}
use mathlib.Core.Bool.{Bool, true, false}
use mathlib.Core.List.{List, [], ◌∷◌}
use mathlib.Core.Option.{Option, none, some, some-injective}
use native.Mathlib.Omega.{arith}
use text.Mathlib.Text.{◌==◌}
use text.Mathlib.TextEquality.{eq_iff}
use signalwire_node.Common.Tests.{if◌then◌else◌, Bool-cases}

abbrev pub Dict {ℓ} : Type ℓ → Type ℓ
Dict V = List (String × V)

module _ {ℓ} {V : Type ℓ} where
  -- The value of a property, where the object has it.
  unfoldable pub lookup : String → Dict V → Option V
  lookup name [] = none
  lookup name ((own, held) ∷ others) = if own == name then some held else lookup name others

  -- `object[name] = given`
  unfoldable pub insert : String → V → Dict V → Dict V
  insert name given [] = (name, given) ∷ []
  insert name given ((own, held) ∷ others) =
      if own == name then (name, given) ∷ others else (own, held) ∷ insert name given others

  -- `delete object[name]`
  unfoldable pub delete : String → Dict V → Dict V
  delete name [] = []
  delete name ((own, held) ∷ others) =
      if own == name then delete name others else (own, held) ∷ delete name others

  -- `hasOwnProperty`.
  abbrev pub is_some : Option V → Bool
  is_some none = false
  is_some (some v) = true

  abbrev pub has : String → Dict V → Bool
  has name object = is_some (lookup name object)

  pub lookup-delete :
      (gone name : String) (object : Dict V)
      → lookup name (delete gone object) ≡ (if gone == name then none else lookup name object)
  unfolding lookup delete
  lookup-delete gone name [] = ground arith
  lookup-delete gone name ((own, held) ∷ others) =
      ground
        (lookup-delete gone name others, eq_iff own name, eq_iff gone name, eq_iff own gone, arith)

  pub lookup-insert :
      (set name : String) (given : V) (object : Dict V)
      → lookup name (insert set given object)
        ≡ (if set == name then some given else lookup name object)
  unfolding lookup insert
  lookup-insert set name given [] = refl
  lookup-insert set name given ((own, held) ∷ others) =
      ground (
        lookup-insert set name given others,
        eq_iff own name,
        eq_iff set name,
        eq_iff own set,
        arith,
      )

-- A predicate of every value.
module _ {ℓ κ} {V : Type ℓ} (Q : V → Type κ) where
  abbrev pub Values : Dict V → Type κ
  Values [] = Unit
  Values ((k, v) ∷ m) = Q v × Values m

  pub insert-Values : (k : String) (v : V) (m : Dict V) → Q v → Values m → Values (insert k v m)
  unfolding insert
  insert-Values k v [] q h = (q, tt)
  insert-Values k v ((j, w) ∷ m) q (a, h) = elim (Bool-cases (j == k)) [
    | inl e ↦ rw e (q, h)
    | inr e ↦ rw e (a, insert-Values k v m q h)
  ]

  pub delete-Values : (k : String) (m : Dict V) → Values m → Values (delete k m)
  unfolding delete
  delete-Values k [] h = tt
  delete-Values k ((j, w) ∷ m) (a, h) = elim (Bool-cases (j == k)) [
    | inl e ↦ rw e (delete-Values k m h)
    | inr e ↦ rw e (a, delete-Values k m h)
  ]

  pub lookup-Values : (k : String) (m : Dict V) {v : V} → lookup k m ≡ some v → Values m → Q v
  unfolding lookup
  lookup-Values k [] e h = cc
  lookup-Values k ((j, w) ∷ m) {v = v} e (a, h) = elim (Bool-cases (j == k)) [
    | inl t ↦ subst Q (some-injective _ _ (rw t at e)) a
    | inr t ↦ lookup-Values k m (rw t at e) h
  ]
