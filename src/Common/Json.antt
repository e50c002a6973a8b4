-- ===== src/Common/Json.antt =====
-- The values that requests are built from. `negsuc n` is -(n + 1).
use Prim.Native.Nat.{ℕ}
use Prim.Native.String.{String}
use mathlib.Core.Bool.{Bool}
use mathlib.Core.Option.{Option, none, some}
use mathlib.Core.List.{List, [], ◌∷◌}

pub data ℤ : Type 0 where
  pos : ℕ → ℤ
  negsuc : ℕ → ℤ

mutual
  pub data Json : Type 0 where
    undefined : Json
    null : Json
    bool : Bool → Json
    num : ℤ → Json
    str : String → Json
    arr : Items → Json
    obj : Fields → Json

  pub data Items : Type 0 where
    nil : Items
    cons : Json → Items → Items

  pub data Fields : Type 0 where
    end : Fields
    field : String → Json → Fields → Fields

-- An object literal.
abbrev pub fields : List (String × Json) → Fields
fields [] = end
fields ((k, v) ∷ r) = field k v (fields r)

abbrev pub object : List (String × Json) → Json
object r = obj (fields r)

abbrev pub items : List Json → Items
items [] = nil
items (v ∷ r) = cons v (items r)

abbrev pub array : List Json → Json
array r = arr (items r)

abbrev pub text_or_undefined : Option String → Json
text_or_undefined none = undefined
text_or_undefined (some s) = str s
