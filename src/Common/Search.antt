-- ===== src/Common/Search.antt =====
-- Searching a text that has been added to, and a list of which an element has been changed.
use Prim.Native.Char.{Char, code}
use Prim.Native.String.{◌++◌ as ◌<>◌}
use text.Mathlib.TextLemmas.{nil-append, cons-append}
use signalwire_node.Common.{
  ◌≡◌, ◌≢◌, refl, ap, sym, ◌∙◌, Bool, true, false, ◌||◌, Option, none, some, String, arith, eqb,
  Bool-cases, Option-cases, inl, inr,
}
use signalwire_node.Common.Dict.{is_some}
use signalwire_node.Common.Text.{strip, begins, contains}

-- A character that a text does not have.
abbrev pub Avoids : Char → String → Type 0
Avoids x String.[] = Unit
Avoids x (String.◌∷◌ c s) = (eqb (code c) (code x) ≡ false) × Avoids x s

abbrev pub extend : String → Option String → Option String
extend t none = none
extend t (some r) = some (r <> t)

none-some : (a : String) → none ≢ some a
none-some a h = ground (arith, h)

strip_same :
    (p c : Char) (ps s : String)
    → eqb (code p) (code c) ≡ true
    → strip (String.◌∷◌ p ps) (String.◌∷◌ c s) ≡ strip ps s
unfolding strip
strip_same p c ps s e = rw (e, strip) refl

strip_other :
    (p c : Char) (ps s : String)
    → eqb (code p) (code c) ≡ false
    → strip (String.◌∷◌ p ps) (String.◌∷◌ c s) ≡ none
unfolding strip
strip_other p c ps s e = rw (e, strip) refl

-- What is stripped of a text is stripped of a longer one.
pub strip-append :
    (p s t : String) (r : String) → strip p s ≡ some r → strip p (s <> t) ≡ some (r <> t)
unfolding strip
strip-append String.[] s t r h = ground (arith, h)
strip-append (String.◌∷◌ p ps) String.[] t r h = absurd (ground arith)
strip-append (String.◌∷◌ p ps) (String.◌∷◌ c s) t r h = elim (Bool-cases (eqb (code p) (code c))) [
  | inl e ↦
      ap (strip (String.◌∷◌ p ps)) (cons-append c s t)
      ∙ strip_same p c ps (s <> t) e
      ∙ strip-append ps s t r (sym (strip_same p c ps s e) ∙ h)
  | inr e ↦ absurd (none-some r (sym (strip_other p c ps s e) ∙ h))
]

pub strip-avoiding :
    (x : Char) (p s t : String)
    → Avoids x p
    → strip p (s <> String.◌∷◌ x t) ≡ extend (String.◌∷◌ x t) (strip p s)
unfolding strip
strip-avoiding x String.[] s t h = refl
strip-avoiding x (String.◌∷◌ p ps) String.[] t (a, h) =
    ap (strip (String.◌∷◌ p ps)) (nil-append (String.◌∷◌ x t)) ∙ strip_other p x ps t a
strip-avoiding x (String.◌∷◌ p ps) (String.◌∷◌ c s) t (a, h) =
    elim (Bool-cases (eqb (code p) (code c))) [
      | inl e ↦
          ap (strip (String.◌∷◌ p ps)) (cons-append c s (String.◌∷◌ x t))
          ∙ strip_same p c ps (s <> String.◌∷◌ x t) e
          ∙ strip-avoiding x ps s t h
          ∙ ap (extend (String.◌∷◌ x t)) (sym (strip_same p c ps s e))
      | inr e ↦
          ap (strip (String.◌∷◌ p ps)) (cons-append c s (String.◌∷◌ x t))
          ∙ strip_other p c ps (s <> String.◌∷◌ x t) e
          ∙ ap (extend (String.◌∷◌ x t)) (sym (strip_other p c ps s e))
    ]

is_some-extend : (t : String) (o : Option String) → is_some (extend t o) ≡ is_some o
is_some-extend t none = refl
is_some-extend t (some r) = refl

pub begins-avoiding :
    (x : Char) (p s t : String) → Avoids x p → begins p (s <> String.◌∷◌ x t) ≡ begins p s
begins-avoiding x p s t h =
    ap is_some (strip-avoiding x p s t h) ∙ is_some-extend (String.◌∷◌ x t) (strip p s)

pub begins-append : (p s t : String) → begins p s ≡ true → begins p (s <> t) ≡ true
begins-append p s t h = elim (Option-cases (strip p s)) [
  | inl e ↦ absurd (ground (arith, e))
  | inr (r, e) ↦ ap is_some (strip-append p s t r e)
]

pub contains-avoiding :
    (x : Char) (p s t : String)
    → Avoids x p
    → contains p "" ≡ false
    → contains p (String.◌∷◌ x t) ≡ false
    → contains p (s <> String.◌∷◌ x t) ≡ contains p s
unfolding contains
contains-avoiding x p String.[] t h k m = rw (nil-append (String.◌∷◌ x t)) (m ∙ sym k)
contains-avoiding x p (String.◌∷◌ c s) t h k m =
    ap (contains p) (cons-append c s (String.◌∷◌ x t))
    ∙ ap (λ b. b || contains p (s <> String.◌∷◌ x t))
        (ap (begins p) (sym (cons-append c s (String.◌∷◌ x t)))
          ∙ begins-avoiding x p (String.◌∷◌ c s) t h)
    ∙ ap (λ b. begins p (String.◌∷◌ c s) || b) (contains-avoiding x p s t h k m)

-- A text that starts with a pattern contains it.
pub begins-contains : (p s : String) → begins p s ≡ true → contains p s ≡ true
unfolding contains
begins-contains p String.[] h = h
begins-contains p (String.◌∷◌ c s) h = rw h refl

or-right : (a b : Bool) → b ≡ true → (a || b) ≡ true
or-right a b h = ground arith

pub contains-suffix : (p s t : String) → contains p t ≡ true → contains p (s <> t) ≡ true
unfolding contains
contains-suffix p String.[] t h = rw (nil-append t) h
contains-suffix p (String.◌∷◌ c s) t h =
    ap (contains p) (cons-append c s t)
    ∙ or-right (begins p (String.◌∷◌ c (s <> t))) (contains p (s <> t)) (contains-suffix p s t h)

pub contains-append : (p s t : String) → contains p s ≡ true → contains p (s <> t) ≡ true
unfolding contains
contains-append p String.[] t h = begins-contains p ("" <> t) (begins-append p "" t h)
contains-append p (String.◌∷◌ c s) t h = elim (Bool-cases (begins p (String.◌∷◌ c s))) [
  | inl e ↦ begins-contains p (String.◌∷◌ c s <> t) (begins-append p (String.◌∷◌ c s) t e)
  | inr e ↦
      ap (contains p) (cons-append c s t)
      ∙ or-right (begins p (String.◌∷◌ c (s <> t))) (contains p (s <> t))
          (contains-append p s t (rw e at h))
]

begins_self : (p : String) → strip p p ≡ some ""
unfolding strip
begins_self String.[] = refl
begins_self (String.◌∷◌ c p) =
    let e : eqb (code c) (code c) ≡ true = ground arith in rw (e, strip) (begins_self p)

-- A text contains what it starts with.
pub contains-self_append : (p t : String) → contains p (p <> t) ≡ true
contains-self_append p t = contains-append p p t (begins-contains p p (ap is_some (begins_self p)))
