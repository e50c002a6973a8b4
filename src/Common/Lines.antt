-- ===== src/Common/Lines.antt =====
-- Lines of a text: the pieces that cutting gives, put together and cut again.
use Prim.Native.Char.{Char, code}
use Prim.Native.String.{String, ◌++◌ as ◌<>◌}
use mathlib.Core.Path.{subst, ◌≡◌, refl, ap, sym, ◌∙◌}
use mathlib.Core.Logic.{◌⊎◌, ◌≢◌, inl, inr}
use mathlib.Core.Bool.{false}
use mathlib.Core.List.{List, [], ◌∷◌}
use mathlib.Core.List.{◌++◌}
use native.Mathlib.Omega.{arith}
use text.Mathlib.TextLemmas.{nil-append, cons-append, tail-eq_of_cons-eq, nil≢cons}
use signalwire_node.Common.Tests.{Bool-cases, eqb}
use signalwire_node.Common.Lists.{All}
use signalwire_node.Common.Text.{
  is_end, push, split_lines, join_lines, split_first, split-end, split-inside, return_char,
  newline_char,
}

abbrev pub IsLine : String → Type 0
IsLine l = split_lines l ≡ l ∷ []

push-append :
    (c : Char) (l : String) (ms ns : List String) → push c (l ∷ (ms ++ ns)) ≡ push c (l ∷ ms) ++ ns
push-append c l ms ns = refl

end-append : (s : String) → "\r\n" <> s ≡ String.◌∷◌ return_char (String.◌∷◌ newline_char s)
end-append s =
    cons-append return_char "\n" s
    ∙ ap (String.◌∷◌ return_char)
        (cons-append newline_char "" s ∙ ap (String.◌∷◌ newline_char) (nil-append s))

split-end_append : (s : String) → split_lines ("\r\n" <> s) ≡ "" ∷ split_lines s
split-end_append s = ap split_lines (end-append s) ∙ split-end return_char newline_char s refl

cons2 :
    (c d : Char) (s t : String)
    → (String.◌∷◌ c (String.◌∷◌ d s)) <> t ≡ String.◌∷◌ c (String.◌∷◌ d (s <> t))
cons2 c d s t = cons-append c (String.◌∷◌ d s) t ∙ ap (String.◌∷◌ c) (cons-append d s t)

no_end : (c d : Char) → code d ≢ 10 → is_end c d ≡ false
no_end c d h = ground arith

pub split-append : (s t : String) → split_lines (s <> "\r\n" <> t) ≡ split_lines s ++ split_lines t
unfolding split_lines
split-append String.[] t = ap split_lines (nil-append ("\r\n" <> t)) ∙ split-end_append t
split-append (String.◌∷◌ c String.[]) t =
    ap split_lines
      (cons-append c "" ("\r\n" <> t) ∙ ap (String.◌∷◌ c) (nil-append ("\r\n" <> t) ∙ end-append t))
    ∙ split-inside c return_char (String.◌∷◌ newline_char t)
        (no_end c return_char (λ e. omega (arith, e)))
    ∙ ap (push c) (ap split_lines (sym (end-append t)) ∙ split-end_append t)
split-append (String.◌∷◌ c (String.◌∷◌ d s)) t = elim (Bool-cases (is_end c d)) [
  | inl e ↦
      ap split_lines (cons2 c d s ("\r\n" <> t))
      ∙ split-end c d (s <> "\r\n" <> t) e
      ∙ ap (◌∷◌ "") (split-append s t)
      ∙ ap (λ x. x ++ split_lines t) (sym (split-end c d s e))
  | inr e ↦
      let (l, ms, h) = split_first (String.◌∷◌ d s) in
      ap split_lines (cons2 c d s ("\r\n" <> t))
      ∙ split-inside c d (s <> "\r\n" <> t) e
      ∙ ap (push c) (
          ap split_lines (sym (cons-append d s ("\r\n" <> t)))
          ∙ split-append (String.◌∷◌ d s) t
          ∙ ap (λ x. x ++ split_lines t) h)
      ∙ push-append c l ms (split_lines t)
      ∙ ap (λ x. x ++ split_lines t) (ap (push c) (sym h) ∙ sym (split-inside c d s e))
]

-- Lines that are put together are the lines of the result.
pub split-join :
    (l : String) (ls : List String)
    → All IsLine (l ∷ ls)
    → split_lines (join_lines (l ∷ ls)) ≡ l ∷ ls
unfolding join_lines
split-join l [] (h, _) = h
split-join l (m ∷ ls) (h, hs) =
    split-append l (join_lines (m ∷ ls))
    ∙ ap (λ x. x ++ split_lines (join_lines (m ∷ ls))) h
    ∙ ap (◌∷◌ l) (split-join m ls hs)

first_char :
    (d : Char) (s : String)
    → (l : String) × (ms : List String) × (split_lines (String.◌∷◌ d s) ≡ l ∷ ms)
      × ((l ≡ "") ⊎ ((t : String) × (l ≡ String.◌∷◌ d t)))
unfolding split_lines
first_char d String.[] = (_, _, refl, inr ("", refl))
first_char d (String.◌∷◌ e s) = elim (Bool-cases (is_end d e)) [
  | inl h ↦ (_, _, split-end d e s h, inl refl)
  | inr h ↦
      let (l, ms, f) = split_first (String.◌∷◌ e s) in
      (_, _, split-inside d e s h ∙ ap (push d) f, inr (l, refl))
]

cons-IsLine :
    (c d : Char) (l : String)
    → is_end c d ≡ false
    → IsLine l
    → (l ≡ "") ⊎ ((t : String) × (l ≡ String.◌∷◌ d t))
    → IsLine (String.◌∷◌ c l)
unfolding split_lines
cons-IsLine c d l e h (inl p) = rw p refl
cons-IsLine c d l e h (inr (t, p)) =
    ap (λ x. split_lines (String.◌∷◌ c x)) p
    ∙ split-inside c d t e
    ∙ ap (push c) (ap split_lines (sym p) ∙ h)

-- Cutting gives lines.
pub split-IsLine : (s : String) → All IsLine (split_lines s)
unfolding split_lines
split-IsLine String.[] = (refl, tt)
split-IsLine (String.◌∷◌ c String.[]) = (refl, tt)
split-IsLine (String.◌∷◌ c (String.◌∷◌ d s)) = elim (Bool-cases (is_end c d)) [
  | inl e ↦ rw (split-end c d s e) (refl, split-IsLine s)
  | inr e ↦
      let (l, ms, f, g) = first_char d s in
      let (a, rest) = rw f at (split-IsLine (String.◌∷◌ d s)) in
      rw (split-inside c d s e ∙ ap (push c) f) (cons-IsLine c d l e a g, rest)
]

first_of : List String → String
first_of [] = ""
first_of (l ∷ ls) = l

rest_of : List String → List String
rest_of [] = []
rest_of (l ∷ ls) = ls

-- A line of at least two characters has no line end between them, and goes on as a line.
tail-IsLine :
    (c d : Char) (s : String)
    → IsLine (String.◌∷◌ c (String.◌∷◌ d s))
    → (is_end c d ≡ false) × IsLine (String.◌∷◌ d s)
unfolding first_of rest_of
tail-IsLine c d s h = elim (Bool-cases (is_end c d)) [
  | inl e ↦ absurd (nil≢cons (ap first_of (sym (split-end c d s e) ∙ h)))
  | inr e ↦
      let (l, ms, f) = split_first (String.◌∷◌ d s) in
      let g = ap (push c) (sym f) ∙ sym (split-inside c d s e) ∙ h in
      (
        e,
        f
            ∙ ap (λ x. x ∷ ms) (tail-eq_of_cons-eq (ap first_of g))
            ∙ ap (◌∷◌ (String.◌∷◌ d s)) (ap rest_of g),
      )
]

pub inside-IsLine :
    (c d : Char) (s : String)
    → is_end c d ≡ false
    → IsLine (String.◌∷◌ d s)
    → IsLine (String.◌∷◌ c (String.◌∷◌ d s))
inside-IsLine c d s e h = split-inside c d s e ∙ ap (push c) h

not_end : (c d : Char) → eqb (code d) 10 ≡ false → is_end c d ≡ false
not_end c d h = ground arith

-- A line stays one with a text behind it that is a line and does not start with a line feed.
pub append-IsLine :
    (s : String) (c : Char) (t : String)
    → eqb (code c) 10 ≡ false
    → IsLine s
    → IsLine (String.◌∷◌ c t)
    → IsLine (s <> String.◌∷◌ c t)
append-IsLine String.[] c t e h k = subst IsLine (sym (nil-append (String.◌∷◌ c t))) k
append-IsLine (String.◌∷◌ a String.[]) c t e h k =
    subst IsLine
      (sym (cons-append a "" (String.◌∷◌ c t) ∙ ap (String.◌∷◌ a) (nil-append (String.◌∷◌ c t))))
      (inside-IsLine a c t (not_end a c e) k)
append-IsLine (String.◌∷◌ a (String.◌∷◌ b s)) c t e h k =
    let (f, g) = tail-IsLine a b s h in
    subst IsLine (sym (cons2 a b s (String.◌∷◌ c t))) (
      inside-IsLine a b (s <> String.◌∷◌ c t) f (
        subst IsLine (cons-append b s (String.◌∷◌ c t)) (append-IsLine (String.◌∷◌ b s) c t e g k)))
