-- ===== src/Common/Text.antt =====
-- Text cut at line ends, searched by the tests that the source writes as regular expressions, and
-- lists of lines.
use Prim.Native.Char.{Char, code}
use Prim.Native.Nat.{ℕ, zero, suc, ◌-◌}
use mathlib.Core.Option.{Option, none, some}
use signalwire_node.Common.Dict.{is_some}
use Prim.Native.String.{String, ◌++◌ as ◌<>◌}
use mathlib.Core.Path.{◌≡◌, refl, ap, sym, ◌∙◌}
use mathlib.Core.Logic.{inl, inr}
use mathlib.Core.Bool.{Bool, true, false, ◌&&◌, ◌||◌}
use mathlib.Core.List.{List, [], ◌∷◌}
use native.Mathlib.Omega.{arith}
use text.Mathlib.TextEquality.{Char-path}
use text.Mathlib.TextLemmas.{nil-append, cons-append}
use signalwire_node.Common.Tests.{if◌then◌else◌, eqb, Bool-cases}

abbrev pub is_end : Char → Char → Bool
is_end c d = eqb (code c) 13 && eqb (code d) 10

-- A character before the first line.
abbrev pub push : Char → List String → List String
push c [] = String.◌∷◌ c String.[] ∷ []
push c (l ∷ ls) = String.◌∷◌ c l ∷ ls

-- `text.split('\r\n')`
unfoldable pub split_lines : String → List String
split_lines String.[] = String.[] ∷ []
split_lines (String.◌∷◌ c String.[]) = String.◌∷◌ c String.[] ∷ []
split_lines (String.◌∷◌ c (String.◌∷◌ d s)) = elim (is_end c d) [
  | true ↦ String.[] ∷ split_lines s
  | false ↦ push c (split_lines (String.◌∷◌ d s))
]

-- `lines.join('\r\n')`
unfoldable pub join_lines : List String → String
join_lines [] = String.[]
join_lines (l ∷ []) = l
join_lines (l ∷ m ∷ ls) = l <> "\r\n" <> join_lines (m ∷ ls)

join-push : (c : Char) (ls : List String) → join_lines (push c ls) ≡ String.◌∷◌ c (join_lines ls)
unfolding join_lines
join-push c [] = refl
join-push c (l ∷ []) = refl
join-push c (l ∷ m ∷ ls) = cons-append c l ("\r\n" <> join_lines (m ∷ ls))

join-nil_cons :
    (l : String) (ls : List String)
    → join_lines (String.[] ∷ l ∷ ls) ≡ "\r\n" <> join_lines (l ∷ ls)
unfolding join_lines
join-nil_cons l ls = nil-append ("\r\n" <> join_lines (l ∷ ls))

push_first :
    (c : Char) (ls : List String) → (l : String) × (ms : List String) × (push c ls ≡ l ∷ ms)
push_first c [] = (_, _, refl)
push_first c (l ∷ ls) = (_, _, refl)

pub split-end :
    (c d : Char) (s : String)
    → is_end c d ≡ true
    → split_lines (String.◌∷◌ c (String.◌∷◌ d s)) ≡ String.[] ∷ split_lines s
unfolding split_lines
split-end c d s e = rw (e, split_lines) refl

pub split-inside :
    (c d : Char) (s : String)
    → is_end c d ≡ false
    → split_lines (String.◌∷◌ c (String.◌∷◌ d s)) ≡ push c (split_lines (String.◌∷◌ d s))
unfolding split_lines
split-inside c d s e = rw (e, split_lines) refl

pub split_first : (s : String) → (l : String) × (ms : List String) × (split_lines s ≡ l ∷ ms)
unfolding split_lines
split_first String.[] = (_, _, refl)
split_first (String.◌∷◌ c String.[]) = (_, _, refl)
split_first (String.◌∷◌ c (String.◌∷◌ d s)) = elim (Bool-cases (is_end c d)) [
  | inl e ↦ (_, _, split-end c d s e)
  | inr e ↦
      let (l, ms, h) = push_first c (split_lines (String.◌∷◌ d s)) in
      (l, ms, split-inside c d s e ∙ h)
]

is_end-codes : (c d : Char) → is_end c d ≡ true → (code c ≡ 13) × (code d ≡ 10)
is_end-codes c d e = ground arith

abbrev pub return_char : Char
return_char = "\r"

abbrev pub newline_char : Char
newline_char = "\n"

end_chars :
    (c d : Char) (s : String) → is_end c d ≡ true → "\r\n" <> s ≡ String.◌∷◌ c (String.◌∷◌ d s)
end_chars c d s e =
    let (p, q) = is_end-codes c d e in
    let f = Char-path c return_char p in
    let g = Char-path d newline_char q in
    rw (f, g)
      (cons-append return_char "\n" s
        ∙ ap (String.◌∷◌ return_char)
            (cons-append newline_char "" s ∙ ap (String.◌∷◌ newline_char) (nil-append s)))

-- Cutting a text and joining the lines gives the text.
pub join-split : (s : String) → join_lines (split_lines s) ≡ s
unfolding join_lines split_lines
join-split String.[] = refl
join-split (String.◌∷◌ c String.[]) = refl
join-split (String.◌∷◌ c (String.◌∷◌ d s)) = elim (Bool-cases (is_end c d)) [
  | inl e ↦
      let (l, ms, f) = split_first s in
      ap join_lines (split-end c d s e ∙ ap (◌∷◌ String.[]) f)
      ∙ join-nil_cons l ms
      ∙ ap (λ x. "\r\n" <> x) (ap join_lines (sym f) ∙ join-split s)
      ∙ end_chars c d s e
  | inr e ↦
      ap join_lines (split-inside c d s e)
      ∙ join-push c (split_lines (String.◌∷◌ d s))
      ∙ ap (String.◌∷◌ c) (join-split (String.◌∷◌ d s))
]

-- What follows a literal at the start of a text.
unfoldable pub strip : String → String → Option String
strip String.[] s = some s
strip (String.◌∷◌ p ps) String.[] = none
strip (String.◌∷◌ p ps) (String.◌∷◌ c s) = elim (eqb (code p) (code c)) [
  | true ↦ strip ps s
  | false ↦ none
]

-- `/^literal/.test(text)` and `/literal/.test(text)`
abbrev pub begins : String → String → Bool
begins p s = is_some (strip p s)

unfoldable pub contains : String → String → Bool
contains p String.[] = begins p String.[]
contains p (String.◌∷◌ c s) = begins p (String.◌∷◌ c s) || contains p s

module _ {ℓ} {A : Type ℓ} where
  -- `findIndex`; `none` is -1.
  unfoldable pub find_index : (A → Bool) → List A → Option ℕ
  find_index p [] = none
  find_index p (x ∷ xs) =
      if p x then some 0 else (elim (find_index p xs) [ none ↦ none | some i ↦ some (suc i) ])

  -- `list[i] = f(list[i])` of an index in range.
  unfoldable pub change_at : ℕ → (A → A) → List A → List A
  change_at i f [] = []
  change_at zero f (x ∷ xs) = f x ∷ xs
  change_at (suc i) f (x ∷ xs) = x ∷ change_at i f xs

  abbrev pub take : ℕ → List A → List A
  take zero xs = []
  take (suc n) [] = []
  take (suc n) (x ∷ xs) = x ∷ take n xs

  abbrev pub drop : ℕ → List A → List A
  drop zero xs = xs
  drop (suc n) [] = []
  drop (suc n) (x ∷ xs) = drop n xs

  -- `list.slice(from, to)`, of bounds that are not negative.
  abbrev pub slice : ℕ → ℕ → List A → List A
  slice from to xs = take (to - from) (drop from xs)
