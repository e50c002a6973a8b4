-- ===== src/Common/Slices.antt =====
-- Slices and searches of a list that is put together from parts.
use signalwire_node.Common.{
  none, ℕ, zero, suc, inl, inr, Option-cases, ◌+◌, ◌-◌, ◌≤◌, ◌<◌, ◌≡◌, refl, ap, Bool, true, false,
  some, List, [], ◌∷◌, ◌++◌, arith, length, All,
}
use signalwire_node.Common.Text.{find_index, take, drop, slice}

module _ {ℓ} {A : Type ℓ} where
  abbrev pub Lacks : (A → Bool) → List A → Type 0
  Lacks p = All (λ x. p x ≡ false)

  pub Lacks-append : (p : A → Bool) (xs ys : List A) → Lacks p xs → Lacks p ys → Lacks p (xs ++ ys)
  Lacks-append p [] ys h k = k
  Lacks-append p (x ∷ xs) ys (a, h) k = (a, Lacks-append p xs ys h k)

  pub find_index-append :
      (p : A → Bool) (xs : List A) (y : A) (ys : List A)
      → Lacks p xs
      → p y ≡ true
      → find_index p (xs ++ y ∷ ys) ≡ some (length xs)
  unfolding find_index
  find_index-append p [] y ys h k = rw k refl
  find_index-append p (x ∷ xs) y ys (a, h) k = rw (a, find_index-append p xs y ys h k) refl

  take-append : (xs ys : List A) → take (length xs) (xs ++ ys) ≡ xs
  take-append [] ys = refl
  take-append (x ∷ xs) ys = ap (◌∷◌ x) (take-append xs ys)

  drop-append : (xs ys : List A) → drop (length xs) (xs ++ ys) ≡ ys
  drop-append [] ys = refl
  drop-append (x ∷ xs) ys = drop-append xs ys

  pub slice_first : (xs ys : List A) (n : ℕ) → n ≡ length xs → slice 0 n (xs ++ ys) ≡ xs
  slice_first xs ys n h = let e : n - 0 ≡ length xs = omega (arith, h) in rw e (take-append xs ys)

  pub slice_middle :
      (xs ys zs : List A) (i j : ℕ)
      → i ≡ length xs
      → j ≡ length xs + length ys
      → slice i j (xs ++ (ys ++ zs)) ≡ ys
  slice_middle xs ys zs i j h k =
      let e : j - i ≡ length ys = omega (arith, h, k) in
      rw (e, h, drop-append xs (ys ++ zs)) (take-append ys zs)

  pub slice_none : (xs : List A) (i j : ℕ) → j ≤ i → slice i j xs ≡ []
  slice_none xs i j h = let e : j - i ≡ 0 = omega (arith, h) in rw e refl

  take-drop :
      (xs ys : List A) (i n : ℕ)
      → i ≤ length xs
      → n ≡ length xs - i
      → take i (xs ++ ys) ++ take n (drop i (xs ++ ys)) ≡ xs
  take-drop xs ys zero n h e = let f : n ≡ length xs = omega (arith, e) in rw f (take-append xs ys)
  take-drop [] ys (suc i) n h e = absurd (omega (arith, h))
  take-drop (x ∷ xs) ys (suc i) n h e =
      ap (◌∷◌ x) (take-drop xs ys i n (omega (arith, h)) (omega (arith, e)))

  pub slices-join :
      (xs ys : List A) (i n : ℕ)
      → i ≤ length xs
      → n ≡ length xs
      → slice 0 i (xs ++ ys) ++ slice i n (xs ++ ys) ≡ xs
  slices-join xs ys i n h e =
      let f : i - 0 ≡ i = omega arith in
      let g : n - i ≡ length xs - i = omega (arith, e) in
      rw (f, g) (take-drop xs ys i (length xs - i) h refl)

  pub find_index-bound :
      (p : A → Bool) (xs : List A) (i : ℕ) → find_index p xs ≡ some i → i < length xs
  unfolding find_index
  find_index-bound p [] i h = absurd (ground arith)
  find_index-bound p (x ∷ xs) i h = elim (Option-cases (find_index p xs)) [
    | inl f ↦ ground (arith, f)
    | inr (j, f) ↦ ground (arith, f, find_index-bound p xs j f)
  ]

  pub find_index-Lacks : (p : A → Bool) (xs : List A) → Lacks p xs → find_index p xs ≡ none
  unfolding find_index
  find_index-Lacks p [] h = refl
  find_index-Lacks p (x ∷ xs) (a, h) = rw (a, find_index-Lacks p xs h) refl
