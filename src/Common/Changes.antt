-- ===== src/Common/Changes.antt =====
-- A list of which an element is changed, or after one of whose elements another is put.
use signalwire_node.Common.{
  ℕ, zero, suc, ◌≡◌, refl, ap, ◌∙◌, Bool, true, false, Option, none, some, List, [], ◌∷◌, arith,
  Bool-cases, Option-cases, inl, inr, All, get_elem?, ◌⊎◌,
}
use signalwire_node.Common.Text.{find_index, change_at}

abbrev next : Option ℕ → Option ℕ
next o = elim o [ none ↦ none | some i ↦ some (suc i) ]

module _ {ℓ} {A : Type ℓ} where
  unfoldable pub insert_after : ℕ → A → List A → List A
  insert_after i y [] = []
  insert_after zero y (x ∷ xs) = x ∷ y ∷ xs
  insert_after (suc i) y (x ∷ xs) = x ∷ insert_after i y xs

  pub find_index-here :
      (p : A → Bool) (x : A) (xs : List A) → p x ≡ true → find_index p (x ∷ xs) ≡ some 0
  unfolding find_index
  find_index-here p x xs h = rw h refl

  pub find_index-there :
      (p : A → Bool) (x : A) (xs : List A)
      → p x ≡ false
      → find_index p (x ∷ xs) ≡ next (find_index p xs)
  unfolding find_index
  find_index-there p x xs h = rw h refl

  -- A change that the test does not see.
  pub find_index-unseen :
      (p : A → Bool) (f : A → A)
      → ((x : A) → p (f x) ≡ p x)
      → (i : ℕ) (xs : List A) → find_index p (change_at i f xs) ≡ find_index p xs
  unfolding find_index change_at
  find_index-unseen p f h i [] = refl
  find_index-unseen p f h zero (x ∷ xs) = rw (h x) refl
  find_index-unseen p f h (suc i) (x ∷ xs) = rw (find_index-unseen p f h i xs) refl

  -- A function of an element that a change does not alter.
  pub elem-unseen {κ} :
      {B : Type κ} (g : A → B) (d : A) (f : A → A)
      → ((x : A) → g (f x) ≡ g x)
      → (i j : ℕ) (xs : List A)
      → g (elim (get_elem? (change_at j f xs) i) [ none ↦ d | some x ↦ x ])
        ≡ g (elim (get_elem? xs i) [ none ↦ d | some x ↦ x ])
  unfolding change_at
  elem-unseen g d f h i j [] = refl
  elem-unseen g d f h zero zero (x ∷ xs) = h x
  elem-unseen g d f h zero (suc j) (x ∷ xs) = refl
  elem-unseen g d f h (suc i) zero (x ∷ xs) = refl
  elem-unseen g d f h (suc i) (suc j) (x ∷ xs) = elem-unseen g d f h i j xs

  -- The case split of a search in a list that is not empty.
  found_cases :
      (p : A → Bool) (x : A) (xs : List A) (i : ℕ)
      → find_index p (x ∷ xs) ≡ some i
      → ((p x ≡ true) × (i ≡ 0))
        ⊎ ((p x ≡ false) × ((j : ℕ) × (find_index p xs ≡ some j) × (i ≡ suc j)))
  unfolding find_index
  found_cases p x xs i h = elim (Bool-cases (p x)) [
    | inl e ↦ ground (arith, e)
    | inr e ↦ elim (Option-cases (find_index p xs)) [
      | inl f ↦ absurd (ground (arith, e, f))
      | inr (j, f) ↦ inr (e, (j, f, ground (arith, e, f)))
    ]
  ]

  pub find_index-kept :
      (p : A → Bool) (f : A → A)
      → ((x : A) → p x ≡ true → p (f x) ≡ true)
      → (i : ℕ) (xs : List A) → find_index p xs ≡ some i
      → find_index p (change_at i f xs) ≡ some i
  unfolding change_at
  find_index-kept p f h i [] k = k
  find_index-kept p f h zero (x ∷ xs) k = elim (found_cases p x xs zero k) [
    | inl (e, _) ↦ find_index-here p (f x) xs (h x e)
    | inr (e, (j, g, m)) ↦ absurd (omega (arith, m))
  ]
  find_index-kept p f h (suc i) (x ∷ xs) k = elim (found_cases p x xs (suc i) k) [
    | inl (e, m) ↦ absurd (omega (arith, m))
    | inr (e, (j, g, m)) ↦
        let m' : j ≡ i = omega (arith, m) in
        find_index-there p x (change_at i f xs) e
        ∙ ap next (find_index-kept p f h i xs (rw m' at g))
  ]

  pub change-again :
      (f : A → A)
      → ((x : A) → f (f x) ≡ f x)
      → (i : ℕ) (xs : List A) → change_at i f (change_at i f xs) ≡ change_at i f xs
  unfolding change_at
  change-again f h i [] = refl
  change-again f h zero (x ∷ xs) = ap (λ y. y ∷ xs) (h x)
  change-again f h (suc i) (x ∷ xs) = ap (◌∷◌ x) (change-again f h i xs)

  pub change-All {κ} :
      (P : A → Type κ) (f : A → A)
      → ((x : A) → P x → P (f x))
      → (i : ℕ) (xs : List A) → All P xs
      → All P (change_at i f xs)
  unfolding change_at
  change-All P f h i [] k = k
  change-All P f h zero (x ∷ xs) (a, k) = (h x a, k)
  change-All P f h (suc i) (x ∷ xs) (a, k) = (a, change-All P f h i xs k)

  -- What stands before or after the new element.
  pub insert-All {κ} :
      (P : A → Type κ) (i : ℕ) (y : A) (xs : List A) → P y → All P xs → All P (insert_after i y xs)
  unfolding insert_after
  insert-All P i y [] b k = k
  insert-All P zero y (x ∷ xs) b (a, k) = (a, (b, k))
  insert-All P (suc i) y (x ∷ xs) b (a, k) = (a, insert-All P i y xs b k)

  pub find_index-insert :
      (p : A → Bool) (i : ℕ) (y : A) (xs : List A)
      → find_index p xs ≡ some i
      → find_index p (insert_after i y xs) ≡ some i
  unfolding insert_after
  find_index-insert p i y [] k = k
  find_index-insert p zero y (x ∷ xs) k = elim (found_cases p x xs zero k) [
    | inl (e, _) ↦ find_index-here p x (y ∷ xs) e
    | inr (e, (j, g, m)) ↦ absurd (omega (arith, m))
  ]
  find_index-insert p (suc i) y (x ∷ xs) k = elim (found_cases p x xs (suc i) k) [
    | inl (e, m) ↦ absurd (omega (arith, m))
    | inr (e, (j, g, m)) ↦
        let m' : j ≡ i = omega (arith, m) in
        find_index-there p x (insert_after i y xs) e
        ∙ ap next (find_index-insert p i y xs (rw m' at g))
  ]

  pub elem-insert :
      (i : ℕ) (y : A) (xs : List A) → get_elem? (insert_after i y xs) i ≡ get_elem? xs i
  unfolding insert_after
  elem-insert i y [] = refl
  elem-insert zero y (x ∷ xs) = refl
  elem-insert (suc i) y (x ∷ xs) = elem-insert i y xs

  none_cases :
      (p : A → Bool) (x : A) (xs : List A)
      → find_index p (x ∷ xs) ≡ none
      → (p x ≡ false) × (find_index p xs ≡ none)
  unfolding find_index
  none_cases p x xs h = ground arith

  -- The new element is the first to pass a test that none passed.
  pub find_index-new :
      (p q : A → Bool) (i : ℕ) (y : A) (xs : List A)
      → find_index p xs ≡ none
      → find_index q xs ≡ some i
      → p y ≡ true
      → find_index p (insert_after i y xs) ≡ some (suc i)
  unfolding insert_after find_index
  find_index-new p q i y [] h k b = absurd (ground arith)
  find_index-new p q zero y (x ∷ xs) h k b =
      find_index-there p x (y ∷ xs) (none_cases p x xs h).0 ∙ ap next (find_index-here p y xs b)
  find_index-new p q (suc i) y (x ∷ xs) h k b = elim (found_cases q x xs (suc i) k) [
    | inl (e, m) ↦ absurd (omega (arith, m))
    | inr (e, (j, g, m)) ↦
        let m' : j ≡ i = omega (arith, m) in
        find_index-there p x (insert_after i y xs) (none_cases p x xs h).0
        ∙ ap next (find_index-new p q i y xs (none_cases p x xs h).1 (rw m' at g) b)
  ]

  pub change-new :
      (f : A → A) (i : ℕ) (y : A) (xs : List A)
      → f y ≡ y
      → change_at (suc i) f (insert_after i y xs) ≡ insert_after i y xs
  unfolding insert_after change_at
  change-new f i y [] h = refl
  change-new f zero y (x ∷ xs) h = ap (λ z. x ∷ z ∷ xs) h
  change-new f (suc i) y (x ∷ xs) h = ap (◌∷◌ x) (change-new f i y xs h)
