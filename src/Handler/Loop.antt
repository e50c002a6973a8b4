-- ===== src/Handler/Loop.antt =====
-- The loops of `deRegister` and `trigger` walk an entry from its end: the part below the index is
-- held last first, by `revcat`.
use native.Mathlib.Nat.{zero-add}
use signalwire_node.Common.{
  ℕ, suc, ◌+◌, ◌≡◌, refl, sym, ap, ◌∙◌, Bool, not, List, [], ◌∷◌, ◌++◌, some, arith, if◌then◌else◌,
  length, get_elem?, splice, keep, Bool-cases, inl, inr,
}
use signalwire_node.Handler.{Fn, matches, remove_below, remaining, drop_match}

module _ {ℓ} {A : Type ℓ} where
  abbrev pub revcat : List A → List A → List A
  revcat [] ys = ys
  revcat (r ∷ rs) ys = revcat rs (r ∷ ys)

  get_elem?-revcat_add :
      (rs ys : List A) (i : ℕ) → get_elem? (revcat rs ys) (length rs + i) ≡ get_elem? ys i
  get_elem?-revcat_add [] ys i = rw zero-add
  get_elem?-revcat_add (r ∷ rs) ys i =
      ap (get_elem? (revcat rs (r ∷ ys))) (omega arith) ∙ get_elem?-revcat_add rs (r ∷ ys) (suc i)

  pub get_elem?-revcat :
      (rs : List A) (r : A) (ys : List A) → get_elem? (revcat (r ∷ rs) ys) (length rs) ≡ some r
  get_elem?-revcat rs r ys =
      ap (get_elem? (revcat rs (r ∷ ys))) (omega arith) ∙ get_elem?-revcat_add rs (r ∷ ys) 0

  splice-revcat_add :
      (rs ys : List A) (i : ℕ) → splice (revcat rs ys) (length rs + i) ≡ revcat rs (splice ys i)
  splice-revcat_add [] ys i = rw zero-add
  splice-revcat_add (r ∷ rs) ys i =
      ap (splice (revcat rs (r ∷ ys))) (omega arith) ∙ splice-revcat_add rs (r ∷ ys) (suc i)

  pub splice-revcat :
      (rs : List A) (r : A) (ys : List A) → splice (revcat (r ∷ rs) ys) (length rs) ≡ revcat rs ys
  splice-revcat rs r ys =
      ap (splice (revcat rs (r ∷ ys))) (omega arith) ∙ splice-revcat_add rs (r ∷ ys) 0

  pub revcat-revcat : (xs acc ys : List A) → revcat (revcat xs acc) ys ≡ revcat acc (xs ++ ys)
  revcat-revcat [] acc ys = refl
  revcat-revcat (x ∷ xs) acc ys = revcat-revcat xs (x ∷ acc) ys

  pub length-revcat : (xs acc : List A) → length (revcat xs acc) ≡ length xs + length acc
  length-revcat [] acc = omega arith
  length-revcat (x ∷ xs) acc = omega (arith, length-revcat xs (x ∷ acc))

  pub keep-revcat :
      (p : A → Bool) (rs ys : List A) → keep p (revcat rs ys) ≡ revcat (keep p rs) (keep p ys)
  keep-revcat p [] ys = refl
  keep-revcat p (r ∷ rs) ys = elim (Bool-cases (p r)) [
    | inl e ↦ keep-revcat p rs (r ∷ ys) ∙ rw e
    | inr e ↦ keep-revcat p rs (r ∷ ys) ∙ rw e
  ]

  append-nil : (xs : List A) → xs ++ [] ≡ xs
  append-nil [] = refl
  append-nil (x ∷ xs) = ap (◌∷◌ x) (append-nil xs)

  -- Every list is one that is walked from its end.
  pub revcat_twice : (xs : List A) → revcat (revcat xs []) [] ≡ xs
  revcat_twice xs = revcat-revcat xs [] [] ∙ append-nil xs

  pub length-revcat_nil : (xs : List A) → length (revcat xs []) ≡ length xs
  length-revcat_nil xs = omega (arith, length-revcat xs [])

abbrev pub survives : ℕ → Fn → Bool
survives cb fn = not (matches cb fn)

drop_match-revcat :
    (cb : ℕ) (rs : List Fn) (r : Fn) (ys : List Fn)
    → drop_match cb (length rs) (revcat (r ∷ rs) ys)
      ≡ (if matches cb r then revcat rs ys else revcat (r ∷ rs) ys)
unfolding drop_match
drop_match-revcat cb rs r ys =
    rw (get_elem?-revcat rs r ys, drop_match) (rw (splice-revcat rs r ys))

remove_below-revcat :
    (cb : ℕ) (rs ys : List Fn)
    → remove_below cb (length rs) (revcat rs ys) ≡ revcat (keep (survives cb) rs) ys
unfolding remove_below
remove_below-revcat cb [] ys = refl
remove_below-revcat cb (r ∷ rs) ys =
    ap (remove_below cb (length rs)) (drop_match-revcat cb rs r ys)
    ∙ elim (Bool-cases (matches cb r)) [
      | inl e ↦ rw e (remove_below-revcat cb rs ys)
      | inr e ↦ rw e (remove_below-revcat cb rs (r ∷ ys))
    ]

-- Splicing backwards by index keeps exactly the functions that do not match, in their order.
pub remaining-eq-keep : (cb : ℕ) (fns : List Fn) → remaining (some cb) fns ≡ keep (survives cb) fns
unfolding remaining
remaining-eq-keep cb fns =
    let rs = revcat fns [] in
    let back : remove_below cb (length fns) (revcat rs []) ≡ revcat (keep (survives cb) rs) [] =
      rw (← length-revcat_nil fns) (remove_below-revcat cb rs []) in
    ap (remove_below cb (length fns)) (sym (revcat_twice fns))
    ∙ back
    ∙ sym (keep-revcat (survives cb) rs [])
    ∙ ap (keep (survives cb)) (revcat_twice fns)
