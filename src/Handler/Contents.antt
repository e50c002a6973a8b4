-- ===== src/Handler/Contents.antt =====
-- The registry seen as a table from an event and a unique id to the callbacks, in order of
-- registration: what each operation does to every entry of it.
use signalwire_node.Common.{
  ℕ, ◌≡◌, refl, ap, ◌∙◌, Bool, true, ◌&&◌, Option, none, some, List, [], ◌∷◌, ◌++◌, String, arith,
  ◌==◌, eq_iff, if◌then◌else◌, keep, Bool-cases, Option-cases, inl, inr,
}
use signalwire_node.Common.Dict.{Dict, lookup, insert, delete, lookup-insert, lookup-delete}
use signalwire_node.Handler.{
  Fn, Queue, or_empty, is_nil, fetch, register, write_back, remaining, remove_below, de_register,
  de_register_all, is_queued,
}
use signalwire_node.Handler.Loop.{survives, remaining-eq-keep}

unfoldable pub subscribers : String → String → Queue → List Fn
subscribers e u q = or_empty (fetch e u q)

abbrev pub non_nil {ℓ} : {A : Type ℓ} → List A → Option (List A)
non_nil [] = none
non_nil (x ∷ xs) = some (x ∷ xs)

or_empty-non_nil {ℓ} : {A : Type ℓ} (xs : List A) → or_empty (non_nil xs) ≡ xs
or_empty-non_nil [] = refl
or_empty-non_nil (x ∷ xs) = refl

-- The same entry, of the same event.
abbrev pub same : String → String → String → String → Bool
same e u e' u' = (e == e') && (u == u')

lookup-or_empty : (e u : String) (q : Queue) → lookup u (or_empty (lookup e q)) ≡ fetch e u q
unfolding fetch lookup
lookup-or_empty e u q = ground arith

fetch-insert :
    (e u e' u' : String) (m : Dict (List Fn)) (fns : List Fn) (q : Queue)
    → ((j : String) → lookup j m ≡ fetch e j q)
    → fetch e' u' (insert e (insert u fns m) q)
      ≡ (if same e u e' u' then some fns else fetch e' u' q)
unfolding fetch
fetch-insert e u e' u' m fns q h =
    ground
      (arith, lookup-insert e e' (insert u fns m) q, lookup-insert u u' fns m, eq_iff e e', h u')

pub fetch-register :
    (e : String) (cb : Fn) (u : String) (q : Queue) (e' u' : String)
    → fetch e' u' (register e cb u q)
      ≡ (if same e u e' u' then some (subscribers e u q ++ cb ∷ []) else fetch e' u' q)
unfolding register subscribers
fetch-register e cb u q e' u' =
    rw (lookup-or_empty e u q)
      (fetch-insert e u e' u' (or_empty (lookup e q)) _ q (λ j. lookup-or_empty e j q))

is_nil-lookup : (k : String) (m : Dict (List Fn)) → is_nil m ≡ true → lookup k m ≡ none
unfolding lookup
is_nil-lookup k [] h = refl
is_nil-lookup k (x ∷ m) h = ground arith

fetch-write_back :
    (e u e' u' : String) (fns : List Fn) (m : Dict (List Fn)) (q : Queue)
    → lookup e q ≡ some m
    → fetch e' u' (write_back e u fns m q) ≡ (if same e u e' u' then non_nil fns else fetch e' u' q)
unfolding write_back fetch
fetch-write_back e u e' u' [] m q h = elim (Bool-cases (is_nil (delete u m))) [
  | inl nil ↦ rw nil (
      ground (
        arith,
        lookup-delete e e' q,
        lookup-delete u u' m,
        is_nil-lookup u' (delete u m) nil,
        eq_iff e e',
      ))
  | inr more ↦
      rw more (ground (arith, lookup-insert e e' (delete u m) q, lookup-delete u u' m, eq_iff e e'))
]
fetch-write_back e u e' u' (f ∷ fns) m q h =
    fetch-insert e u e' u' m (f ∷ fns) q (λ j. rw (h, fetch) refl)

remaining-nil : (cb : Option ℕ) → remaining cb [] ≡ []
unfolding remaining remove_below
remaining-nil none = refl
remaining-nil (some n) = refl

-- An entry that is not there stays as it is.
fetch_absent :
    (e : String) (cb : Option ℕ) (u : String) (q : Queue) (e' u' : String)
    → fetch e u q ≡ none
    → fetch e' u' q
      ≡ (if same e u e' u' then non_nil (remaining cb (subscribers e u q)) else fetch e' u' q)
unfolding subscribers
fetch_absent e cb u q e' u' h = elim (Bool-cases (same e u e' u')) [
  | inl yes' ↦ rw (yes', h, remaining-nil cb) (ground (arith, eq_iff e e', eq_iff u u'))
  | inr other ↦ rw other
]

pub fetch-de_register :
    (e : String) (cb : Option ℕ) (u : String) (q : Queue) (e' u' : String)
    → fetch e' u' (de_register e cb u q).0
      ≡ (if same e u e' u' then non_nil (remaining cb (subscribers e u q)) else fetch e' u' q)
unfolding de_register fetch
fetch-de_register e cb u q e' u' = elim (Option-cases (lookup e q)) [
  | inl no_event ↦
      rw (no_event, de_register) (fetch_absent e cb u q e' u' (rw (no_event, fetch) refl))
  | inr (m, event) ↦ elim (Option-cases (lookup u m)) [
    | inl no_id ↦
        rw (event, no_id, de_register)
          (fetch_absent e cb u q e' u' (unfold fetch in rw (event, no_id, fetch) refl))
    | inr (fns, found) ↦
        rw (event, found, de_register)
          (let here : subscribers e u q ≡ fns =
              unfold subscribers fetch in rw (event, fetch) (rw found) in
            rw here (fetch-write_back e u e' u' (remaining cb fns) m q event))
  ]
]

-- Registering appends to one entry and changes no other.
pub subscribers-register :
    (e : String) (cb : Fn) (u : String) (q : Queue) (e' u' : String)
    → subscribers e' u' (register e cb u q)
      ≡ (if same e u e' u' then subscribers e u q ++ cb ∷ [] else subscribers e' u' q)
unfolding subscribers
subscribers-register e cb u q e' u' = ground (arith, fetch-register e cb u q e' u')

-- Deregistering a function removes from one entry what is that function, or a once-wrapper of it,
-- wherever it stands, and keeps the order of the rest; no other entry changes.
pub subscribers-de_register :
    (e : String) (cb : ℕ) (u : String) (q : Queue) (e' u' : String)
    → subscribers e' u' (de_register e (some cb) u q).0
      ≡ (if same e u e' u' then keep (survives cb) (subscribers e u q) else subscribers e' u' q)
unfolding subscribers
subscribers-de_register e cb u q e' u' = elim (Bool-cases (same e u e' u')) [
  | inl hit ↦
      ap or_empty (fetch-de_register e (some cb) u q e' u')
      ∙ rw hit (or_empty-non_nil _ ∙ remaining-eq-keep cb (subscribers e u q))
  | inr miss ↦ ap or_empty (fetch-de_register e (some cb) u q e' u') ∙ rw miss
]

-- Deregistering without a function empties one entry and changes no other.
pub subscribers-de_register_none :
    (e u : String) (q : Queue) (e' u' : String)
    → subscribers e' u' (de_register e none u q).0
      ≡ (if same e u e' u' then [] else subscribers e' u' q)
unfolding subscribers remaining
subscribers-de_register_none e u q e' u' = ground (arith, fetch-de_register e none u q e' u')

-- Deregistering an event empties all its entries, and no entry of another event changes.
pub subscribers-de_register_all :
    (e : String) (q : Queue) (e' u' : String)
    → subscribers e' u' (de_register_all e q) ≡ (if e == e' then [] else subscribers e' u' q)
unfolding subscribers de_register_all fetch
subscribers-de_register_all e q e' u' = ground (arith, lookup-delete e e' q)

-- The answer of `deRegister` says whether the entry was there.
pub de_register-answer :
    (e : String) (cb : Option ℕ) (u : String) (q : Queue)
    → (de_register e cb u q).1 ≡ is_queued e u q
unfolding de_register is_queued fetch
de_register-answer e cb u q = ground arith
