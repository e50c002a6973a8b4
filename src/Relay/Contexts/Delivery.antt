-- ===== src/Relay/Contexts/Delivery.antt =====
-- A context that is received is asked for once, and its notifications reach the callback.
use signalwire_node.Common.{
  ℕ, ◌≡◌, ◌≢◌, refl, sym, ◌∙◌, ap, Bool, true, false, not, ◌||◌, List, [], ◌∷◌, ◌++◌, String, arith,
  subst, eq-false, ◌==◌, eq_iff, eq_refl, includes, keep, eqb, eqb_iff, All, Bool-cases, inl, inr,
  if-both,
}
use signalwire_node.Handler.{Fn, plain, ident, Queue, register, is_nil}
use signalwire_node.Handler.Contents.{subscribers, same, subscribers-register}
use signalwire_node.Relay.Contexts.{
  Receiving, refused, known, asks, given, missing, receive, received, register_each,
  on_receive_contexts, ctx_receive_unique_id,
}

includes-append :
    (xs ys : List String) (c : String) → includes (xs ++ ys) c ≡ (includes xs c || includes ys c)
includes-append [] ys c = refl
includes-append (x ∷ xs) ys c = ground (arith, includes-append xs ys c)

includes-keep :
    (p : String → Bool) (xs : List String) (c : String)
    → p c ≡ true
    → includes xs c ≡ true
    → includes (keep p xs) c ≡ true
includes-keep p [] c h i = i
includes-keep p (x ∷ xs) c h i = elim (Bool-cases (x == c)) [
  | inl same ↦ let found : p x ≡ true = ap p ((eq_iff x c).0 same) ∙ h in rw found (rw same refl)
  | inr other ↦
      let rest = includes-keep p xs c h (sym (ap (λ b. b || includes xs c) other) ∙ i) in
      if-both (λ ys. includes ys c ≡ true) (p x) (x ∷ keep p xs) (keep p xs) (λ t. rw other rest)
        (λ f. rest)
]

keep-All : (p : String → Bool) (xs : List String) → All (λ c. p c ≡ true) (keep p xs)
keep-All p [] = tt
keep-All p (x ∷ xs) =
    if-both (All (λ c. p c ≡ true)) (p x) (x ∷ keep p xs) (keep p xs) (λ t. (t, keep-All p xs))
      (λ f. keep-All p xs)

-- The session's contexts afterwards, if the server does not refuse.
abbrev pub held_after : Receiving → List String → List String
held_after r held = (received true r held).0

Bool-apart : false ≢ true
Bool-apart e = ground arith

includes-nil : (xs : List String) (c : String) → is_nil xs ≡ true → includes xs c ≡ false
includes-nil [] c h = refl
includes-nil (x ∷ xs) c h = ground arith

includes-missing :
    (held new : List String) (c : String)
    → includes (missing held new) c ≡ false
    → includes new c ≡ true
    → includes held c ≡ true
includes-missing held new c absent wanted = elim (Bool-cases (includes held c)) [
  | inl there ↦ there
  | inr lacks ↦ absurd (
      Bool-apart
        (sym absent ∙ includes-keep (λ x. not (includes held x)) new c (rw lacks refl) wanted))
]

asked-includes :
    (held contexts : List String) (c : String)
    → includes contexts c ≡ true
    → includes (held ++ missing held contexts) c ≡ true
asked-includes held contexts c w = elim (Bool-cases (includes held c)) [
  | inl there ↦ includes-append held (missing held contexts) c ∙ rw there refl
  | inr lacks ↦
      includes-append held (missing held contexts) c
      ∙ rw lacks (includes-keep (λ x. not (includes held x)) contexts c (rw lacks refl) w)
]

-- Whatever contexts a session holds, each context that is wanted, but the empty one, is held once
-- `Receive` has asked the server for those that are missing and the server has not refused.
receive-includes :
    (held wanted : List String) (c : String)
    → includes wanted c ≡ true
    → c ≢ ""
    → includes (held_after (receive held wanted) held) c ≡ true
unfolding receive received
receive-includes held wanted c w n =
    let contexts = given wanted in
    let new = missing held contexts in
    let wanted' : includes contexts c ≡ true =
      includes-keep (λ x. not (x == "")) wanted c (rw (eq-false c "" n) refl) w in
    if-both (λ r. includes (held_after r held) c ≡ true) (is_nil contexts) refused _
      (λ nil. absurd (Bool-apart (sym (includes-nil contexts c nil) ∙ wanted')))
      (λ filled.
        if-both (λ r. includes (held_after r held) c ≡ true) (is_nil new) known (asks new)
          (λ nil. includes-missing held contexts c (includes-nil new c nil) wanted')
          (λ asked. asked-includes held contexts c wanted'))

abbrev pub requested : Receiving → List String
requested refused = []
requested known = []
requested (asks new) = new

-- The server is asked only for contexts that the session does not hold.
pub receive-requested :
    (held wanted : List String)
    → All (λ c. not (includes held c) ≡ true) (requested (receive held wanted))
unfolding receive
receive-requested held wanted =
    let contexts = given wanted in
    let new = missing held contexts in
    if-both (λ r. All (λ c. not (includes held c) ≡ true) (requested r)) (is_nil contexts) refused _
      (λ nil. tt)
      (λ filled.
        if-both (λ r. All (λ c. not (includes held c) ≡ true) (requested r)) (is_nil new) known
          (asks new) (λ nil. tt) (λ asked. keep-All (λ c. not (includes held c)) contexts))

-- The function is among the subscribers.
abbrev pub holds : ℕ → List Fn → Bool
holds n [] = false
holds n (f ∷ fs) = eqb n (ident f) || holds n fs

holds-append : (n : ℕ) (fs : List Fn) → holds n (fs ++ plain n ∷ []) ≡ true
holds-append n [] = ground (arith, eqb_iff n n)
holds-append n (f ∷ fs) = ground (arith, holds-append n fs)

holds-append_left :
    (n : ℕ) (fs : List Fn) (g : Fn) → holds n fs ≡ true → holds n (fs ++ g ∷ []) ≡ true
holds-append_left n [] g h = ground arith
holds-append_left n (f ∷ fs) g h = ground (arith, holds-append_left n fs g)

register-holds :
    (e u : String) (n m : ℕ) (e' u' : String) (q : Queue)
    → holds n (subscribers e u q) ≡ true
    → holds n (subscribers e u (register e' (plain m) u' q)) ≡ true
register-holds e u n m e' u' q h = ground (
  arith,
  subscribers-register e' (plain m) u' q e u,
  holds-append_left n (subscribers e' u' q) (plain m),
  eq_iff e' e,
  eq_iff u' u,
)

register_here-holds :
    (e u : String) (n : ℕ) (q : Queue) → holds n (subscribers e u (register e (plain n) u q)) ≡ true
register_here-holds e u n q =
    ap (holds n) (subscribers-register e (plain n) u q e u)
    ∙ rw (eq_refl e) (rw (eq_refl u) (holds-append n (subscribers e u q)))

register_each-holds :
    (e u : String) (f : String → String) (n : ℕ) (cs : List String) (q : Queue)
    → holds n (subscribers e u q) ≡ true
    → holds n (subscribers e u (register_each e f (plain n) cs q)) ≡ true
register_each-holds e u f n [] q h = h
register_each-holds e u f n (c ∷ cs) q h =
    register_each-holds e u f n cs (register e (plain n) (f c) q)
      (register-holds e u n n e (f c) q h)

register_each-reaches :
    (e : String) (f : String → String) (n : ℕ) (cs : List String) (c : String) (q : Queue)
    → includes cs c ≡ true
    → holds n (subscribers e (f c) (register_each e f (plain n) cs q)) ≡ true
register_each-reaches e f n [] c q h = ground arith
register_each-reaches e f n (d ∷ ds) c q h = elim (Bool-cases (d == c)) [
  | inl same' ↦ register_each-holds e (f c) f n ds (register e (plain n) (f d) q) (
      subst (λ x. holds n (subscribers e (f x) (register e (plain n) (f d) q)) ≡ true)
        ((eq_iff d c).0 same') (register_here-holds e (f d) n q))
  | inr other ↦
      register_each-reaches e f n ds c (register e (plain n) (f d) q)
        (sym (ap (λ b. b || includes ds c) other) ∙ h)
]

-- Once `onReceive` has succeeded, the function is among the subscribers of the protocol under the
-- id by which messages, tasks and calls of each of its contexts are dispatched.
on_receive_contexts-holds :
    (protocol service : String) (contexts : List String) (n : ℕ) (q : Queue) (c : String)
    → includes contexts c ≡ true
    → holds n (
        subscribers protocol
          (ctx_receive_unique_id service c)
          (on_receive_contexts protocol service true contexts (plain n) q))
      ≡ true
unfolding on_receive_contexts
on_receive_contexts-holds protocol service contexts n q c h =
    register_each-reaches protocol (ctx_receive_unique_id service) n contexts c q h
