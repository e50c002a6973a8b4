-- ===== src/Handler/Tidy.antt =====
-- The registry keeps no empty entry: every operation deletes what it empties.
use signalwire_node.Common.{
  ℕ, ◌≡◌, refl, false, Option, List, [], length, ◌∷◌, ◌++◌, String, arith, Bool-cases, Option-cases,
  inl, inr, some, none, not,
}
use signalwire_node.Common.Dict.{
  Dict, lookup, insert, delete, Values, insert-Values, delete-Values, lookup-Values,
}
use signalwire_node.Handler.Contents.{subscribers}
use signalwire_node.Handler.{
  Fn, Queue, or_empty, is_nil, register, write_back, de_register, fetch, register_once, is_queued,
  queue_length, de_register_all,
}

abbrev pub IsFilled {ℓ} : {A : Type ℓ} → List A → Type 0
IsFilled xs = is_nil xs ≡ false

abbrev pub IsTidyEvent : Dict (List Fn) → Type 0
IsTidyEvent m = IsFilled m × Values IsFilled m

abbrev pub IsTidy : Queue → Type 0
IsTidy q = Values IsTidyEvent q

append-IsFilled : (xs : List Fn) (x : Fn) → IsFilled (xs ++ x ∷ [])
append-IsFilled [] x = refl
append-IsFilled (y ∷ ys) x = refl

insert-IsFilled : (k : String) (v : List Fn) (m : Dict (List Fn)) → IsFilled (insert k v m)
unfolding insert
insert-IsFilled k v [] = refl
insert-IsFilled k v ((j, w) ∷ m) = ground arith

event-Values : (e : String) (q : Queue) → IsTidy q → Values IsFilled (or_empty (lookup e q))
event-Values e q h = elim (Option-cases (lookup e q)) [
  | inl none' ↦ rw none' tt
  | inr (m, found) ↦ rw found (lookup-Values IsTidyEvent e q found h).1
]

pub register-IsTidy :
    (e : String) (cb : Fn) (u : String) (q : Queue) → IsTidy q → IsTidy (register e cb u q)
unfolding register
register-IsTidy e cb u q h =
    let m = or_empty (lookup e q) in
    insert-Values IsTidyEvent e _ q
      (
        insert-IsFilled u _ m,
        insert-Values IsFilled u _ m (append-IsFilled _ cb) (event-Values e q h),
      )
      h

write_back-IsTidy :
    (e u : String) (fns : List Fn) (m : Dict (List Fn)) (q : Queue)
    → Values IsFilled m
    → IsTidy q
    → IsTidy (write_back e u fns m q)
unfolding write_back
write_back-IsTidy e u [] m q v h = elim (Bool-cases (is_nil (delete u m))) [
  | inl nil ↦ rw nil (delete-Values IsTidyEvent e q h)
  | inr more ↦ rw more (insert-Values IsTidyEvent e _ q (more, delete-Values IsFilled u m v) h)
]
write_back-IsTidy e u (f ∷ fns) m q v h =
    insert-Values IsTidyEvent e _ q
      (insert-IsFilled u _ m, insert-Values IsFilled u (f ∷ fns) m refl v) h

pub de_register-IsTidy :
    (e : String) (cb : Option ℕ) (u : String) (q : Queue)
    → IsTidy q
    → IsTidy (de_register e cb u q).0
unfolding de_register
de_register-IsTidy e cb u q h = elim (Option-cases (lookup e q)) [
  | inl no_event ↦ rw (no_event, de_register) h
  | inr (m, event) ↦ elim (Option-cases (lookup u m)) [
    | inl no_id ↦ rw (event, no_id, de_register) h
    | inr (fns, found) ↦
        rw (event, found, de_register)
          (write_back-IsTidy e u _ m q (lookup-Values IsTidyEvent e q event h).1 h)
  ]
]

pub data Op : Type 0 where
  registers : String → Fn → String → Op
  registers_once : String → ℕ → String → ℕ → Op
  de_registers : String → Option ℕ → String → Op
  clears : String → Op

unfoldable pub apply : Op → Queue → Queue
apply (registers e cb u) q = register e cb u q
apply (registers_once e cb u w) q = register_once e cb u w q
apply (de_registers e cb u) q = (de_register e cb u q).0
apply (clears e) q = de_register_all e q

unfoldable pub run : List Op → Queue → Queue
run [] q = q
run (o ∷ os) q = run os (apply o q)

-- No operation leaves an empty entry, or an event without entries, if there was none before.
pub apply-IsTidy : (o : Op) (q : Queue) → IsTidy q → IsTidy (apply o q)
unfolding apply register_once de_register_all
apply-IsTidy (registers e cb u) q h = register-IsTidy e cb u q h
apply-IsTidy (registers_once e cb u w) q h = register-IsTidy e _ u q h
apply-IsTidy (de_registers e cb u) q h = de_register-IsTidy e cb u q h
apply-IsTidy (clears e) q h = delete-Values IsTidyEvent e q h

run-IsTidy : (os : List Op) (q : Queue) → IsTidy q → IsTidy (run os q)
unfolding run
run-IsTidy [] q h = h
run-IsTidy (o ∷ os) q h = run-IsTidy os (apply o q) (apply-IsTidy o q h)

IsTidy-fetch :
    (e u : String) (q : Queue) {fns : List Fn} → IsTidy q → fetch e u q ≡ some fns → IsFilled fns
unfolding fetch
IsTidy-fetch e u q {fns = fns} h p = elim (Option-cases (lookup e q)) [
  | inl no_event ↦
      let absurd_eq : ◌≡◌ {A = Option (List Fn)} none (some fns) = rw (no_event, fetch) at p in cc
  | inr (m, event) ↦
      lookup-Values IsFilled u m (rw (event, fetch) at p) (lookup-Values IsTidyEvent e q event h).1
]

-- After any history of operations on the empty registry, `isQueued` answers true for exactly the
-- entries that have a subscriber, and `queueLength` counts them.
pub run-is_queued :
    (os : List Op) (e u : String)
    → (is_queued e u (run os []) ≡ not (is_nil (subscribers e u (run os []))))
      × (queue_length e u (run os []) ≡ length (subscribers e u (run os [])))
unfolding is_queued queue_length subscribers
run-is_queued os e u = elim (Option-cases (fetch e u (run os []))) [
  | inl absent ↦ (rw absent, rw (absent, queue_length))
  | inr (fns, found) ↦
      let filled : IsFilled fns = IsTidy-fetch e u (run os []) (run-IsTidy os [] tt) found in
      (rw found (rw filled), rw (found, queue_length))
]
