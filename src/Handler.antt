-- ===== src/Handler.antt =====
-- packages/common/src/services/Handler.ts: the registry of callbacks by event name and unique id.
-- A function object is its identity. `once` is the wrapper that `registerOnce` makes: its own
-- identity, its `prototype.targetRef`, and the event and unique id that its closure captures.
pub mod Loop
pub mod Contents
pub mod Tidy
pub mod Walk
pub mod Dispatch
use signalwire_node.Common.{
  ℕ, zero, suc, Bool, true, false, not, ◌&&◌, ◌||◌, Option, none, some, List, [], ◌∷◌, ◌++◌, String,
  ◌==◌, eqb, if◌then◌else◌, length, get_elem?, splice,
}
use signalwire_node.Common.Dict.{Dict, lookup, insert, delete, is_some}

pub data Fn : Type 0 where
  plain : ℕ → Fn
  once : ℕ → ℕ → String → String → Fn

-- `queue[eventName][uniqueId]`.
abbrev pub Queue : Type 0
Queue = Dict (Dict (List Fn))

abbrev pub global : String
global = "GLOBAL"

abbrev pub ident : Fn → ℕ
ident (plain n) = n
ident (once w t e u) = w

abbrev pub target_ref : Fn → Option ℕ
target_ref (plain n) = none
target_ref (once w t e u) = some t

abbrev pub is_nil {ℓ} : {A : Type ℓ} → List A → Bool
is_nil [] = true
is_nil (x ∷ xs) = false

abbrev pub or_empty {ℓ} : {A : Type ℓ} → Option (List A) → List A
or_empty none = []
or_empty (some xs) = xs

unfoldable pub fetch : String → String → Queue → Option (List Fn)
fetch e u q = elim (lookup e q) [ none ↦ none | some m ↦ lookup u m ]

unfoldable pub is_queued : String → String → Queue → Bool
is_queued e u q = is_some (fetch e u q)

unfoldable pub queue_length : String → String → Queue → ℕ
queue_length e u q = elim (fetch e u q) [ none ↦ 0 | some fns ↦ length fns ]

unfoldable pub register : String → Fn → String → Queue → Queue
register e cb u q =
    let m = or_empty (lookup e q) in insert e (insert u (or_empty (lookup u m) ++ cb ∷ []) m) q

-- `w` is the identity of the new wrapper.
unfoldable pub register_once : String → ℕ → String → ℕ → Queue → Queue
unfolding register
register_once e callback u w q = register e (once w callback e u) u q

abbrev is_target : Option ℕ → ℕ → Bool
is_target none n = false
is_target (some t) n = eqb n t

-- `callback === fn || (fn.prototype && callback === fn.prototype.targetRef)`
abbrev pub matches : ℕ → Fn → Bool
matches cb fn = eqb cb (ident fn) || is_target (target_ref fn) cb

-- One round of the loop of `deRegister`; `i` is in range there.
drop_match : ℕ → ℕ → List Fn → List Fn
drop_match cb i fns = elim (get_elem? fns i) [
  | none ↦ fns
  | some fn ↦ if matches cb fn then splice fns i else fns
]

-- `for (let i = len - 1; i >= 0; i--)`
unfoldable pub remove_below : ℕ → ℕ → List Fn → List Fn
unfolding drop_match
remove_below cb zero fns = fns
remove_below cb (suc i) fns = remove_below cb i (drop_match cb i fns)

-- What is left of the entry; `none` stands for a callback that is not a function.
unfoldable pub remaining : Option ℕ → List Fn → List Fn
remaining none fns = []
remaining (some cb) fns = remove_below cb (length fns) fns

-- An entry that came out empty is deleted, and its event with it if that was the last one.
unfoldable pub write_back : String → String → List Fn → Dict (List Fn) → Queue → Queue
write_back e u fns m q =
    if is_nil fns
    then (let m' = delete u m in if is_nil m' then delete e q else insert e m' q)
    else insert e (insert u fns m) q

unfoldable pub de_register : String → Option ℕ → String → Queue → Queue × Bool
unfolding write_back remaining
de_register e cb u q = elim (lookup e q) [
  | none ↦ (q, false)
  | some m ↦ elim (lookup u m) [
    | none ↦ (q, false)
    | some fns ↦ (write_back e u (remaining cb fns) m q, true)
  ]
]

unfoldable pub de_register_all : String → Queue → Queue
de_register_all e q = delete e q

-- The registry while an event is triggered, with the calls of users' functions so far.
pub record Registry (D : Type 0) : Type 0 where
  pub queue : Queue
  pub calls : List (ℕ × D)

-- `thrown` is the TypeError of `queue[eventName][uniqueId][i](data)` where that is no function.
pub data Outcome (D : Type 0) : Type 0 where
  returned : Registry D → Bool → Outcome D
  thrown : Registry D → Outcome D

-- `body n` is what the user's function `n` does to the registry.
module _ {D : Type 0} (body : ℕ → D → Queue → Queue) where
  unfoldable pub call_fn : D → ℕ → Registry D → Registry D
  call_fn d n r = record { queue = body n d r.queue; calls = r.calls ++ (n, d) ∷ [] }

  -- A wrapper deregisters itself first.
  unfoldable pub run_fn : D → Fn → Registry D → Registry D
  unfolding call_fn
  run_fn d (plain n) r = call_fn d n r
  run_fn d (once w t e u) r =
      call_fn d t (record r { queue = (de_register e (some w) u r.queue).0 })

  -- `for (let i = len - 1; i >= 0; i--) { queue[eventName][uniqueId][i](data) }`
  unfoldable pub run_below : String → String → D → ℕ → Registry D → Outcome D
  run_below e u d zero r = returned r true
  run_below e u d (suc i) r = elim (fetch e u r.queue) [
    | none ↦ thrown r
    | some fns ↦ elim (get_elem? fns i) [
      | none ↦ thrown r
      | some fn ↦ run_below e u d i (run_fn d fn r)
    ]
  ]

  -- `trigger` without the propagation.
  unfoldable pub trigger_at : String → D → String → Registry D → Outcome D
  trigger_at e d u r = elim (fetch e u r.queue) [
    | none ↦ returned r false
    | some fns ↦ if is_nil fns then returned r false else run_below e u d (length fns) r
  ]

  abbrev propagate : String → D → Bool → Outcome D → Outcome D
  propagate e d answer (thrown r) = thrown r
  propagate e d answer (returned r _) = returned r answer

  unfoldable pub trigger : String → D → String → Bool → Registry D → Outcome D
  trigger e d u global_propagation r = elim (trigger_at e d u r) [
    | thrown r' ↦ thrown r'
    | returned r' answer ↦
        if global_propagation && not (u == global)
        then propagate e d answer (trigger_at e d global r')
        else returned r' answer
  ]
