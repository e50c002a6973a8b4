-- ===== src/Examples/Handlers.antt =====
-- The callbacks of packages/common/src/services/Handler.ts at concrete inputs.
use signalwire_node.Common.{◌≡◌, refl, none, some, List, [], ◌∷◌, ℕ, not, length, true}
use signalwire_node.Common.Dict.{lookup, delete}
use signalwire_node.Handler.{
  Fn, plain, once, Queue, Registry, returned, thrown, fetch, trigger_at, call_fn, is_queued,
  queue_length, de_register, is_nil,
}
use signalwire_node.Handler.Contents.{subscribers}
use signalwire_node.Handler.Tidy.{registers, de_registers, run, run-is_queued}
use signalwire_node.Handler.Dispatch.{trigger_at-Ran, trigger_at_throws}
use signalwire_node.Handler.Walk.{Ran}

-- Function 1 and then a wrapper of function 2 for the same entry.
abbrev fns : List Fn
fns = plain 1 ∷ once 7 2 "ready" "s" ∷ []

abbrev table : Queue
table = ("ready", ("s", fns) ∷ []) ∷ []

abbrev registry : Registry ℕ
registry = record { queue = table; calls = [] }

abbrev idle : ℕ → ℕ → Queue → Queue
idle n d q = q

-- A callback that deregisters all of the event.
abbrev clearing : ℕ → ℕ → Queue → Queue
clearing n d q = (de_register "ready" none "s" q).0

trigger_at-Ran_example :
    (after : Registry ℕ) × (trigger_at idle "ready" 5 "s" registry ≡ returned after true)
    × Ran "ready" "s" 5 (once 7 2 "ready" "s" ∷ plain 1 ∷ []) [] registry after
unfolding fetch lookup
trigger_at-Ran_example =
    trigger_at-Ran idle (λ n d q. refl) "ready" "s" 5 (once 7 2 "ready" "s") (plain 1 ∷ []) registry
      refl ((refl, refl), (tt, tt)) (((refl, tt), tt), (tt, tt))

abbrev two : Registry ℕ
two = record { queue = ("ready", ("s", plain 1 ∷ plain 2 ∷ []) ∷ []) ∷ []; calls = [] }

trigger_at_throws_example :
    trigger_at clearing "ready" 5 "s" two ≡ thrown (call_fn clearing 5 2 two)
unfolding fetch de_register lookup delete
trigger_at_throws_example = trigger_at_throws clearing "ready" "s" 5 2 (plain 1) [] two refl refl

run-is_queued_example :
    (is_queued "e" "u" (run (registers "e" (plain 1) "u" ∷ de_registers "e" (some 1) "u" ∷ []) [])
      ≡ not (
          is_nil (
            subscribers "e" "u"
              (run (registers "e" (plain 1) "u" ∷ de_registers "e" (some 1) "u" ∷ []) []))))
    × (queue_length "e" "u"
          (run (registers "e" (plain 1) "u" ∷ de_registers "e" (some 1) "u" ∷ []) [])
        ≡ length (
            subscribers "e" "u"
              (run (registers "e" (plain 1) "u" ∷ de_registers "e" (some 1) "u" ∷ []) [])))
run-is_queued_example =
    run-is_queued (registers "e" (plain 1) "u" ∷ de_registers "e" (some 1) "u" ∷ []) "e" "u"
