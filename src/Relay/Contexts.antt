-- ===== src/Relay/Contexts.antt =====
-- packages/common/src/relay/Relay.ts and services/Receive.ts: the contexts that a session receives
-- notifications of, and the callbacks for them; relay/messaging and relay/tasking dispatch by the
-- same ids.
pub mod Delivery
pub mod Registering
use Prim.Native.String.{◌++◌ as concat}
use signalwire_node.Common.{
  ℕ, Bool, true, false, not, Option, none, some, List, [], ◌∷◌, ◌++◌, String, ◌==◌, includes, keep,
  if◌then◌else◌,
}
use signalwire_node.Handler.{Fn, plain, Queue, Registry, Outcome, register, trigger, is_nil}

-- What `Receive` does before the server's answer: it is refused without a context, is done if all
-- are known, or asks for those that are missing.
pub data Receiving : Type 0 where
  refused : Receiving
  known : Receiving
  asks : List String → Receiving

-- `contexts.filter(Boolean)`, and those that are not among the session's.
abbrev pub given : List String → List String
given wanted = keep (λ c. not (c == "")) wanted

abbrev pub missing : List String → List String → List String
missing held wanted = keep (λ c. not (includes held c)) wanted

unfoldable pub receive : List String → List String → Receiving
receive held wanted =
    let contexts = given wanted in
    if is_nil contexts
    then refused
    else (let new = missing held contexts in if is_nil new then known else asks new)

-- The answer to it: the session's contexts, and what `Receive` resolves to. `answered` says that
-- the server has not refused.
unfoldable pub received : Bool → Receiving → List String → List String × Bool
received answered refused held = (held, false)
received answered known held = (held, true)
received true (asks new) held = (held ++ new, true)
received false (asks new) held = (held, false)

-- `_ctxReceiveUniqueId` and `_ctxStateUniqueId`
abbrev pub ctx_receive_unique_id : String → String → String
ctx_receive_unique_id service context = concat service (concat ".ctxReceive." context)

abbrev pub ctx_state_unique_id : String → String → String
ctx_state_unique_id service context = concat service (concat ".ctxState." context)

-- `contexts.forEach(context => register(…))`
abbrev pub register_each : String → (String → String) → Fn → List String → Queue → Queue
register_each protocol unique_id handler [] q = q
register_each protocol unique_id handler (c ∷ cs) q =
    register_each protocol unique_id handler cs (register protocol handler (unique_id c) q)

-- `onReceive` and `onStateChange`, when `Receive` has resolved.
unfoldable pub on_receive_contexts : String → String → Bool → List String → Fn → Queue → Queue
on_receive_contexts protocol service success contexts handler q =
    if success then register_each protocol (ctx_receive_unique_id service) handler contexts q else q

unfoldable pub on_state_change_contexts : String → String → Bool → List String → Fn → Queue → Queue
on_state_change_contexts protocol service success contexts handler q =
    if success then register_each protocol (ctx_state_unique_id service) handler contexts q else q

module _ {D : Type 0} (body : ℕ → D → Queue → Queue) where
  -- `notificationHandler` of Messaging; an event type of another kind is left.
  unfoldable pub on_message_notification :
      String → String → String → D → Registry D → Option (Outcome D)
  on_message_notification protocol event_type context message r =
      if event_type == "messaging.state"
      then some (trigger body protocol message (ctx_state_unique_id "messaging" context) true r)
      else (if event_type == "messaging.receive"
          then some
              (trigger body protocol message (ctx_receive_unique_id "messaging" context) true r)
          else none)

  -- `notificationHandler` of Tasking.
  unfoldable pub on_task_notification : String → String → D → Registry D → Outcome D
  on_task_notification protocol context message r =
      trigger body protocol message (ctx_receive_unique_id "tasking" context) true r
