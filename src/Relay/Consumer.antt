-- ===== src/Relay/Consumer.antt =====
-- packages/node/src/relay/RelayConsumer.ts: a consumer listens for the calls, messages, states of messages
-- and tasks of its contexts, whenever its client's session is ready.
pub mod Ids
pub mod Listening
use signalwire_node.Common.{
  Bool, true, false, not, ◌&&◌, Option, none, some, List, String, ◌==◌, if◌then◌else◌,
}
use signalwire_node.Handler.{Fn, Queue, is_nil}
use signalwire_node.Relay.Contexts.{
  receive, received, on_receive_contexts, on_state_change_contexts, ctx_receive_unique_id,
  ctx_state_unique_id,
}

-- The callbacks that are functions; `setup` and `ready` are only called.
pub record Consumer : Type 0 where
  pub host : Option String
  pub project : String
  pub token : String
  pub contexts : List String
  pub on_incoming_call : Option Fn
  pub on_incoming_message : Option Fn
  pub on_message_state_change : Option Fn
  pub on_task : Option Fn

-- `run`: whether the client is made and connected.
unfoldable pub run : Consumer → Bool
run c = not (c.project == "") && not (c.token == "") && not (is_nil c.contexts)

-- What a consumer listens for.
pub data Kind : Type 0 where
  calls messages states tasks : Kind

abbrev pub handler_of : Kind → Consumer → Option Fn
handler_of calls c = c.on_incoming_call
handler_of messages c = c.on_incoming_message
handler_of states c = c.on_message_state_change
handler_of tasks c = c.on_task

abbrev pub unique_id : Kind → String → String
unique_id calls = ctx_receive_unique_id "calling"
unique_id messages = ctx_receive_unique_id "messaging"
unique_id states = ctx_state_unique_id "messaging"
unique_id tasks = ctx_receive_unique_id "tasking"

-- The method of the service for it, once its `Receive` has resolved.
unfoldable pub listen : Kind → String → Bool → List String → Fn → Queue → Queue
unfolding on_receive_contexts on_state_change_contexts
listen calls protocol = on_receive_contexts protocol "calling"
listen messages protocol = on_receive_contexts protocol "messaging"
listen states protocol = on_state_change_contexts protocol "messaging"
listen tasks protocol = on_receive_contexts protocol "tasking"

-- The contexts of the session and the callbacks. `answered` says that the server refuses no context.
abbrev pub listen_with :
    Kind → String → Bool → Consumer → Option Fn → List String × Queue → List String × Queue
listen_with k protocol answered c none s = s
listen_with k protocol answered c (some handler) (held, q) =
    let r = received answered (receive held c.contexts) held in
    (r.0, listen k protocol r.1 c.contexts handler q)

abbrev pub listen_for : Kind → String → Bool → Consumer → List String × Queue → List String × Queue
listen_for k protocol answered c = listen_with k protocol answered c (handler_of k c)

-- The callback of `signalwire.ready`, up to `ready`.
unfoldable pub on_ready : String → Bool → Consumer → List String × Queue → List String × Queue
unfolding receive received listen
on_ready protocol answered c (held, q) =
    let r = received answered (receive held c.contexts) held in
    let for = λ (k : Kind). listen_for k protocol answered c in
    if r.1 then for tasks (for states (for messages (for calls (r.0, q)))) else (r.0, q)
