-- ===== src/Relay/Calling/Call/Starting.antt =====
-- What the methods that start an operation leave: a call whose components are all settled.
use signalwire_node.Common.{
  if-both, Option-cases, inl, inr, ◌≡◌, Bool, false, Option, none, some, List, [], ◌∷◌, ◌++◌,
  String, arith, All, inl, inr, ℕ,
}
use mathlib.Core.Option.{some-injective}
use signalwire_node.Common.Json.{Json, ℤ}
use signalwire_node.Relay.Devices.{Deeps, Device}
use signalwire_node.Relay.Calling.Component.{
  answer, hangup, dial, disconnect, play, prompt, recording, connect, detect, fax_receive, fax_send,
  tap, send_digits, refer, method, Class, Component, new_component,
}
use signalwire_node.Relay.Calling.Component.Settled.{terminate-IsSettled}
use signalwire_node.Relay.Calling.Component.Waits.{IsSettled, required}
use signalwire_node.Relay.Calling.Call.{
  ended, Call, Effect, add_component, answer, method, hangup, dial, disconnect, play,
}
use signalwire_node.Relay.Calling.Call.Ending.{AllSettled}
use signalwire_node.Relay.Calling.Call.Operations.{
  execute, wait_for, start, start_async, answer_call, hangup_call, play_call, prompt_call,
  record_call, connect_call, disconnect_call, fax_receive_call, fax_send_call, tap_call,
  send_digits_call, refer_call, detect_call, dial_call,
}

append-All :
    (ks : List Component) (k : Component)
    → All IsSettled ks
    → IsSettled k
    → All IsSettled (ks ++ k ∷ [])
append-All [] k h s = (s, tt)
append-All (x ∷ xs) k (h, hs) s = (h, append-All xs k hs s)

execute-IsSettled : (c : Call) (k : Component) → IsSettled k → IsSettled (execute c k).0
unfolding execute
execute-IsSettled c k h =
    if-both (λ (r : Component × List Effect). IsSettled r.0) (ended c) _ _
      (λ over. terminate-IsSettled none k h)
      (λ open'. elim (Option-cases (method k.class)) [ inl e ↦ rw e h | inr (m, e) ↦ rw e h ])

-- A component that waits for the events of its class has not completed when it is made.
waiting-IsSettled :
    (k : Class) (events : List String) (tag uuid : String)
    → ((ws : List String) → required k ≡ some ws → events ≡ ws)
    → IsSettled
        (record (new_component k tag uuid) { events_to_wait = events; blocker = some false })
unfolding new_component
waiting-IsSettled k events tag uuid f = record {
  settled = λ done pending. ground arith;
  fits = λ ws b r. f ws r;
}

start-AllSettled :
    (k : Class) (events : List String) (uuid : String) (c : Call)
    → ((ws : List String) → required k ≡ some ws → events ≡ ws)
    → AllSettled c
    → AllSettled (start k events uuid c).0
unfolding start wait_for add_component
start-AllSettled k events uuid c f h =
    append-All c.components _ h (execute-IsSettled c _ (waiting-IsSettled k events c.tag uuid f))

start_async-AllSettled :
    (k : Class) (uuid : String) (c : Call) → AllSettled c → AllSettled (start_async k uuid c).0
unfolding start_async add_component new_component
start_async-AllSettled k uuid c h = append-All c.components _ h (
    execute-IsSettled c (new_component k c.tag uuid)
      (record { settled = λ done pending. ground arith; fits = λ ws b r. ground arith }))

-- The methods of a call that start an operation and wait for its end, or that do not wait.
pub data Operation : Type 0 where
  answers : Operation
  hangs_up : Option String → Operation
  dials : Operation
  disconnects : Operation
  plays : Json → ℤ → Operation
  prompts : Json → Json → ℤ → Operation
  records : Json → Operation
  connects : Deeps Device → Option Json → Operation
  detects : Json → Option ℕ → Bool → Operation
  receives_fax : Operation
  sends_fax : String → Option String → Option String → Operation
  taps : Json → Json → Operation
  sends_digits : String → Operation
  refers : Json → Operation
  without_waiting : Class → Operation

unfoldable pub begin : Operation → String → Call → Call × List Effect
begin answers = answer_call
begin (hangs_up reason) = hangup_call reason
begin dials = dial_call
begin disconnects = disconnect_call
begin (plays media volume) = play_call media volume
begin (prompts collect media volume) = prompt_call collect media volume
begin (records arg) = record_call arg
begin (connects devices ringback) = connect_call devices ringback
begin (detects arg timeout beep) = detect_call arg timeout beep
begin receives_fax = fax_receive_call
begin (sends_fax document identity header) = fax_send_call document identity header
begin (taps t d) = tap_call t d
begin (sends_digits digits) = send_digits_call digits
begin (refers params) = refer_call params
begin (without_waiting k) = start_async k

-- Whatever operation is started, also on a call that has ended, the components of the call are
-- settled if they were: no component is completed while somebody waits for it, and who waits does
-- so for exactly the events that the method of its class waits for.
pub begin-AllSettled :
    (o : Operation) (uuid : String) (c : Call) → AllSettled c → AllSettled (begin o uuid c).0
unfolding begin answer_call hangup_call dial_call disconnect_call play_call prompt_call record_call
    connect_call detect_call fax_receive_call fax_send_call tap_call send_digits_call refer_call
begin-AllSettled answers uuid c h = start-AllSettled answer _ uuid c (λ ws. some-injective _ _) h
begin-AllSettled (hangs_up reason) uuid c h =
    start-AllSettled (hangup _) _ uuid c (λ ws. some-injective _ _) h
begin-AllSettled dials uuid c h = start-AllSettled dial _ uuid c (λ ws. some-injective _ _) h
begin-AllSettled disconnects uuid c h =
    start-AllSettled disconnect _ uuid c (λ ws. some-injective _ _) h
begin-AllSettled (plays media volume) uuid c h =
    start-AllSettled (play media volume) _ uuid c (λ ws. some-injective _ _) h
begin-AllSettled (prompts collect media volume) uuid c h =
    start-AllSettled (prompt collect media volume _) _ uuid c (λ ws. some-injective _ _) h
begin-AllSettled (records arg) uuid c h =
    start-AllSettled (recording arg _) _ uuid c (λ ws. some-injective _ _) h
begin-AllSettled (connects devices ringback) uuid c h =
    start-AllSettled (connect devices ringback) _ uuid c (λ ws. some-injective _ _) h
begin-AllSettled (detects arg timeout beep) uuid c h =
    start-AllSettled (detect arg timeout _) _ uuid c (λ ws. some-injective _ _) h
begin-AllSettled receives_fax uuid c h =
    start-AllSettled (fax_receive _) _ uuid c (λ ws. some-injective _ _) h
begin-AllSettled (sends_fax document identity header) uuid c h =
    start-AllSettled (fax_send document identity header _) _ uuid c (λ ws. some-injective _ _) h
begin-AllSettled (taps t d) uuid c h =
    start-AllSettled (tap t d) _ uuid c (λ ws. some-injective _ _) h
begin-AllSettled (sends_digits digits) uuid c h =
    start-AllSettled (send_digits digits) _ uuid c (λ ws. some-injective _ _) h
begin-AllSettled (refers params) uuid c h =
    start-AllSettled (refer params _) _ uuid c (λ ws. some-injective _ _) h
begin-AllSettled (without_waiting k) uuid c h = start_async-AllSettled k uuid c h
