-- ===== src/Relay/Calling/Call/Operations.antt =====
-- Call.ts and BaseComponent.ts: the methods that start an operation. Their arguments are the
-- params that relay/helpers.ts has prepared. `uuid` is the new component's.
use signalwire_node.Common.{
  ℕ, ◌+◌, Bool, true, false, ◌||◌, Option, none, some, List, [], ◌∷◌, String, ◌==◌, if◌then◌else◌,
  leb, eqb,
}
use signalwire_node.Common.Json.{Json, ℤ}
use signalwire_node.Relay.Constants.{
  CallState, call_state_text, call_states, DialState, dial_state_text, CallConnectState,
  call_connect_state_text, CallPlayState, call_play_state_text, CallRecordState,
  call_record_state_text, CallFaxState, call_fax_state_text, CallPromptState,
  call_prompt_state_text, SendDigitsState, send_digits_state_text, CallTapState,
  call_tap_state_text, CallReferState, call_refer_state_text, CallDetectState,
  call_detect_state_text, DisconnectReason, disconnect_reason_text,
}
use signalwire_node.Relay.Devices.{Device, Deeps}
use signalwire_node.Relay.Calling.Params.{Response, of_response}
use signalwire_node.Relay.Calling.Component.{
  Class, Component, FaxFields, RecordFields, DetectFields, PromptFields, ReferFields, method,
  new_component, terminate, answer, await, connect, detect, dial, fax_receive, fax_send, hangup,
  play, prompt, recording, send_digits, tap, disconnect, refer, pass,
}
use signalwire_node.Relay.Calling.Call.{Call, Effect, requested, ended, add_component}
use signalwire_node.Relay.Calling.Call.Payloads.{payload}

-- `BaseComponent.execute` up to the answer: an ended call ends the component instead.
unfoldable pub execute : Call → Component → Component × List Effect
unfolding payload
execute c k = if ended c then (terminate none k, []) else elim (method k.class) [
  | none ↦ (k, [])
  | some m ↦ (k, requested m (payload k.class c k) ∷ [])
]

-- The answer to `execute`: a failure ends the component.
pub data Answer : Type 0 where
  resolved : Response → Answer
  rejected : Response → Answer

unfoldable pub on_response : Answer → Component → Component
on_response (resolved r) k = record k { execute_result = some r }
on_response (rejected r) k = record (terminate none k) { execute_result = some r }

-- `_waitFor`: the events, a new blocker, and the request.
unfoldable pub wait_for : List String → Call → Component → Component × List Effect
unfolding execute
wait_for events c k = execute c (record k { events_to_wait = events; blocker = some false })

abbrev added : Call → Component × List Effect → Call × List Effect
added c r = (add_component r.0 c, r.1)

-- The methods that wait for the end of the operation, and those that do not.
unfoldable pub start : Class → List String → String → Call → Call × List Effect
unfolding wait_for
start k events uuid c = added c (wait_for events c (new_component k c.tag uuid))

unfoldable pub start_async : Class → String → Call → Call × List Effect
unfolding execute
start_async k uuid c = added c (execute c (new_component k c.tag uuid))

unfoldable pub dial_call : String → Call → Call × List Effect
dial_call = start dial (dial_state_text DialState.answered ∷ dial_state_text DialState.failed ∷ [])

unfoldable pub disconnect_call : String → Call → Call × List Effect
disconnect_call = start disconnect (
    call_connect_state_text CallConnectState.failed
    ∷ call_connect_state_text CallConnectState.disconnected
    ∷ [])

-- Without a reason the default is `hangup`.
unfoldable pub hangup_call : Option String → String → Call → Call × List Effect
hangup_call reason =
    start
      (hangup
        (some (elim reason [ none ↦ disconnect_reason_text DisconnectReason.hangup | some r ↦ r ])))
      (call_state_text CallState.ended ∷ [])

unfoldable pub answer_call : String → Call → Call × List Effect
answer_call = start answer (
    call_state_text CallState.answered
    ∷ call_state_text CallState.ending
    ∷ call_state_text CallState.ended
    ∷ [])

unfoldable pub pass_call : String → Call → Call × List Effect
pass_call = start_async pass

-- The rest of `pass`, after the answer.
unfoldable pub passed : Response → Component → Component
passed r k = record k {
  completed = true;
  successful = elim r.code [ none ↦ false | some s ↦ s == "200" ];
  event = some (record { name = "response"; payload = of_response r });
}

abbrev no_record : RecordFields
no_record = record { url = none; duration = none; size = none }

unfoldable pub record_call : Json → String → Call → Call × List Effect
record_call arg = start (recording arg no_record) (
    call_record_state_text CallRecordState.no_input
    ∷ call_record_state_text CallRecordState.finished
    ∷ [])

unfoldable pub record_async : Json → String → Call → Call × List Effect
record_async arg = start_async (recording arg no_record)

unfoldable pub play_call : Json → ℤ → String → Call → Call × List Effect
play_call media volume =
    start (play media volume)
      (call_play_state_text CallPlayState.error ∷ call_play_state_text CallPlayState.finished ∷ [])

unfoldable pub play_async : Json → ℤ → String → Call → Call × List Effect
play_async media volume = start_async (play media volume)

abbrev no_prompt : PromptFields
no_prompt = record { type = none; input = none; terminator = none; confidence = none }

unfoldable pub prompt_call : Json → Json → ℤ → String → Call → Call × List Effect
prompt_call collect media volume = start (prompt collect media volume no_prompt) (
    call_prompt_state_text CallPromptState.error
    ∷ call_prompt_state_text CallPromptState.no_input
    ∷ call_prompt_state_text CallPromptState.no_match
    ∷ call_prompt_state_text CallPromptState.digit
    ∷ call_prompt_state_text CallPromptState.speech
    ∷ [])

unfoldable pub prompt_async : Json → Json → ℤ → String → Call → Call × List Effect
prompt_async collect media volume = start_async (prompt collect media volume no_prompt)

unfoldable pub connect_call : Deeps Device → Option Json → String → Call → Call × List Effect
connect_call devices ringback = start (connect devices ringback) (
    call_connect_state_text CallConnectState.failed
    ∷ call_connect_state_text CallConnectState.connected
    ∷ [])

unfoldable pub connect_async : Deeps Device → Option Json → String → Call → Call × List Effect
connect_async devices ringback = start_async (connect devices ringback)

abbrev no_fax : FaxFields
no_fax = record {
  direction = none;
  identity = none;
  remote_identity = none;
  document = none;
  pages = none;
}

abbrev fax_ends : List String
fax_ends = call_fax_state_text CallFaxState.error ∷ call_fax_state_text CallFaxState.finished ∷ []

unfoldable pub fax_receive_call : String → Call → Call × List Effect
fax_receive_call = start (fax_receive no_fax) fax_ends

unfoldable pub fax_receive_async : String → Call → Call × List Effect
fax_receive_async = start_async (fax_receive no_fax)

unfoldable pub fax_send_call :
    String → Option String → Option String → String → Call → Call × List Effect
fax_send_call document identity header = start (fax_send document identity header no_fax) fax_ends

unfoldable pub fax_send_async :
    String → Option String → Option String → String → Call → Call × List Effect
fax_send_async document identity header = start_async (fax_send document identity header no_fax)

abbrev new_detect : Bool → DetectFields
new_detect beep = record {
  type = none;
  result = none;
  events = [];
  waiting_for_ready = false;
  wait_for_beep = beep;
}

unfoldable pub detect_call : Json → Option ℕ → Bool → String → Call → Call × List Effect
detect_call arg timeout beep = start (detect arg timeout (new_detect beep)) (
    call_detect_state_text CallDetectState.machine
    ∷ call_detect_state_text CallDetectState.human
    ∷ call_detect_state_text CallDetectState.unknown
    ∷ call_detect_state_text CallDetectState.ced
    ∷ call_detect_state_text CallDetectState.cng
    ∷ [])

unfoldable pub detect_async : Json → Option ℕ → String → Call → Call × List Effect
detect_async arg timeout = start_async (detect arg timeout (new_detect false))

unfoldable pub tap_call : Json → Json → String → Call → Call × List Effect
tap_call t d = start (tap t d) (call_tap_state_text CallTapState.finished ∷ [])

unfoldable pub tap_async : Json → Json → String → Call → Call × List Effect
tap_async t d = start_async (tap t d)

unfoldable pub send_digits_call : String → String → Call → Call × List Effect
send_digits_call digits =
    start (send_digits digits) (send_digits_state_text SendDigitsState.finished ∷ [])

unfoldable pub send_digits_async : String → String → Call → Call × List Effect
send_digits_async digits = start_async (send_digits digits)

abbrev no_refer : ReferFields
no_refer = record { refer_to = none; refer_response_code = none; refer_notify_code = none }

unfoldable pub refer_call : Json → String → Call → Call × List Effect
refer_call params = start (refer params no_refer) (
    call_refer_state_text CallReferState.no_answer
    ∷ call_refer_state_text CallReferState.busy
    ∷ call_refer_state_text CallReferState.cancel
    ∷ call_refer_state_text CallReferState.success
    ∷ call_refer_state_text CallReferState.error
    ∷ [])

unfoldable pub refer_async : Json → String → Call → Call × List Effect
refer_async params = start_async (refer params no_refer)

-- `CALL_STATES.indexOf(s)` plus one, so that 0 is the -1 of a state that is not listed.
unfoldable pub position : List String → String → ℕ
position [] s = 0
position (x ∷ xs) s = if x == s then 1 else (let i = position xs s in if eqb i 0 then 0 else i + 1)

-- The loop of `waitFor`.
unfoldable pub has_passed : ℕ → List String → Bool
has_passed current [] = false
has_passed current (e ∷ es) = leb (position call_states e) current || has_passed current es

abbrev or_ended : List String → List String
or_ended [] = call_state_text CallState.ended ∷ []
or_ended (e ∷ es) = e ∷ es

-- `waitFor`: `true` at once, or the call with an Await component.
unfoldable pub wait_for_states : List String → String → Call → Bool × Call
unfolding position has_passed
wait_for_states events uuid c =
    let events' = or_ended events in
    if has_passed (position call_states c.state) events'
    then (true, c)
    else (false, (start await events' uuid c).0)
