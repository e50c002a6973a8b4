-- ===== src/Relay/Calling/Call.antt =====
-- packages/common/src/relay/calling/Call.ts: one call of the Relay client. A method that starts an
-- operation returns the call with the new component and the request that goes out; what the
-- promises deliver later are further steps (`notify`, `on_response`). The user's callbacks are
-- recorded in `called`, in order; what they do in turn are further steps too.
pub mod Payloads
pub mod Operations
pub mod Changes
pub mod Waiting
pub mod Ending
pub mod Starting
pub mod Routing
use Prim.Native.String.{◌++◌ as concat}
use signalwire_node.Common.{
  ℕ, suc, Bool, true, false, not, ◌&&◌, ◌||◌, Option, none, some, List, [], ◌∷◌, ◌++◌, String, ◌==◌,
  map, length, ltb, if◌then◌else◌,
}
use signalwire_node.Common.Dict.{Dict, lookup, insert, delete}
use signalwire_node.Common.Json.{Json, ℤ, pos, null, num, str, undefined, array, object}
use signalwire_node.Relay.Constants.{
  CallState, call_state_text, CallNotification, call_notification_text, DisconnectReason,
  disconnect_reason_text,
}
use signalwire_node.Relay.Devices.{Device, Deeps, nil, cons, one, many, flat, text_truthy, or_else}
use signalwire_node.Relay.Calling.Params.{Params, Peer, Response, StateParams}
use signalwire_node.Relay.Calling.Component.{
  Class, Component, event_type, method, new_component, terminate, answer, await, connect, detect,
  dial, fax_receive, fax_send, hangup, play, prompt, recording, send_digits, tap, disconnect, refer,
  pass,
}
use signalwire_node.Relay.Calling.Component.Handlers.{notification_handler}

-- ICallOptions
pub record CallOptions : Type 0 where
  pub call_id : Option String
  pub node_id : Option String
  pub device : Option Device
  pub devices : Option (Deeps Device)
  pub peer : Option Peer
  pub region : Option String
  pub context : Option String

-- `ref` is the identity of the object.
pub record Call : Type 0 where
  pub ref : ℕ
  pub id : Option String
  pub tag : String
  pub node_id : Option String
  pub state : String
  pub prev_state : String
  pub failed : Bool
  pub busy : Bool
  pub options : CallOptions
  pub cb_queue : Dict ℕ
  pub components : List Component

-- A property of a request's params.
pub data Arg : Type 0 where
  text : Option String → Arg
  value : Json → Arg
  device_list : Deeps Device → Arg

pub data Effect : Type 0 where
  requested : String → List (String × Arg) → Effect
  called : ℕ → String → Option Params → Effect

abbrev pub state_is : CallState → Call → Bool
state_is s c = c.state == call_state_text s

abbrev pub answered : Call → Bool
answered c = state_is CallState.answered c

unfoldable pub ended : Call → Bool
ended c = state_is CallState.ending c || state_is CallState.ended c

abbrev pub active : Call → Bool
active c = not (ended c)

abbrev pub ready : Call → Bool
ready c = text_truthy c.id

abbrev is_none {ℓ} : {A : Type ℓ} → Option A → Bool
is_none none = true
is_none (some a) = false

abbrev count_devices : Option (Deeps Device) → ℕ
count_devices none = 0
count_devices (some ds) = length (flat ds)

unfoldable pub is_multi_dial : CallOptions → Bool
is_multi_dial o = is_none o.device && ltb 1 (count_devices o.devices)

abbrev first : List Device → Option Device
first [] = none
first (d ∷ ds) = some d

-- The constructor: a single device of `devices` becomes the call's `device`.
abbrev settle_device : CallOptions → CallOptions
settle_device o = elim o.devices [
  | none ↦ o
  | some ds ↦
      if is_none o.device && not (is_multi_dial o) then record o { device = first (flat ds) } else o
]

unfoldable pub new_call : ℕ → String → CallOptions → Call
unfolding is_multi_dial
new_call ref tag o = record {
  ref = ref;
  id = o.call_id;
  tag = tag;
  node_id = o.node_id;
  state = call_state_text CallState.none;
  prev_state = call_state_text CallState.none;
  failed = false;
  busy = false;
  options = settle_device o;
  cb_queue = [];
  components = [];
}

-- The getters `from`, `to` and `timeout`; `none` is the TypeError of a call without a device.
abbrev or_text : Option String → String → String
or_text none d = d
or_text (some s) d = s

unfoldable pub from : Call → Option String
from c = elim c.options.device [
  | none ↦ none
  | some d ↦
      some (if d.type == "phone" then or_text d.params.from_number "" else or_text d.params.from "")
]

unfoldable pub to : Call → Option String
to c = elim c.options.device [
  | none ↦ none
  | some d ↦
      some (if d.type == "phone" then or_text d.params.to_number "" else or_text d.params.to "")
]

unfoldable pub timeout : Call → Option (Option ℕ)
timeout c = elim c.options.device [
  | none ↦ none
  | some d ↦ some (
      if d.type == "phone"
      then or_else d.params.timeout (some 30)
      else (if d.type == "sip" then d.params.timeout else none))
]

unfoldable pub on : String → ℕ → Call → Call
on event callback c = record c { cb_queue = insert event callback c.cb_queue }

unfoldable pub off : String → Call → Call
off event c = record c { cb_queue = delete event c.cb_queue }

-- `_dispatchCallback`
unfoldable pub dispatch_callback : String → Option Params → Call → List Effect
dispatch_callback key params c = elim (lookup key c.cb_queue) [
  | none ↦ []
  | some handler ↦ called handler key params ∷ []
]

-- `component.completed === false && component.eventType === eventType && component.controlId === …`
abbrev pub is_addressed : String → String → Component → Bool
is_addressed event control_id k =
    not k.completed && ((event_type k.class == event) && (k.control_id == control_id))

abbrev pub notify_one : CallNotification → String → Params → Component → Component
notify_one event control_id p k =
    if is_addressed (call_notification_text event) control_id k then notification_handler p k else k

-- `_notifyComponents`
unfoldable pub notify_components : CallNotification → String → Params → Call → Call
notify_components event control_id p c = record c {
  components = map (notify_one event control_id p) c.components;
}

abbrev pub terminate_one : StateParams → Component → Component
terminate_one p k = if not k.completed then terminate (some p) k else k

-- `_terminateComponents`
unfoldable pub terminate_components : StateParams → Call → Call
terminate_components p c = record c { components = map (terminate_one p) c.components }

unfoldable pub add_component : Component → Call → Call
add_component k c = record c { components = c.components ++ k ∷ [] }
