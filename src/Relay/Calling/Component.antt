-- ===== src/Relay/Calling/Component.antt =====
-- packages/common/src/relay/calling/components: one operation of a call in progress. The subclasses
-- of `BaseComponent` are the constructors of `Class`, with the fields that each class adds. A
-- component's `blocker` is the promise that `_waitFor` returns: `some false` while it is pending.
pub mod Progress
pub mod Handlers
pub mod Waits
pub mod Cover
pub mod Released
pub mod Settled
pub mod Told
use signalwire_node.Common.{
  ℕ, Bool, true, false, not, ◌&&◌, Option, none, some, List, [], ◌∷◌, String, ◌==◌, includes,
  if◌then◌else◌,
}
use signalwire_node.Common.Dict.{is_some}
use signalwire_node.Common.Json.{
  ℤ, pos, negsuc, Json, undefined, null, str, num, object, text_or_undefined,
}
use signalwire_node.Relay.Devices.{Deeps, Device}
use signalwire_node.Relay.Constants.{
  CallNotification, call_notification_text, CallMethod, call_method_text, CallState,
  call_state_text,
}
use signalwire_node.Relay.Calling.Params.{Event, Response, StateParams, Params, of_params}
use signalwire_node.Relay.Calling.Params

-- What Fax, Prompt, Record, Refer and Detect store of their notifications.
pub record FaxFields : Type 0 where
  pub direction : Option String
  pub identity : Option String
  pub remote_identity : Option String
  pub document : Option String
  pub pages : Option ℕ

pub record PromptFields : Type 0 where
  pub type : Option String
  pub input : Option String
  pub terminator : Option String
  pub confidence : Option ℕ

pub record RecordFields : Type 0 where
  pub url : Option String
  pub duration : Option ℕ
  pub size : Option ℕ

pub record ReferFields : Type 0 where
  pub refer_to : Option String
  pub refer_response_code : Option String
  pub refer_notify_code : Option String

pub record DetectFields : Type 0 where
  pub type : Option String
  pub result : Option String
  pub events : List String
  pub waiting_for_ready : Bool
  pub wait_for_beep : Bool

pub data Class : Type 0 where
  answer : Class
  await : Class
  connect : Deeps Device → Option Json → Class
  detect : Json → Option ℕ → DetectFields → Class
  dial : Class
  fax_receive : FaxFields → Class
  fax_send : String → Option String → Option String → FaxFields → Class
  hangup : Option String → Class
  play : Json → ℤ → Class
  prompt : Json → Json → ℤ → PromptFields → Class
  recording : Json → RecordFields → Class
  send_digits : String → Class
  tap : Json → Json → Class
  disconnect : Class
  refer : Json → ReferFields → Class
  pass : Class

-- `eventType` of each class.
abbrev pub event_type : Class → String
event_type answer = call_notification_text CallNotification.state
event_type await = call_notification_text CallNotification.state
event_type (connect _ _) = call_notification_text CallNotification.connect
event_type (detect _ _ _) = call_notification_text CallNotification.detect
event_type dial = call_notification_text CallNotification.dial
event_type (fax_receive _) = call_notification_text CallNotification.fax
event_type (fax_send _ _ _ _) = call_notification_text CallNotification.fax
event_type (hangup _) = call_notification_text CallNotification.state
event_type (play _ _) = call_notification_text CallNotification.play
event_type (prompt _ _ _ _) = call_notification_text CallNotification.collect
event_type (recording _ _) = call_notification_text CallNotification.recording
event_type (send_digits _) = call_notification_text CallNotification.send_digits
event_type (tap _ _) = call_notification_text CallNotification.tap
event_type disconnect = call_notification_text CallNotification.connect
event_type (refer _ _) = call_notification_text CallNotification.refer
event_type pass = call_notification_text CallNotification.state

-- `method` of each class; `null` for Await.
abbrev pub method : Class → Option String
method answer = some (call_method_text CallMethod.answer)
method await = none
method (connect _ _) = some (call_method_text CallMethod.connect)
method (detect _ _ _) = some (call_method_text CallMethod.detect)
method dial = some (call_method_text CallMethod.dial)
method (fax_receive _) = some (call_method_text CallMethod.receive_fax)
method (fax_send _ _ _ _) = some (call_method_text CallMethod.send_fax)
method (hangup _) = some (call_method_text CallMethod.end)
method (play _ _) = some (call_method_text CallMethod.play)
method (prompt _ _ _ _) = some (call_method_text CallMethod.play_and_collect)
method (recording _ _) = some (call_method_text CallMethod.recording)
method (send_digits _) = some (call_method_text CallMethod.send_digits)
method (tap _ _) = some (call_method_text CallMethod.tap)
method disconnect = some (call_method_text CallMethod.disconnect)
method (refer _ _) = some (call_method_text CallMethod.refer)
method pass = some (call_method_text CallMethod.pass)

-- The classes that set `controlId` to the call's tag; the others keep BaseComponent's new uuid.
abbrev pub control_id_of : Class → String → String → String
control_id_of answer tag uuid = tag
control_id_of await tag uuid = tag
control_id_of dial tag uuid = tag
control_id_of (hangup _) tag uuid = tag
control_id_of disconnect tag uuid = tag
control_id_of (refer _ _) tag uuid = tag
control_id_of _ tag uuid = uuid

pub record Component : Type 0 where
  pub class : Class
  pub control_id : String
  pub blocker : Option Bool
  pub state : Option String
  pub completed : Bool
  pub successful : Bool
  pub event : Option Event
  pub execute_result : Option Response
  pub events_to_wait : List String

unfoldable pub new_component : Class → String → String → Component
new_component c tag uuid = record {
  class = c;
  control_id = control_id_of c tag uuid;
  blocker = none;
  state = none;
  completed = false;
  successful = false;
  event = none;
  execute_result = none;
  events_to_wait = [];
}

abbrev pub has_blocker : Component → Bool
has_blocker c = is_some c.blocker

-- `blocker.resolve()`
abbrev pub resolve : Component → Component
resolve c = record c { blocker = some true }

-- `if (this._hasBlocker() && this._eventsToWait.includes(s)) { this.blocker.resolve() }`
abbrev pub resolve_on : String → Component → Component
resolve_on s c = if has_blocker c && includes c.events_to_wait s then resolve c else c

-- `params` is `none` for the empty object.
unfoldable pub terminate : Option StateParams → Component → Component
terminate params c =
    let event' : Option Event = elim params [
      | none ↦ c.event
      | some p ↦
          if p.call_state == ""
          then c.event
          else some (record { name = p.call_state; payload = of_params (Params.state p) })
    ] in
    record c {
      completed = true;
      successful = false;
      state = some "failed";
      event = event';
      blocker = if has_blocker c then some true else none;
    }
