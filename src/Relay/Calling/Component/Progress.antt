-- ===== src/Relay/Calling/Component/Progress.antt =====
-- packages/common/src/relay/calling/components: the handlers of answers, connects, plays, records,
-- refers and faxes.
use signalwire_node.Common.{
  true, false, not, ◌&&◌, Option, some, String, ◌==◌, includes, if◌then◌else◌,
}
use signalwire_node.Relay.Constants.{
  CallState, call_state_text, CallConnectState, call_connect_state_text, CallPlayState,
  call_play_state_text, CallRecordState, call_record_state_text, CallFaxState, call_fax_state_text,
  CallReferState, call_refer_state_text,
}
use signalwire_node.Relay.Calling.Params.{
  StateParams, ConnectParams, RecordParams, PlainParams, FaxParams, FaxResultParams, ReferParams,
  Params, Payload, of_params, of_fax, Event,
}
use signalwire_node.Common.Json.{Json}
use signalwire_node.Relay.Calling.Component.{
  Class, Component, FaxFields, RecordFields, recording, refer, has_blocker, resolve, resolve_on,
}

abbrev pub new_event : String → Payload → Option Event
new_event name payload = some (record { name = name; payload = payload })

unfoldable pub on_answer : StateParams → Component → Component
on_answer p c = resolve_on p.call_state (
    if p.call_state == call_state_text CallState.answered
    then record c {
      completed = true;
      successful = true;
      event = new_event p.call_state (of_params (Params.state p));
    }
    else c)

unfoldable pub on_await : StateParams → Component → Component
on_await p c =
    if has_blocker c && includes c.events_to_wait p.call_state
    then resolve (record c {
      completed = true;
      successful = true;
      event = new_event p.call_state (of_params (Params.state p));
    })
    else c

-- The shape that Connect, Disconnect, Play and Refer share: `running` is the state in which the
-- operation goes on and `good` the one that ends it well.
abbrev pub settle : String → String → String → Payload → Component → Component
settle running good s payload c =
    let finished = not (s == running) in
    resolve_on s (
      if finished
      then record c {
        state = some s;
        completed = true;
        successful = s == good;
        event = new_event s payload;
      }
      else record c { state = some s; completed = false })

unfoldable pub on_connect : ConnectParams → Component → Component
on_connect p =
    settle (call_connect_state_text CallConnectState.connecting)
      (call_connect_state_text CallConnectState.connected) p.connect_state
      (of_params (Params.connect p))

unfoldable pub on_disconnect : ConnectParams → Component → Component
on_disconnect p =
    settle (call_connect_state_text CallConnectState.connecting)
      (call_connect_state_text CallConnectState.disconnected) p.connect_state
      (of_params (Params.connect p))

unfoldable pub on_play : PlainParams → Component → Component
on_play p =
    settle (call_play_state_text CallPlayState.playing)
      (call_play_state_text CallPlayState.finished) p.state (of_params (Params.play p))

-- Record also stores the recording's data when it completes.
unfoldable pub on_record : RecordParams → RecordFields → Json → Component → Component
on_record p old arg c =
    let finished = not (p.state == call_record_state_text CallRecordState.recording) in
    let stored : RecordFields = record { url = p.url; duration = p.duration; size = p.size } in
    resolve_on p.state (
      if finished
      then record c {
        class = recording arg stored;
        state = some p.state;
        completed = true;
        successful = p.state == call_record_state_text CallRecordState.finished;
        event = new_event p.state (of_params (Params.recording p));
      }
      else record c { state = some p.state; completed = false })

-- The Refer fields are stored at every notification.
unfoldable pub on_refer : ReferParams → Json → Component → Component
on_refer p arg c =
    settle (call_refer_state_text CallReferState.in_progress)
      (call_refer_state_text CallReferState.success) p.state (of_params (Params.refer p))
      (record c {
        class = refer arg (record {
          refer_to = p.sip_refer_to;
          refer_response_code = p.sip_refer_response_code;
          refer_notify_code = p.sip_notify_response_code;
        });
      })

-- BaseFax: the fields are stored only of a fax that succeeded, and `successful` is set only then.
abbrev fax_fields : FaxResultParams → FaxFields
fax_fields p = record {
  direction = p.direction;
  identity = p.identity;
  remote_identity = p.remote_identity;
  document = p.document;
  pages = p.pages;
}

unfoldable pub on_fax : FaxParams → (FaxFields → Class) → FaxFields → Component → Component
on_fax p class_of old c =
    let finished = not (p.type == call_fax_state_text CallFaxState.page) in
    resolve_on p.type (
      if finished
      then record c {
        class = class_of (if p.params.success then fax_fields p.params else old);
        state = some p.type;
        completed = true;
        successful = if p.params.success then true else c.successful;
        event = new_event p.type (of_fax p.params);
      }
      else record c { state = some p.type; completed = false })
