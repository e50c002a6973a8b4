-- ===== src/Examples/Relays.antt =====
-- The calls of packages/common/src/relay at concrete inputs.
use signalwire_node.Common.{
  ◌≡◌, ◌≢◌, refl, true, false, none, some, [], ◌∷◌, String, map, All, ◌==◌, eq_iff, arith,
}
use mathlib.Core.Option.{some-injective}
use signalwire_node.Common.Json.{null, pos}
use signalwire_node.Relay.Constants.{CallState, call_state_text, CallPlayState}
use signalwire_node.Relay.Devices.{
  nil, cons, one, many, MakeCallParams, Device, no_params, dial_options, prepare_dial_devices,
  prepare_device, reduce_peers, flat,
}
use signalwire_node.Relay.Devices.Described.{AreDevicesOf}
use signalwire_node.Relay.Devices.Shape.{IsNested, IsDialable, prepare_dial_devices-shape}
use signalwire_node.Relay.Calling.Params.{Params, StateParams, PlainParams}
use signalwire_node.Relay.Calling.Component.{Component, play}
use signalwire_node.Relay.Calling.Component.Handlers.{notification_handler}
use signalwire_node.Relay.Calling.Component.Told.{IsTold, notification_handler-IsTold}
use signalwire_node.Relay.Calling.Component.Waits.{IsSettled, play_waits}
use signalwire_node.Relay.Calling.Call.{Call, CallOptions, is_multi_dial}
use signalwire_node.Relay.Calling.Call.Changes.{change, state_change}
use signalwire_node.Relay.Calling.Call.Ending.{AllSettled, IsOver, state_change-IsOver}
use signalwire_node.Relay.Calling.Call.Starting.{begin, answers, begin-AllSettled}
use signalwire_node.Relay.Calling.Call.Routing.{reached, change-reached}
use signalwire_node.Relay.Calling.Registry.{Calling, notification, on_state}
use signalwire_node.Relay.Calling.Registry.Invariant.{notification-IsRegistry, on_state-ended}
use signalwire_node.Relay.Calling.Registry.Objects.{IsRegistry, IsOther}

abbrev pub peer : MakeCallParams
peer = record {
  type = some "phone";
  from = some "+1";
  to = some "+2";
  timeout = none;
  headers = none;
  codecs = none;
  webrtc_media = none;
  from_name = none;
}

abbrev pub device : Device
device = record {
  type = "phone";
  params = record no_params { from_number = some "+1"; to_number = some "+2"; timeout = some 30 };
}

prepare_dial_devices-shape_example :
    IsNested (cons (many (cons (one device) nil)) nil)
    × AreDevicesOf dial_options (peer ∷ []) (device ∷ [])
    × All IsDialable (device ∷ [])
unfolding prepare_dial_devices prepare_device reduce_peers flat
prepare_dial_devices-shape_example =
    prepare_dial_devices-shape (cons (one peer) nil) (cons (many (cons (one device) nil)) nil) refl

-- A Play that somebody waits for.
abbrev playing : Component
playing = record {
  class = play null (pos 0);
  control_id = "k1";
  blocker = some false;
  state = none;
  completed = false;
  successful = false;
  event = none;
  execute_result = none;
  events_to_wait = play_waits;
}

playing-IsSettled : IsSettled playing
playing-IsSettled = record {
  settled = λ done pending. ground arith;
  fits = λ ws b r. some-injective _ _ r;
}

abbrev finished : PlainParams
finished = record { call_id = "c1"; control_id = "k1"; state = "finished" }

notification_handler-IsTold_example :
    IsTold false playing (notification_handler (Params.play finished) playing)
notification_handler-IsTold_example =
    notification_handler-IsTold (Params.play finished) playing refl (CallPlayState.finished, refl)
      playing-IsSettled

abbrev options : CallOptions
options = record {
  call_id = some "c1";
  node_id = some "n1";
  device = some device;
  devices = none;
  peer = none;
  region = none;
  context = none;
}

abbrev pub call : Call
call = record {
  ref = 0;
  id = some "c1";
  tag = "t1";
  node_id = some "n1";
  state = "answered";
  prev_state = "ringing";
  failed = false;
  busy = false;
  options = options;
  cb_queue = [];
  components = playing ∷ [];
}

abbrev pub hung_up : StateParams
hung_up = record {
  call_id = some "c1";
  node_id = some "n1";
  tag = some "t1";
  call_state = "ended";
  end_reason = some "hangup";
  context = none;
  device = none;
}

state_change-IsOver_example :
    ((state_change hung_up call).removed ≡ true)
    × All IsOver (state_change hung_up call).call.components
state_change-IsOver_example =
    state_change-IsOver hung_up call refl (playing-IsSettled, tt) ((λ hit. tt), tt)

begin-AllSettled_example : AllSettled (begin answers "k2" call).0
begin-AllSettled_example = begin-AllSettled answers "k2" call (playing-IsSettled, tt)

change-reached_example :
    (change (Params.play finished) call).call.components
    ≡ map (reached (Params.play finished) call) (playing ∷ [])
change-reached_example = change-reached (Params.play finished) call

abbrev done : Component
done = record playing { completed = true; blocker = some true }

texts_differ : (s t : String) → (s == t) ≡ false → s ≢ t
texts_differ s t h e = ground (arith, eq_iff s t)

not_ended : call.state ≢ call_state_text CallState.ended
not_ended = texts_differ "answered" "ended" refl

abbrev pub calling : Calling
calling = record { calls = call ∷ []; next_ref = 1 }

pub calling-IsRegistry : IsRegistry calling
calling-IsRegistry = record {
  before = (omega arith, tt);
  unique = (tt, tt);
  live = (not_ended, tt);
}

notification-IsRegistry_example : IsRegistry (notification "u2" (Params.state hung_up) calling).0
notification-IsRegistry_example =
    notification-IsRegistry "u2" (Params.state hung_up) calling calling-IsRegistry

on_state-ended_example : All (IsOther call) (on_state "u2" hung_up calling).0.calls
unfolding is_multi_dial
on_state-ended_example = on_state-ended "u2" hung_up calling call calling-IsRegistry refl refl refl
