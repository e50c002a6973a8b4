-- ===== src/Examples/Deliveries.antt =====
-- Messages that are sent, connects, the options of a new call, and a consumer, at concrete inputs.
use signalwire_node.Common.{true, false, ◌≡◌, refl, none, some, [], ◌∷◌, differ}
use signalwire_node.Common.Dict.{Dict, lookup}
use signalwire_node.Common.Json.{Json}
use signalwire_node.Handler.{plain}
use signalwire_node.Handler.Contents.{subscribers}
use signalwire_node.Session.Subscriptions.{close_subscriptions}
use signalwire_node.Messages.{dialog_params}
use signalwire_node.Messages.Renaming.{or_else}
use signalwire_node.Relay.Media.{destruct_calling_play}
use signalwire_node.Relay.Messaging.{send}
use signalwire_node.Relay.Messaging.Sending.{sent, resent, send-again}
use signalwire_node.Relay.Devices.{Deeps, Device, nil, cons, one, PrepareOptions, flat}
use signalwire_node.Relay.Devices.Shape.{IsNested}
use signalwire_node.Relay.Devices.Described.{AreDevicesOf}
use signalwire_node.Relay.Devices.Connecting.{whole}
use signalwire_node.Relay.Calling.Shorthands.{waits, run_connect, run_connect_devices}
use signalwire_node.Relay.Calling.Shorthands.Connects.{HasDefaults, as_arguments, run_connect-forms}
use signalwire_node.Relay.Consumer.{Consumer, calls, unique_id, on_ready}
use signalwire_node.Relay.Consumer.Listening.{listed, close_subscriptions-on_ready}
use signalwire_node.Webrtc.Options.{SessionDefaults, call_options}
use signalwire_node.Webrtc.Options.Chosen.{chosen, decided, call_options-decided}
use signalwire_node.Examples.Relays.{call, device, peer}
use signalwire_node.Examples.Sessions.{nothing}

abbrev written : Dict Json
written = ("from", Json.str "+1") ∷ ("to", Json.str "+2") ∷ ("body", Json.str "hello") ∷ []

send-again_example :
    let first = (send "r1" (some "p1") written).1 in
    (lookup "from_number" first ≡ sent "from_number" written)
    × (lookup "from_number" (send "r2" (some "p1") first).1 ≡ resent "from_number" first)
send-again_example = send-again "r1" "r2" (some "p1") written "from_number"

run_connect-forms_example :
    (ds : Deeps Device) × (run_connect waits (as_arguments (cons (one peer) nil)) "k9" call
      ≡ some (run_connect_devices waits ds none "k9" call))
    × ((ringback : Dict Json)
        → run_connect waits (whole (cons (one peer) nil) (some ringback) ∷ []) "k9" call
          ≡ some (run_connect_devices waits ds (some (destruct_calling_play ringback)) "k9" call))
    × IsNested ds
    × ((o : PrepareOptions) × HasDefaults device o
        × AreDevicesOf o (flat (cons (one peer) nil)) (flat ds))
run_connect-forms_example = run_connect-forms waits (cons (one peer) nil) device "k9" call refl

abbrev defaults : SessionDefaults
defaults = record {
  ice_servers = Json.undefined;
  speaker = Json.undefined;
  mic_id = Json.str "m1";
  mic_label = Json.undefined;
  cam_id = Json.undefined;
  cam_label = Json.undefined;
  local_element = Json.null;
  remote_element = Json.null;
  audio = Json.bool true;
  video = Json.bool false;
  user_variables = none;
}

abbrev wanted : Dict Json
wanted = ("destinationNumber", Json.str "200") ∷ []

call_options-decided_example :
    let options = call_options defaults "c1" wanted in
    let settled = decided defaults "c1" (chosen defaults wanted) in
    (lookup "micId" options ≡ settled "micId")
    × (lookup "callID" (dialog_params options) ≡ or_else (settled "id") (settled "callID"))
    × (lookup "remote_caller_id_number" (dialog_params options)
        ≡ or_else (settled "remoteCallerNumber") (settled "remote_caller_id_number"))
call_options-decided_example = call_options-decided defaults "c1" wanted "micId" (tt, tt)

abbrev consumer : Consumer
consumer = record {
  host = none;
  project = "p";
  token = "t";
  contexts = "office" ∷ "home" ∷ [];
  on_incoming_call = some (plain 4);
  on_incoming_message = none;
  on_message_state_change = none;
  on_task = some (plain 5);
}

close_subscriptions-on_ready_example :
    subscribers "p1"
      (unique_id calls "home")
      (on_ready "p1" true consumer ([], (close_subscriptions (some "p1") nothing).handlers)).1
    ≡ listed (some (plain 4))
close_subscriptions-on_ready_example =
    close_subscriptions-on_ready "p1" consumer nothing "home" calls (differ "p1" "" refl)
      (refl, (refl, tt)) refl (differ "home" "" refl)
