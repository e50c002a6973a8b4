-- ===== src/Relay/Calling/Call/Changes.antt =====
-- Call.ts: what a call does at each kind of notification.
use Prim.Native.String.{◌++◌ as concat}
use signalwire_node.Common.{
  Bool, true, false, ◌||◌, Option, none, some, List, [], ◌∷◌, ◌++◌, String, ◌==◌, if◌then◌else◌,
}
use signalwire_node.Relay.Constants.{
  CallState, CallNotification, DisconnectReason, disconnect_reason_text, DialState, dial_state_text,
  CallConnectState, call_connect_state_text, CallDetectState, call_detect_state_text,
}
use signalwire_node.Relay.Devices.{or_else}
use signalwire_node.Relay.Calling.Params.{
  StateParams, DialedCall, DialParams, ConnectParams, RecordParams, PlainParams, CollectParams,
  FaxParams, DetectParams, TapParams, ReferParams, Params,
}
use signalwire_node.Relay.Calling.Call.{
  Call, CallOptions, Effect, state_is, notify_components, terminate_components, dispatch_callback,
}

abbrev is_reason : DisconnectReason → Option String → Bool
is_reason r none = false
is_reason r (some s) = s == disconnect_reason_text r

-- A call after a notification, what it did, and whether it asked its Calling to remove it.
pub record Changed : Type 0 where
  pub call : Call
  pub effects : List Effect
  pub removed : Bool

unfoldable pub enter_state : String → Call → Call
enter_state s c = record c { prev_state = c.state; state = s }

-- `_stateChange`
unfoldable pub state_change : StateParams → Call → Changed
unfolding enter_state
state_change p c0 =
    let c1 = enter_state p.call_state c0 in
    let c = notify_components CallNotification.state c1.tag (Params.state p) c1 in
    let effects = dispatch_callback "stateChange" none c ++ dispatch_callback p.call_state none c in
    if state_is CallState.ended c
    then record {
      call = terminate_components p (record c {
        busy = is_reason DisconnectReason.busy p.end_reason;
        failed = is_reason DisconnectReason.error p.end_reason;
      });
      effects = effects;
      removed = true;
    }
    else record { call = c; effects = effects; removed = false }

-- `this.setOptions(call)`: a property that is there replaces the call's.
abbrev set_dialed : DialedCall → CallOptions → CallOptions
set_dialed d o = record o {
  call_id = or_else d.call_id o.call_id;
  node_id = or_else d.node_id o.node_id;
  device = or_else d.device o.device;
}

unfoldable pub adopt : Option DialedCall → Call → Call
adopt none c = c
adopt (some d) c = record c {
  options = set_dialed d c.options;
  id = d.call_id;
  node_id = d.node_id;
}

-- `_dialChange`
unfoldable pub dial_change : DialParams → Call → Changed
unfolding adopt
dial_change p c =
    let c' = if p.dial_state == dial_state_text DialState.answered then adopt p.call c else c in
    record {
      call = notify_components CallNotification.dial c.tag (Params.dial p) c';
      effects = [];
      removed = false;
    }

-- The `peer` option after a connect notification.
unfoldable pub connect_peer : ConnectParams → Call → Call
connect_peer p c =
    if p.connect_state == call_connect_state_text CallConnectState.connected
    then record c { options = record (c.options) { peer = or_else p.peer c.options.peer } }
    else (if p.connect_state == call_connect_state_text CallConnectState.disconnected
        then record c { options = record (c.options) { peer = none } }
        else c)

-- `_connectChange`
unfoldable pub connect_change : ConnectParams → Call → Changed
unfolding connect_peer
connect_change p c0 =
    let c =
      notify_components CallNotification.connect c0.tag (Params.connect p) (connect_peer p c0) in
    record {
      call = c;
      effects =
          dispatch_callback "connect.stateChange" none c
          ++ dispatch_callback (concat "connect." p.connect_state) none c;
      removed = false;
    }

abbrev dispatch_all : List String → Params → Call → List Effect
dispatch_all [] p c = []
dispatch_all (k ∷ ks) p c = dispatch_callback k (some p) c ++ dispatch_all ks p c

-- The notifications that a component finds by its own control id.
abbrev notified : CallNotification → String → Params → List String → Call → Changed
notified event control_id p keys c0 =
    let c = notify_components event control_id p c0 in
    record { call = c; effects = dispatch_all keys p c; removed = false }

-- `_recordChange`
unfoldable pub record_change : RecordParams → Call → Changed
record_change p =
    notified CallNotification.recording p.control_id (Params.recording p)
      ("record.stateChange" ∷ concat "record." p.state ∷ [])

-- `_playChange`
unfoldable pub play_change : PlainParams → Call → Changed
play_change p =
    notified CallNotification.play p.control_id (Params.play p)
      ("play.stateChange" ∷ concat "play." p.state ∷ [])

-- `_collectChange`
unfoldable pub collect_change : CollectParams → Call → Changed
collect_change p =
    notified CallNotification.collect p.control_id (Params.collect p) ("collect" ∷ "prompt" ∷ [])

-- `_faxChange`
unfoldable pub fax_change : FaxParams → Call → Changed
fax_change p =
    notified CallNotification.fax p.control_id (Params.fax p)
      ("fax.stateChange" ∷ (if p.type == "" then [] else concat "fax." p.type ∷ []))

abbrev detect_keys : String → List String
detect_keys event =
    if (event == call_detect_state_text CallDetectState.finished)
      || (event == call_detect_state_text CallDetectState.error)
    then concat "detect." event ∷ []
    else (if event == "" then [] else "detect.update" ∷ [])

-- `_detectChange`
unfoldable pub detect_change : DetectParams → Call → Changed
detect_change p =
    notified CallNotification.detect p.control_id (Params.detect p) (detect_keys p.detect.event)

-- `_tapChange`
unfoldable pub tap_change : TapParams → Call → Changed
tap_change p =
    notified CallNotification.tap p.control_id (Params.tap p) (concat "tap." p.state ∷ [])

-- `_sendDigitsChange`
unfoldable pub send_digits_change : PlainParams → Call → Changed
send_digits_change p =
    notified CallNotification.send_digits p.control_id (Params.send_digits p)
      ("sendDigits.stateChange" ∷ concat "sendDigits." p.state ∷ [])

-- `_referChange`: the components are found by the call's tag.
unfoldable pub refer_change : ReferParams → Call → Changed
refer_change p c =
    notified CallNotification.refer c.tag (Params.refer p)
      ("refer.stateChange" ∷ concat "refer." p.state ∷ []) c

-- The change that a notification makes to the call that it is about.
unfoldable pub change : Params → Call → Changed
unfolding state_change dial_change connect_change record_change play_change collect_change
    fax_change detect_change tap_change send_digits_change refer_change
change (Params.state p) = state_change p
change (Params.dial p) = dial_change p
change (Params.connect p) = connect_change p
change (Params.recording p) = record_change p
change (Params.play p) = play_change p
change (Params.collect p) = collect_change p
change (Params.fax p) = fax_change p
change (Params.detect p) = detect_change p
change (Params.tap p) = tap_change p
change (Params.send_digits p) = send_digits_change p
change (Params.refer p) = refer_change p
