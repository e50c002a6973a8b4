-- ===== src/Relay/Calling/Control.antt =====
-- packages/common/src/relay/calling/components/Controllable.ts, with the actions and the results: the
-- requests that stop, pause, resume or tune an operation, what their answers say, and what a user sees
-- of a component.
pub mod Answers
use Prim.Native.String.{◌++◌ as concat}
use signalwire_node.Common.{
  ℕ, Bool, true, false, Option, none, some, List, [], ◌∷◌, ◌++◌, String, ◌==◌, if◌then◌else◌,
}
use signalwire_node.Common.Dict.{Dict, lookup}
use signalwire_node.Common.Json.{Json, ℤ}
use signalwire_node.Util.{Settled, error, result}
use signalwire_node.Relay.Media.{properties}
use signalwire_node.Relay.Calling.Params.{Event}
use signalwire_node.Relay.Calling.Component.{
  Class, Component, method, answer, await, connect, detect, dial, fax_receive, fax_send, hangup,
  play, prompt, recording, send_digits, tap, disconnect, refer, pass, FaxFields,
}
use signalwire_node.Relay.Calling.Call.{Call, Arg, value, Effect, requested}
use signalwire_node.Relay.Calling.Call.Payloads.{control_args}

abbrev method_of : Component → String
method_of k = elim (method k.class) [ none ↦ "null" | some m ↦ m ]

-- `_execute` of Controllable, and the request of `volume`.
unfoldable pub control_request : String → Call → Component → Effect
control_request action c k = requested (concat (method_of k) (concat "." action)) (control_args c k)

unfoldable pub volume_request : ℤ → Call → Component → Effect
volume_request volume c k =
    requested (concat (method_of k) ".volume")
      (control_args c k ++ ("volume", value (Json.num volume)) ∷ [])

-- What `_execute` resolves to: an error is an answer as well.
abbrev pub answer_of : Settled → Json
answer_of (error e) = e
answer_of (result object node_id) = object

abbrev pub text_of : Option Json → Option String
text_of (some (Json.str s)) = some s
text_of o = none

abbrev pub is_ok : Option String → Bool
is_ok none = false
is_ok (some code) = code == "200"

-- StopResult
pub record StopResult : Type 0 where
  pub code : Option String
  pub message : Option String
  pub successful : Bool

unfoldable pub stop_result : Settled → StopResult
unfolding lookup
stop_result s =
    let o = properties (some (answer_of s)) in
    record {
      code = text_of (lookup "code" o);
      message = text_of (lookup "message" o);
      successful = is_ok (text_of (lookup "code" o));
    }

-- `pause` and `resume`, then `volume`.
unfoldable pub paused : Settled → Bool
unfolding lookup
paused s = is_ok (text_of (lookup "code" (properties (some (answer_of s)))))

unfoldable pub volume_set : Settled → Bool
volume_set (error e) = false
volume_set (result object node_id) = true

-- The controls that an action has: stop, pause and resume, volume.
pub record Controls : Type 0 where
  pub stops : Bool
  pub pauses : Bool
  pub tunes : Bool

abbrev pub controls_of : Class → Controls
controls_of (detect _ _ _) = record { stops = true; pauses = false; tunes = false }
controls_of (fax_receive _) = record { stops = true; pauses = false; tunes = false }
controls_of (fax_send _ _ _ _) = record { stops = true; pauses = false; tunes = false }
controls_of (play _ _) = record { stops = true; pauses = true; tunes = true }
controls_of (prompt _ _ _ _) = record { stops = true; pauses = false; tunes = true }
controls_of (recording _ _) = record { stops = true; pauses = false; tunes = false }
controls_of (tap _ _) = record { stops = true; pauses = false; tunes = false }
controls_of _ = record { stops = false; pauses = false; tunes = false }

-- BaseAction
pub record Action : Type 0 where
  pub control_id : String
  pub completed : Bool
  pub state : Option String

unfoldable pub action_of : Component → Action
action_of k = record { control_id = k.control_id; completed = k.completed; state = k.state }

-- BaseResult, and the getters of a text that each result has beside it.
pub record BaseResult : Type 0 where
  pub successful : Bool
  pub event : Option Event

unfoldable pub result_of : Component → BaseResult
result_of k = record { successful = k.successful; event = k.event }

abbrev fax_texts : FaxFields → List (String × Option String)
fax_texts f =
    ("direction", f.direction)
    ∷ ("identity", f.identity)
    ∷ ("remoteIdentity", f.remote_identity)
    ∷ ("document", f.document)
    ∷ []

unfoldable pub result_texts : Class → List (String × Option String)
result_texts (detect arg timeout f) = ("type", f.type) ∷ ("result", f.result) ∷ []
result_texts (fax_receive f) = fax_texts f
result_texts (fax_send document identity header f) = fax_texts f
result_texts (hangup reason) = ("reason", reason) ∷ []
result_texts (prompt collect media volume f) =
    ("type", f.type) ∷ ("result", f.input) ∷ ("terminator", f.terminator) ∷ []
result_texts (recording arg f) = ("url", f.url) ∷ []
result_texts (refer params f) =
    ("referTo", f.refer_to)
    ∷ ("referResponseCode", f.refer_response_code)
    ∷ ("referNotifyCode", f.refer_notify_code)
    ∷ []
result_texts _ = []
