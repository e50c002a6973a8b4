-- ===== src/Webrtc/Requests.antt =====
-- packages/common/src/webrtc/BaseCall.ts and messages/Verto.ts: the requests that a call sends, with the
-- session's id and the call's options, and the answer to those that hold it. The order of the fields of
-- an object is free.
use signalwire_node.Common.{Bool, true, false, Option, none, some, [], ◌∷◌, ◌++◌, String}
use signalwire_node.Common.Dict.{Dict}
use signalwire_node.Common.Json.{Json}
use signalwire_node.Relay.Media.{to_json}
use signalwire_node.Messages.{base_request}
use signalwire_node.Webrtc.{RtcCall, Step, done}
use signalwire_node.Webrtc.Exchange.{hold_state_changed}

-- `hangup`, `transfer`, `replace`, `hold`, `unhold`, `toggleHold`, `dtmf`, `message`, and the requests of
-- `_onIceSdp` with their description.
pub data CallRequest : Type 0 where
  bye : String → String → CallRequest
  transfer : String → CallRequest
  replace : String → CallRequest
  hold unhold toggle_hold : CallRequest
  dtmf : String → CallRequest
  message : Json → String → String → CallRequest
  invite answer attach update_media : String → CallRequest

abbrev pub method : CallRequest → String
method (bye cause code) = "verto.bye"
method (transfer destination) = "verto.modify"
method (replace call_id) = "verto.modify"
method hold = "verto.modify"
method unhold = "verto.modify"
method toggle_hold = "verto.modify"
method (dtmf digits) = "verto.info"
method (message login to body) = "verto.info"
method (invite sdp) = "verto.invite"
method (answer sdp) = "verto.answer"
method (attach sdp) = "verto.attach"
method (update_media sdp) = "verto.modify"

-- The params of a request, beside `sessid` and `dialogParams`.
abbrev pub own_params : CallRequest → Dict Json
own_params (bye cause code) = ("cause", Json.str cause) ∷ ("causeCode", Json.str code) ∷ []
own_params (transfer destination) =
    ("action", Json.str "transfer") ∷ ("destination", Json.str destination) ∷ []
own_params (replace call_id) =
    ("action", Json.str "replace") ∷ ("replaceCallID", Json.str call_id) ∷ []
own_params hold = ("action", Json.str "hold") ∷ []
own_params unhold = ("action", Json.str "unhold") ∷ []
own_params toggle_hold = ("action", Json.str "toggleHold") ∷ []
own_params (dtmf digits) = ("dtmf", Json.str digits) ∷ []
own_params (message login to body) =
    ("msg", to_json (("from", login) ∷ ("to", Json.str to) ∷ ("body", Json.str body) ∷ [])) ∷ []
own_params (invite sdp) = ("sdp", Json.str sdp) ∷ []
own_params (answer sdp) = ("sdp", Json.str sdp) ∷ []
own_params (attach sdp) = ("sdp", Json.str sdp) ∷ []
own_params (update_media sdp) = ("action", Json.str "updateMedia") ∷ ("sdp", Json.str sdp) ∷ []

unfoldable pub call_request : String → String → Dict Json → CallRequest → Dict Json
unfolding base_request
call_request id session_id options r =
    base_request id (method r)
      ((("sessid", Json.str session_id) ∷ ("dialogParams", to_json options) ∷ []) ++ own_params r)

-- What the promise of `hold`, `unhold` and `toggleHold` resolves to, when the server has answered with
-- this state, and when the request has failed.
unfoldable pub hold_answered : Option Bool → RtcCall → Step × Bool
unfolding hold_state_changed
hold_answered (some is_active) c = (hold_state_changed is_active c, true)
hold_answered none c = (done c [], false)
