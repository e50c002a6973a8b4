-- ===== src/Relay/Calling/Control/Answers.antt =====
-- What the controls of an operation make of the answers of the server.
use signalwire_node.Common.{
  ◌≡◌, ◌≢◌, refl, Option, none, some, String, ◌==◌, eq-false, Bool-cases, inl, inr,
}
use signalwire_node.Common.Dict.{lookup}
use signalwire_node.Common.Json.{Json}
use signalwire_node.Util.{nested, destruct_response}
use signalwire_node.Relay.Media.{properties}
use signalwire_node.Relay.Calling.Control.{stop_result, paused, volume_set}

-- If the answer says its code, stopping, pausing, resuming and tuning an operation succeed exactly if
-- that code is 200, although the first three look at the code and the last only at whether the request
-- has failed.
pub controls-agree :
    (code : String) (node_id : Option String) (object : Json)
    → code ≢ ""
    → lookup "code" (properties (some object)) ≡ some (Json.str code)
    → let s = destruct_response (nested (some code) node_id object) none in
      ((stop_result s).successful ≡ (code == "200"))
      × (paused s ≡ (code == "200"))
      × (volume_set s ≡ (code == "200"))
unfolding destruct_response stop_result paused volume_set
controls-agree code node_id object n h = elim (Bool-cases (code == "200")) [
  | inl e ↦
      rw (e, eq-false code "" n, h, destruct_response, stop_result, paused, volume_set) (e, e, refl)
  | inr e ↦
      rw (e, eq-false code "" n, h, destruct_response, stop_result, paused, volume_set) (e, e, refl)
]
