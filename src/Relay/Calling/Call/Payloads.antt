-- ===== src/Relay/Calling/Call/Payloads.antt =====
-- The params of the requests that start an operation: the getters `payload` of the components.
use signalwire_node.Common.{
  ℕ, zero, suc, Bool, true, false, not, Option, none, some, List, [], ◌∷◌, ◌++◌, String, eqb,
}
use signalwire_node.Common.Json.{Json, ℤ, pos, negsuc, num, str, undefined, array, object}
use signalwire_node.Relay.Devices.{Device, Deeps, nil, cons, one, many, text_truthy}
use signalwire_node.Relay.Calling.Component.{
  Class, Component, answer, await, connect, detect, dial, fax_receive, fax_send, hangup, play,
  prompt, recording, send_digits, tap, disconnect, refer, pass,
}
use signalwire_node.Relay.Calling.Call.{Call, Arg, text, value, device_list}

abbrev is_zero : ℤ → Bool
is_zero (pos zero) = true
is_zero (pos (suc n)) = false
is_zero (negsuc n) = false

-- A property that is set only under a test.
abbrev optional : Bool → String → Arg → List (String × Arg)
optional true k a = (k, a) ∷ []
optional false k a = []

abbrev optional_text : String → Option String → List (String × Arg)
optional_text k s = optional (text_truthy s) k (text s)

abbrev optional_json : String → Option Json → List (String × Arg)
optional_json k none = []
optional_json k (some j) = (k, value j) ∷ []

abbrev optional_number : String → Option ℕ → List (String × Arg)
optional_number k none = []
optional_number k (some n) = optional (not (eqb n 0)) k (value (num (pos n)))

-- `call.devices ?? [[call.device]]`
abbrev dial_devices : Call → Arg
dial_devices c = elim c.options.devices [
  | some ds ↦ device_list ds
  | none ↦ elim c.options.device [
    | some d ↦ device_list (cons (many (cons (one d) nil)) nil)
    | none ↦ value (array (array (undefined ∷ []) ∷ []))
  ]
]

abbrev call_args : Call → List (String × Arg)
call_args c = ("node_id", text c.node_id) ∷ ("call_id", text c.id) ∷ []

abbrev pub control_args : Call → Component → List (String × Arg)
control_args c k = call_args c ++ ("control_id", text (some k.control_id)) ∷ []

-- The payloads of the classes, as the getters `payload` build them. The argument of a detect comes
-- with its params.
abbrev answer_payload : Call → List (String × Arg)
answer_payload c = call_args c

abbrev connect_payload : Deeps Device → Option Json → Call → List (String × Arg)
connect_payload devices ringback c =
    call_args c ++ (("devices", device_list devices) ∷ optional_json "ringback" ringback)

abbrev detect_payload : Json → Option ℕ → Call → Component → List (String × Arg)
detect_payload arg timeout c k =
    control_args c k ++ (("detect", value arg) ∷ optional_number "timeout" timeout)

abbrev dial_payload : Call → List (String × Arg)
dial_payload c =
    ("tag", text (some c.tag))
    ∷ ("devices", dial_devices c)
    ∷ optional_text "region" c.options.region

abbrev fax_receive_payload : Call → Component → List (String × Arg)
fax_receive_payload c k = control_args c k

abbrev fax_send_payload :
    String → Option String → Option String → Call → Component → List (String × Arg)
fax_send_payload document identity header c k =
    control_args c k
    ++ (("document", text (some document))
        ∷ (optional_text "identity" identity ++ optional_text "header_info" header))

abbrev hangup_payload : Option String → Call → List (String × Arg)
hangup_payload reason c = call_args c ++ ("reason", text reason) ∷ []

abbrev play_payload : Json → ℤ → Call → Component → List (String × Arg)
play_payload media volume c k =
    control_args c k
    ++ (("play", value media) ∷ optional (not (is_zero volume)) "volume" (value (num volume)))

abbrev prompt_payload : Json → Json → ℤ → Call → Component → List (String × Arg)
prompt_payload collect media volume c k =
    control_args c k
    ++ (("play", value media)
        ∷ ("collect", value collect)
        ∷ optional (not (is_zero volume)) "volume" (value (num volume)))

abbrev record_payload : Json → Call → Component → List (String × Arg)
record_payload arg c k = control_args c k ++ ("record", value arg) ∷ []

abbrev send_digits_payload : String → Call → Component → List (String × Arg)
send_digits_payload digits c k = control_args c k ++ ("digits", text (some digits)) ∷ []

abbrev tap_payload : Json → Json → Call → Component → List (String × Arg)
tap_payload t d c k = control_args c k ++ (("tap", value t) ∷ ("device", value d) ∷ [])

abbrev disconnect_payload : Call → List (String × Arg)
disconnect_payload c = call_args c

abbrev refer_payload : Json → Call → List (String × Arg)
refer_payload params c =
    call_args c ++ ("device", value (object (("type", str "sip") ∷ ("params", params) ∷ []))) ∷ []

abbrev pass_payload : Call → List (String × Arg)
pass_payload c = call_args c

unfoldable pub payload : Class → Call → Component → List (String × Arg)
payload answer c k = answer_payload c
payload await c k = []
payload (connect devices ringback) c k = connect_payload devices ringback c
payload (detect arg timeout f) c k = detect_payload arg timeout c k
payload dial c k = dial_payload c
payload (fax_receive f) c k = fax_receive_payload c k
payload (fax_send document identity header f) c k = fax_send_payload document identity header c k
payload (hangup reason) c k = hangup_payload reason c
payload (play media volume) c k = play_payload media volume c k
payload (prompt collect media volume f) c k = prompt_payload collect media volume c k
payload (recording arg f) c k = record_payload arg c k
payload (send_digits digits) c k = send_digits_payload digits c k
payload (tap t d) c k = tap_payload t d c k
payload disconnect c k = disconnect_payload c
payload (refer params f) c k = refer_payload params c
payload pass c k = pass_payload c
