-- ===== src/Relay/Calling/Shorthands.antt =====
-- packages/common/src/relay/calling/Call.ts: the methods that prepare what the user passes and start the
-- operation: plays, prompts, records, detects and taps, with the shorthands for one kind of each. The
-- results of the ones that wait and the actions of the others are views of the component.
pub mod Same
pub mod Connects
use signalwire_node.Common.{
  ℕ, Bool, true, false, Option, none, some, List, [], ◌∷◌, String, ◌==◌, if◌then◌else◌,
}
use signalwire_node.Common.Dict.{Dict, lookup, insert, delete}
use signalwire_node.Common.Json.{Json, Items, ℤ, array}
use signalwire_node.Relay.Constants.{
  CallDetectState, call_detect_state_text, CallDetectType, call_detect_type_text,
}
use signalwire_node.Relay.Devices.{Deeps, Device}
use signalwire_node.Relay.Devices.Connecting.{ConnectArgument, prepare_connect_params}
use signalwire_node.Relay.Media.{
  Media, PlayArgument, whole, single, prepare_play_params, prepare_record_params,
  prepare_prompt_params, prepare_tap_params, to_json, properties, entries, or_undefined, is_truthy,
}
use signalwire_node.Relay.Media.Prompts.{
  AudioParams, prepare_play_audio_params, prepare_prompt_audio_params, prepare_prompt_tts_params,
  prepare_prompt_ringtone_params,
}
use signalwire_node.Relay.Calling.Component.{Class, Component, detect}
use signalwire_node.Relay.Calling.Call.{Call, Effect}
use signalwire_node.Relay.Calling.Call.Operations.{
  record_call, record_async, play_call, play_async, prompt_call, prompt_async, detect_call,
  detect_async, tap_call, tap_async, connect_call, connect_async,
}

abbrev pub media_json : Media → Json
media_json m = to_json (("type", m.type) ∷ ("params", to_json m.params) ∷ [])

abbrev pub media_list : List Media → List Json
media_list [] = []
media_list (m ∷ ms) = media_json m ∷ media_list ms

-- Whether a method waits for the end of its operation.
pub data Mode : Type 0 where
  waits starts : Mode

unfoldable pub run_record : Mode → Dict Json → String → Call → Call × List Effect
unfolding record_call record_async prepare_record_params
run_record waits params =
    record_call (to_json (("audio", to_json (prepare_record_params params)) ∷ []))
run_record starts params =
    record_async (to_json (("audio", to_json (prepare_record_params params)) ∷ []))

abbrev pub run_prepared : Mode → List Media × ℤ → String → Call → Call × List Effect
run_prepared waits (ms, volume) = play_call (array (media_list ms)) volume
run_prepared starts (ms, volume) = play_async (array (media_list ms)) volume

-- `play` and `playAsync`
unfoldable pub run_play : Mode → List PlayArgument → String → Call → Call × List Effect
unfolding play_call play_async prepare_play_params
run_play mode args = run_prepared mode (prepare_play_params args)

-- A volume that is no number counts as none here; the source passes it on as it is.
abbrev pub number_of : Option Json → Option ℤ
number_of (some (Json.num n)) = some n
number_of o = none

abbrev pub one_media : String → Dict Json → Dict Json
one_media type params = ("type", Json.str type) ∷ ("params", to_json params) ∷ []

-- `playAudio`, `playSilence`, `playRingtone`, `playTTS`, and those that do not wait.
unfoldable pub play_audio : Mode → AudioParams → String → Call → Call × List Effect
unfolding run_play prepare_play_audio_params
play_audio mode params =
    let (url, volume) = prepare_play_audio_params params in
    run_play mode
      (whole (one_media "audio" (("url", url) ∷ []) ∷ []) (number_of (some volume)) ∷ [])

unfoldable pub play_silence : Mode → Json → String → Call → Call × List Effect
unfolding run_play
play_silence mode duration =
    run_play mode (single (one_media "silence" (("duration", duration) ∷ [])) ∷ [])

abbrev pub play_named : Mode → String → Dict Json → String → Call → Call × List Effect
play_named mode type params =
    run_play mode (
      whole (one_media type (delete "volume" params) ∷ []) (number_of (lookup "volume" params))
      ∷ [])

unfoldable pub play_ringtone : Mode → Dict Json → String → Call → Call × List Effect
unfolding run_play lookup delete
play_ringtone mode params = play_named mode "ringtone" params

unfoldable pub play_tts : Mode → Dict Json → String → Call → Call × List Effect
unfolding run_play lookup delete
play_tts mode params = play_named mode "tts" params

-- The media of a collect, or those of the list where it has none.
abbrev pub objects_of : Items → List (Dict Json)
objects_of Items.nil = []
objects_of (Items.cons (Json.obj fields) rest) = entries fields ∷ objects_of rest
objects_of (Items.cons other rest) = objects_of rest

abbrev pub singles_of : List (Dict Json) → List PlayArgument
singles_of [] = []
singles_of (m ∷ ms) = single m ∷ singles_of ms

abbrev pub prompt_media : Dict Json → List (Dict Json) → List (Dict Json)
prompt_media params listed = elim (lookup "media" params) [
  | some (Json.arr items) ↦ objects_of items
  | other ↦ listed
]

abbrev or_zero : Option ℤ → ℤ
or_zero none = ℤ.pos 0
or_zero (some v) = v

-- `prompt` and `promptAsync`
unfoldable pub run_prompt : Mode → Dict Json → List (Dict Json) → String → Call → Call × List Effect
unfolding prompt_call prompt_async prepare_prompt_params prepare_play_params lookup
run_prompt mode params listed =
    let collect = to_json (prepare_prompt_params params) in
    let play =
      array (media_list (prepare_play_params (singles_of (prompt_media params listed))).0) in
    let volume = or_zero (number_of (lookup "volume" params)) in
    elim mode [
      | waits ↦ prompt_call collect play volume
      | starts ↦ prompt_async collect play volume
    ]

-- `promptAudio`, `promptRingtone`, `promptTTS`
unfoldable pub prompt_audio : Mode → Dict Json → String → String → Call → Call × List Effect
unfolding run_prompt prepare_prompt_audio_params
prompt_audio mode params url = run_prompt mode (prepare_prompt_audio_params params url) []

unfoldable pub prompt_ringtone : Mode → Dict Json → String → Call → Call × List Effect
unfolding run_prompt prepare_prompt_ringtone_params
prompt_ringtone mode params = run_prompt mode (prepare_prompt_ringtone_params params) []

unfoldable pub prompt_tts : Mode → Dict Json → Dict Json → String → Call → Call × List Effect
unfolding run_prompt prepare_prompt_tts_params
prompt_tts mode params options = run_prompt mode (prepare_prompt_tts_params params options) []

-- `detect` and `detectAsync`: the second leaves `wait_for_beep` among the params that are sent.
abbrev pub timeout_of : Option Json → Option ℕ
timeout_of (some (Json.num (ℤ.pos n))) = some n
timeout_of o = none

unfoldable pub run_detect : Mode → Dict Json → String → Call → Call × List Effect
unfolding detect_call detect_async lookup delete
run_detect waits options =
    detect_call
      (to_json (
        ("type", or_undefined (lookup "type" options))
        ∷ ("params", to_json (delete "wait_for_beep" (delete "timeout" (delete "type" options))))
        ∷ []))
      (timeout_of (lookup "timeout" options)) (is_truthy (lookup "wait_for_beep" options))
run_detect starts options =
    detect_async
      (to_json (
        ("type", or_undefined (lookup "type" options))
        ∷ ("params", to_json (delete "timeout" (delete "type" options)))
        ∷ []))
      (timeout_of (lookup "timeout" options))

-- `detectAnsweringMachine`, and `detectHuman` and `detectMachine` up to their result; `detectFax` and
-- `detectDigit`.
unfoldable pub detect_answering_machine : Mode → Dict Json → String → Call → Call × List Effect
unfolding run_detect insert
detect_answering_machine mode params =
    run_detect mode (insert "type" (Json.str (call_detect_type_text CallDetectType.machine)) params)

unfoldable pub detect_fax : Mode → Dict Json → String → Call → Call × List Effect
unfolding run_detect lookup
detect_fax mode params = run_detect mode (
    ("type", Json.str (call_detect_type_text CallDetectType.fax))
    ∷ ("tone", or_undefined (lookup "tone" params))
    ∷ ("timeout", or_undefined (lookup "timeout" params))
    ∷ [])

unfoldable pub detect_digit : Mode → Dict Json → String → Call → Call × List Effect
unfolding run_detect lookup
detect_digit mode params = run_detect mode (
    ("type", Json.str (call_detect_type_text CallDetectType.digit))
    ∷ ("digits", or_undefined (lookup "digits" params))
    ∷ ("timeout", or_undefined (lookup "timeout" params))
    ∷ [])

-- The end of `detectHuman` and `detectMachine`: the component succeeds exactly with this result.
abbrev pub result_is : String → Component → Bool
result_is wanted k = elim k.class [
  | detect arg timeout f ↦ elim f.result [ none ↦ false | some r ↦ r == wanted ]
  | other ↦ false
]

unfoldable pub detected_human : Component → Component
detected_human k = record k {
  successful = result_is (call_detect_state_text CallDetectState.human) k;
}

unfoldable pub detected_machine : Component → Component
detected_machine k = record k {
  successful = result_is (call_detect_state_text CallDetectState.machine) k;
}

-- `tap` and `tapAsync`
unfoldable pub run_tap : Mode → Dict Json → Dict Json → String → Call → Call × List Effect
unfolding tap_call tap_async prepare_tap_params
run_tap mode params device =
    let t = prepare_tap_params params device in
    let tap_json = to_json (("type", Json.str "audio") ∷ ("params", to_json t.tap_params) ∷ []) in
    let device_json =
      to_json (("type", t.device_type) ∷ ("params", to_json t.device_params) ∷ []) in
    elim mode [ waits ↦ tap_call tap_json device_json | starts ↦ tap_async tap_json device_json ]

-- `connect` and `connectAsync`; `none` is the TypeError of a call that has no device of its own.
abbrev pub ringback_json : Option Media → Option Json
ringback_json none = none
ringback_json (some m) = some (media_json m)

unfoldable pub run_connect_devices :
    Mode → Deeps Device → Option Media → String → Call → Call × List Effect
unfolding connect_call connect_async
run_connect_devices waits devices ringback = connect_call devices (ringback_json ringback)
run_connect_devices starts devices ringback = connect_async devices (ringback_json ringback)

abbrev pub connected_with :
    Mode → String → Call → Option (Deeps Device × Option Media) → Option (Call × List Effect)
connected_with mode uuid c none = none
connected_with mode uuid c (some (devices, ringback)) =
    some (run_connect_devices mode devices ringback uuid c)

abbrev pub connect_from :
    Mode → List ConnectArgument → String → Call → Option Device → Option (Call × List Effect)
connect_from mode args uuid c none = none
connect_from mode args uuid c (some d) = connected_with mode uuid c (prepare_connect_params args d)

unfoldable pub run_connect :
    Mode → List ConnectArgument → String → Call → Option (Call × List Effect)
unfolding run_connect_devices prepare_connect_params
run_connect mode args uuid c = connect_from mode args uuid c c.options.device
