-- ===== src/Examples/Controls.antt =====
-- Shorthands and controls of a call at concrete inputs.
use signalwire_node.Common.{◌≡◌, ◌==◌, refl, none, some, [], ◌∷◌, differ}
use signalwire_node.Common.Dict.{Dict, lookup, delete}
use signalwire_node.Common.Json.{Json, ℤ}
use signalwire_node.Util.{nested, destruct_response}
use signalwire_node.Relay.Media.{whole, single, to_json}
use signalwire_node.Relay.Media.Forms.{flat_media}
use signalwire_node.Relay.Media.Prompts.{of_url}
use signalwire_node.Relay.Calling.Shorthands.{
  waits, run_play, play_audio, play_silence, play_ringtone, play_tts,
}
use signalwire_node.Relay.Calling.Shorthands.Same.{shorthands-run_play}
use signalwire_node.Relay.Calling.Control.{stop_result, paused, volume_set}
use signalwire_node.Relay.Calling.Control.Answers.{controls-agree}
use signalwire_node.Examples.Relays.{call}

abbrev hello : Dict Json
hello = ("text", Json.str "hello") ∷ ("volume", Json.num (ℤ.pos 4)) ∷ []

abbrev said : Dict Json
said = ("text", Json.str "hello") ∷ []

shorthands-run_play_example :
    (play_audio waits (of_url "a.mp3") "k9" call
      ≡ run_play waits
          (single (flat_media (Json.str "audio") (("url", Json.str "a.mp3") ∷ [])) ∷ [])
          "k9"
          call)
    × (play_silence waits (Json.num (ℤ.pos 3)) "k9" call
        ≡ run_play waits
            (single (flat_media (Json.str "silence") (("duration", Json.num (ℤ.pos 3)) ∷ [])) ∷ [])
            "k9"
            call)
    × (play_ringtone waits hello "k9" call
        ≡ run_play waits
            (whole (flat_media (Json.str "ringtone") said ∷ []) (some (ℤ.pos 4)) ∷ [])
            "k9"
            call)
    × (play_tts waits hello "k9" call
        ≡ run_play waits
            (whole (flat_media (Json.str "tts") said ∷ []) (some (ℤ.pos 4)) ∷ [])
            "k9"
            call)
unfolding lookup delete
shorthands-run_play_example =
    shorthands-run_play waits "a.mp3" (Json.num (ℤ.pos 3)) hello "k9" call
      (differ "text" "type" refl, tt) (differ "text" "params" refl, tt)

abbrev refused : Json
refused = to_json (("code", Json.str "404") ∷ ("message", Json.str "not found") ∷ [])

controls-agree_example :
    let s = destruct_response (nested (some "404") none refused) none in
    ((stop_result s).successful ≡ ("404" == "200"))
    × (paused s ≡ ("404" == "200"))
    × (volume_set s ≡ ("404" == "200"))
unfolding lookup
controls-agree_example = controls-agree "404" none refused (differ "404" "" refl) refl
