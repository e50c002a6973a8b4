-- ===== src/Relay/Calling/Shorthands/Same.antt =====
-- A shorthand starts what the general method starts.
use signalwire_node.Common.{◌≡◌, ◌≢◌, refl, ap, sym, [], ◌∷◌, String, All}
use signalwire_node.Common.Dict.{Dict, lookup, delete}
use signalwire_node.Common.Json.{Json}
use signalwire_node.Browser.{keys}
use signalwire_node.Relay.Media.{
  whole, single, spread, prepare_play_params, destruct_calling_play, destruct_all,
}
use signalwire_node.Relay.Media.Forms.{flat_media, destruct_calling_play-forms}
use signalwire_node.Relay.Media.Prompts.{of_url, prepare_play_audio_params}
use signalwire_node.Relay.Calling.Call.{Call}
use signalwire_node.Relay.Calling.Shorthands.{
  Mode, run_play, run_prepared, play_audio, play_silence, play_ringtone, play_tts, play_named,
  number_of,
}

play_named-flat :
    (mode : Mode) (kind : String) (params : Dict Json) (uuid : String) (c : Call)
    → All (λ j. j ≢ "type") (keys (delete "volume" params))
    → All (λ j. j ≢ "params") (keys (delete "volume" params))
    → play_named mode kind params uuid c
      ≡ run_play mode
          (whole
              (flat_media (Json.str kind) (delete "volume" params) ∷ [])
              (number_of (lookup "volume" params))
            ∷ [])
          uuid
          c
unfolding run_play prepare_play_params destruct_all
play_named-flat mode kind params uuid c t p =
    let volume = number_of (lookup "volume" params) in
    ap (λ m. run_prepared mode (m ∷ [], (prepare_play_params (whole [] volume ∷ [])).1) uuid c)
      (sym (destruct_calling_play-forms (Json.str kind) (delete "volume" params) t p).1)

-- Whether it waits or not, a shorthand for a play starts the same operation, and asks the server for
-- the same, as `play` with one media of its kind that has its params flat: an audio for an url, a
-- silence for a duration, and a ringtone or a text for the params beside the volume, if none of them is
-- called type or params.
pub shorthands-run_play :
    (mode : Mode) (url : String) (duration : Json) (params : Dict Json) (uuid : String) (c : Call)
    → All (λ j. j ≢ "type") (keys (delete "volume" params))
    → All (λ j. j ≢ "params") (keys (delete "volume" params))
    → let media = λ (kind : String). flat_media (Json.str kind) (delete "volume" params) in
      let volume = number_of (lookup "volume" params) in
      (play_audio mode (of_url url) uuid c
        ≡ run_play mode
            (single (flat_media (Json.str "audio") (("url", Json.str url) ∷ [])) ∷ [])
            uuid
            c)
      × (play_silence mode duration uuid c
          ≡ run_play mode
              (single (flat_media (Json.str "silence") (("duration", duration) ∷ [])) ∷ [])
              uuid
              c)
      × (play_ringtone mode params uuid c
          ≡ run_play mode (whole (media "ringtone" ∷ []) volume ∷ []) uuid c)
      × (play_tts mode params uuid c ≡ run_play mode (whole (media "tts" ∷ []) volume ∷ []) uuid c)
unfolding play_audio play_silence play_ringtone play_tts run_play prepare_play_audio_params
    prepare_play_params destruct_all destruct_calling_play spread lookup delete
shorthands-run_play mode url duration params uuid c t p = (
  refl,
  refl,
  play_named-flat mode "ringtone" params uuid c t p,
  play_named-flat mode "tts" params uuid c t p,
)
