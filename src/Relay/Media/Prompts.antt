-- ===== src/Relay/Media/Prompts.antt =====
-- packages/common/src/relay/helpers.ts: the shorthands for an audio, a text or a ringtone. What is
-- left of the user's params is kept beside the `media` that they stand for.
use signalwire_node.Common.{◌≡◌, ◌≢◌, refl, ◌∙◌, Option, [], ◌∷◌, String, if◌then◌else◌, eq-false}
use signalwire_node.Common.Dict.{Dict, lookup, insert, delete, lookup-insert, lookup-delete}
use signalwire_node.Common.Json.{Json, object, array, ℤ}
use signalwire_node.Relay.Media.{to_json, is_truthy, is_defined, or_undefined}

-- `flattenedParams.media = [{ type, params }]`
abbrev pub with_media : String → Dict Json → Dict Json → Dict Json
with_media type params flattened =
    insert "media" (array (object (("type", Json.str type) ∷ ("params", to_json params) ∷ []) ∷ []))
      flattened

-- A property that may be missing, with its default.
abbrev or_default : Json → Option Json → Json
or_default j given = if is_defined given then or_undefined given else j

-- `preparePlayAudioParams`, of an url alone or of an object.
pub data AudioParams : Type 0 where
  of_url : String → AudioParams
  of_object : Dict Json → AudioParams

unfoldable pub prepare_play_audio_params : AudioParams → Json × Json
unfolding lookup
prepare_play_audio_params (of_url url) = (Json.str url, Json.num (ℤ.pos 0))
prepare_play_audio_params (of_object params) =
    (or_undefined (lookup "url" params), or_default (Json.num (ℤ.pos 0)) (lookup "volume" params))

-- `preparePromptAudioParams`
unfoldable pub prepare_prompt_audio_params : Dict Json → String → Dict Json
unfolding lookup insert delete
prepare_prompt_audio_params params url_deprecated =
    with_media "audio" (("url", or_default (Json.str url_deprecated) (lookup "url" params)) ∷ [])
      (delete "url" params)

-- `if (option) { options[name] = option }`
abbrev overridden : String → Dict Json → Dict Json → Dict Json
overridden name params options =
    if is_truthy (lookup name params)
    then insert name (or_undefined (lookup name params)) options
    else options

-- `preparePromptTTSParams`
unfoldable pub prepare_prompt_tts_params : Dict Json → Dict Json → Dict Json
unfolding lookup insert delete
prepare_prompt_tts_params params tts_options =
    with_media "tts"
      (overridden "language" params
        (overridden "gender" params (overridden "text" params tts_options)))
      (delete "language" (delete "gender" (delete "text" params)))

-- `preparePromptRingtoneParams`
unfoldable pub prepare_prompt_ringtone_params : Dict Json → Dict Json
unfolding lookup insert delete
prepare_prompt_ringtone_params params =
    with_media "ringtone"
      (overridden "duration" params (("name", or_undefined (lookup "name" params)) ∷ []))
      (delete "duration" (delete "name" params))

lookup-with_media :
    (type : String) (params flattened : Dict Json) (name : String)
    → "media" ≢ name
    → lookup name (with_media type params flattened) ≡ lookup name flattened
lookup-with_media type params flattened name h =
    lookup-insert "media" name
      (array (object (("type", Json.str type) ∷ ("params", to_json params) ∷ []) ∷ [])) flattened
    ∙ rw (eq-false "media" name h) refl

lookup-delete_other :
    (gone name : String) (m : Dict Json) → gone ≢ name → lookup name (delete gone m) ≡ lookup name m
lookup-delete_other gone name m h = lookup-delete gone name m ∙ rw (eq-false gone name h) refl

-- The shorthand for a ringtone leaves every other param as the user has passed it.
prepare_prompt_ringtone_params-others :
    (params : Dict Json) (name : String)
    → "media" ≢ name
    → "name" ≢ name
    → "duration" ≢ name
    → lookup name (prepare_prompt_ringtone_params params) ≡ lookup name params
unfolding prepare_prompt_ringtone_params
prepare_prompt_ringtone_params-others params name m n d =
    lookup-with_media "ringtone" _ (delete "duration" (delete "name" params)) name m
    ∙ lookup-delete_other "duration" name (delete "name" params) d
    ∙ lookup-delete_other "name" name params n

-- The shorthand for a text leaves every other param as the user has passed it.
prepare_prompt_tts_params-others :
    (params tts_options : Dict Json) (name : String)
    → "media" ≢ name
    → "text" ≢ name
    → "gender" ≢ name
    → "language" ≢ name
    → lookup name (prepare_prompt_tts_params params tts_options) ≡ lookup name params
unfolding prepare_prompt_tts_params
prepare_prompt_tts_params-others params tts_options name m t g l =
    lookup-with_media "tts" _ (delete "language" (delete "gender" (delete "text" params))) name m
    ∙ lookup-delete_other "language" name (delete "gender" (delete "text" params)) l
    ∙ lookup-delete_other "gender" name (delete "text" params) g
    ∙ lookup-delete_other "text" name params t
