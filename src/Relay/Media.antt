-- ===== src/Relay/Media.antt =====
-- packages/common/src/relay/helpers.ts: the params of records, plays, prompts and taps, from what the
-- user passes: flat, or nested as the protocol has them. An object is a `Dict Json`.
pub mod Forms
pub mod Prompts
use signalwire_node.Common.{
  ℕ, zero, suc, Bool, true, false, not, ◌&&◌, ◌||◌, Option, none, some, List, [], ◌∷◌, String, ◌==◌,
  if◌then◌else◌,
}
use signalwire_node.Common.Dict.{Dict, lookup, insert, delete, has}
use signalwire_node.Common.Json.{Json, Fields, Items, ℤ}

abbrev pub entries : Fields → Dict Json
entries Fields.end = []
entries (Fields.field name held others) = (name, held) ∷ entries others

-- The properties of a value, where it is an object.
abbrev pub properties : Option Json → Dict Json
properties (some (Json.obj others)) = entries others
properties o = []

abbrev pub to_fields : Dict Json → Fields
to_fields [] = Fields.end
to_fields ((name, held) ∷ others) = Fields.field name held (to_fields others)

abbrev pub to_json : Dict Json → Json
to_json o = Json.obj (to_fields o)

-- `{ ...first, ...second }`
unfoldable pub spread : Dict Json → Dict Json → Dict Json
spread first [] = first
spread first ((name, held) ∷ others) = spread (insert name held first) others

-- Whether a value that may be missing counts as true.
abbrev pub is_truthy : Option Json → Bool
is_truthy none = false
is_truthy (some Json.undefined) = false
is_truthy (some Json.null) = false
is_truthy (some (Json.bool b)) = b
is_truthy (some (Json.num (ℤ.pos zero))) = false
is_truthy (some (Json.str s)) = not (s == "")
is_truthy (some j) = true

abbrev pub is_defined : Option Json → Bool
is_defined none = false
is_defined (some Json.undefined) = false
is_defined (some j) = true

abbrev pub or_undefined : Option Json → Json
or_undefined none = Json.undefined
or_undefined (some j) = j

-- `prepareRecordParams`: the `audio` of the result.
unfoldable pub prepare_record_params : Dict Json → Dict Json
unfolding spread lookup delete
prepare_record_params params =
    spread (properties (lookup "audio" params)) (delete "type" (delete "audio" params))

-- A media of a play, as the protocol has it.
pub record Media : Type 0 where
  pub type : Json
  pub params : Dict Json

-- `_destructCallingPlay`
unfoldable pub destruct_calling_play : Dict Json → Media
unfolding spread lookup delete
destruct_calling_play media =
    if has "params" media
    then record {
      type = or_undefined (lookup "type" media);
      params = spread (properties (lookup "params" media)) (delete "params" (delete "type" media));
    }
    else record { type = or_undefined (lookup "type" media); params = delete "type" media }

-- An argument of `preparePlayParams`: an object with its `media` and its volume, or a media.
pub data PlayArgument : Type 0 where
  whole : List (Dict Json) → Option ℤ → PlayArgument
  single : Dict Json → PlayArgument

abbrev singles : List PlayArgument → List (Dict Json)
singles [] = []
singles (whole media volume ∷ ps) = singles ps
singles (single media ∷ ps) = media ∷ singles ps

abbrev or_zero : Option ℤ → ℤ
or_zero none = ℤ.pos 0
or_zero (some v) = v

unfoldable pub destruct_all : List (Dict Json) → List Media
unfolding destruct_calling_play
destruct_all [] = []
destruct_all (m ∷ ms) = destruct_calling_play m ∷ destruct_all ms

-- `preparePlayParams`
unfoldable pub prepare_play_params : List PlayArgument → List Media × ℤ
unfolding destruct_all
prepare_play_params (whole media volume ∷ []) = (destruct_all media, or_zero volume)
prepare_play_params ps = (destruct_all (singles ps), ℤ.pos 0)

-- What `deepCopy` keeps of a property: nothing of one that is not defined.
abbrev pub copied : String → Option Json → Dict Json → Dict Json
copied name given others = if is_defined given then (name, or_undefined given) ∷ others else others

abbrev pub is_empty : Dict Json → Bool
is_empty [] = true
is_empty (entry ∷ others) = false

abbrev pub type_is : String → Dict Json → Bool
type_is name params = elim (lookup "type" params) [ some (Json.str t) ↦ t == name | o ↦ false ]

-- `digits` and `speech` of `preparePromptParams`: the given object, or one from the flat properties.
unfoldable pub prompt_digits : Dict Json → Dict Json
unfolding lookup
prompt_digits params =
    if is_truthy (lookup "digits" params)
    then properties (lookup "digits" params)
    else copied "max" (lookup "digits_max" params) (
        copied "terminators" (lookup "digits_terminators" params)
          (copied "digit_timeout" (lookup "digits_timeout" params) []))

unfoldable pub prompt_speech : Dict Json → Dict Json
unfolding lookup
prompt_speech params =
    if is_truthy (lookup "speech" params)
    then properties (lookup "speech" params)
    else copied "end_silence_timeout" (lookup "end_silence_timeout" params) (
        copied "speech_timeout" (lookup "speech_timeout" params) (
          copied "language" (lookup "speech_language" params)
            (copied "hints" (lookup "speech_hints" params) [])))

abbrev pub collected : Bool → String → Json → Dict Json → Dict Json
collected true name given collect = insert name given collect
collected false name given collect = collect

-- The `collect` of `preparePromptParams`.
unfoldable pub prepare_prompt_params : Dict Json → Dict Json
unfolding prompt_digits prompt_speech lookup insert
prepare_prompt_params params =
    let digits = prompt_digits params in
    let speech = prompt_speech params in
    collected (not (is_empty speech) || (type_is "speech" params || type_is "both" params)) "speech"
      (to_json speech)
      (collected (not (is_empty digits) || (type_is "digits" params || type_is "both" params))
        "digits" (to_json digits)
        (collected (is_truthy (lookup "partial_results" params)) "partial_results"
          (or_undefined (lookup "partial_results" params))
          (collected (is_truthy (lookup "initial_timeout" params)) "initial_timeout"
            (or_undefined (lookup "initial_timeout" params)) [])))

-- `if (from in params) { object[to] = params[from] }`
abbrev pub carried : String → String → Dict Json → Dict Json → Dict Json
carried from to params o = elim (lookup from params) [ none ↦ o | some j ↦ insert to j o ]

-- `prepareTapParams`: the params of the tap, and the device with its type and its params.
pub record Tap : Type 0 where
  pub tap_params : Dict Json
  pub device_type : Json
  pub device_params : Dict Json

abbrev pub tap_direction : Dict Json → Dict Json
tap_direction params = elim (lookup "direction" params) [
  | some j ↦ ("direction", j) ∷ []
  | none ↦ carried "audio_direction" "direction" params []
]

abbrev pub tap_type : Dict Json → Dict Json → Json
tap_type params device =
    if is_defined (lookup "type" device)
    then or_undefined (lookup "type" device)
    else (elim (lookup "target_type" params) [ none ↦ Json.str "" | some j ↦ j ])

unfoldable pub prepare_tap_params : Dict Json → Dict Json → Tap
unfolding lookup insert delete
prepare_tap_params params device = record {
  tap_params = tap_direction params;
  device_type = tap_type params device;
  device_params = carried "codec" "codec" params (
      carried "rate" "rate" params (
        carried "target_uri" "uri" params (
          carried "target_ptime" "ptime" params (
            carried "target_port" "port" params
              (carried "target_addr" "addr" params (delete "type" device))))));
}
