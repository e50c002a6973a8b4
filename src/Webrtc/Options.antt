-- ===== src/Webrtc/Options.antt =====
-- packages/common/src/webrtc/BaseCall.ts: the options of a new call, from those of the session and what
-- the user passes.
pub mod Chosen
use signalwire_node.Common.{
  Bool, true, false, not, ◌||◌, Option, none, some, [], ◌∷◌, String, ◌==◌, if◌then◌else◌,
}
use signalwire_node.Common.Dict.{Dict, lookup, insert}
use signalwire_node.Common.Json.{Json, Fields, Items}
use signalwire_node.Relay.Media.{is_truthy, or_undefined, spread}

unfoldable pub default_call_options : Dict Json
default_call_options =
    ("destinationNumber", Json.str "")
    ∷ ("remoteCallerName", Json.str "Outbound Call")
    ∷ ("remoteCallerNumber", Json.str "")
    ∷ ("callerName", Json.str "")
    ∷ ("callerNumber", Json.str "")
    ∷ ("audio", Json.bool true)
    ∷ ("video", Json.bool false)
    ∷ ("useStereo", Json.bool false)
    ∷ ("attach", Json.bool false)
    ∷ ("screenShare", Json.bool false)
    ∷ ("userVariables", Json.obj Fields.end)
    ∷ []

-- What of a session a call takes over; `audio` and `video` are its media constraints, and
-- `user_variables` is of its options.
pub record SessionDefaults : Type 0 where
  pub ice_servers : Json
  pub speaker : Json
  pub mic_id : Json
  pub mic_label : Json
  pub cam_id : Json
  pub cam_label : Json
  pub local_element : Json
  pub remote_element : Json
  pub audio : Json
  pub video : Json
  pub user_variables : Option Json

abbrev pub session_options : SessionDefaults → Dict Json
session_options s =
    ("audio", s.audio)
    ∷ ("video", s.video)
    ∷ ("iceServers", s.ice_servers)
    ∷ ("localElement", s.local_element)
    ∷ ("remoteElement", s.remote_element)
    ∷ ("micId", s.mic_id)
    ∷ ("micLabel", s.mic_label)
    ∷ ("camId", s.cam_id)
    ∷ ("camLabel", s.cam_label)
    ∷ ("speakerId", s.speaker)
    ∷ []

-- The first sources of `Object.assign({}, DEFAULT_CALL_OPTIONS, {…}, opts)`, and all of them.
unfoldable pub call_defaults : SessionDefaults → Dict Json
unfolding default_call_options spread
call_defaults s = spread (spread [] default_call_options) (session_options s)

unfoldable pub assigned : SessionDefaults → Dict Json → Dict Json
unfolding call_defaults spread
assigned s opts = spread (call_defaults s) opts

-- `!userVariables || objEmpty(userVariables)`: a number or a flag has no keys.
abbrev pub has_no_keys : Json → Bool
has_no_keys (Json.obj (Fields.field name held others)) = false
has_no_keys (Json.arr (Items.cons first rest)) = false
has_no_keys (Json.str s) = s == ""
has_no_keys j = true

abbrev pub is_blank : Option Json → Bool
is_blank o = not (is_truthy o) || has_no_keys (or_undefined o)

abbrev pub or_object : Option Json → Json
or_object o = if is_truthy o then or_undefined o else Json.obj Fields.end

-- `_init`: what it makes of the options. The new id is the argument.
unfoldable pub init_options : SessionDefaults → String → Dict Json → Dict Json
unfolding lookup insert
init_options s uuid o =
    let with_id = if is_truthy (lookup "id" o) then o else insert "id" (Json.str uuid) o in
    let with_variables =
      if is_blank (lookup "userVariables" o)
      then insert "userVariables" (or_object s.user_variables) with_id
      else with_id in
    if is_truthy (lookup "remoteCallerNumber" o)
    then with_variables
    else insert "remoteCallerNumber" (or_undefined (lookup "destinationNumber" with_variables))
        with_variables

unfoldable pub call_options : SessionDefaults → String → Dict Json → Dict Json
unfolding assigned init_options
call_options s uuid opts = init_options s uuid (assigned s opts)
