-- ===== src/Verto/Conference/Commands.antt =====
-- packages/common/src/webrtc/BaseCall.ts: the commands that a moderator's subscription defines on the
-- call, and `_confControl`. A member is what `parseInt` makes of it, `none` for NaN.
use signalwire_node.Common.{
  ℕ, zero, suc, Bool, true, not, Option, none, some, [], ◌∷◌, String, if◌then◌else◌,
}
use signalwire_node.Common.Dict.{Dict}
use signalwire_node.Common.Json.{Json, ℤ, array}
use signalwire_node.Relay.Media.{spread, is_empty}
use signalwire_node.Webrtc.Devices.{Constraint}
use signalwire_node.Webrtc.Requests.{CallRequest}
use signalwire_node.Verto.Conference.{Member}

pub data Command : Type 0 where
  list_video_layouts stop_media stop_record : Command
  play_media start_record snapshot : String → Command
  set_video_layout : String → ℕ → Command
  deaf undeaf kick mute_mic mute_video presenter video_floor : Option ℕ → Command
  banner : Option ℕ → String → Command
  volume_down volume_up gain_down gain_up : Option ℕ → Command
  transfer : Option ℕ → Option String → Command

-- What a call of a command does: it broadcasts to the channel, or throws for want of video.
pub data Outcome : Type 0 where
  broadcast : String → Dict Json → Outcome
  no_video : Outcome
  requested : CallRequest → Outcome

-- `parseInt(memberID) || null`
abbrev pub member_json : Option ℕ → Json
member_json none = Json.null
member_json (some zero) = Json.null
member_json (some (suc n)) = Json.num (ℤ.pos (suc n))

-- `data` of `_confControl`.
unfoldable pub conf_control : String → Dict Json → Dict Json
unfolding spread
conf_control call_id params =
    spread
      (("application", Json.str "conf-control")
        ∷ ("callID", Json.str call_id)
        ∷ ("value", Json.null)
        ∷ [])
      params

-- `_modCommand`, of the call and the channel.
unfoldable pub mod_command : String → String → String → Option ℕ → Json → Outcome
unfolding conf_control
mod_command call_id channel command member value = broadcast channel (
    conf_control call_id
      (("command", Json.str command) ∷ ("id", member_json member) ∷ ("value", value) ∷ []))

-- The tests of `_videoRequired`.
abbrev pub lacks_video : Constraint → Bool
lacks_video (Constraint.flag b) = not b
lacks_video (Constraint.set o) = is_empty o

abbrev pub video_required : Constraint → Outcome → Outcome
video_required video o = if lacks_video video then no_video else o

abbrev pub text_or_null : Option String → Json
text_or_null none = Json.null
text_or_null (some s) = Json.str s

-- The properties that are defined; `encode` is `encodeURI`.
unfoldable pub run_command : (String → String) → Constraint → String → String → Command → Outcome
unfolding mod_command
run_command encode video id ch list_video_layouts =
    mod_command id ch "list-videoLayouts" none Json.null
run_command encode video id ch (play_media file) = mod_command id ch "play" none (Json.str file)
run_command encode video id ch stop_media = mod_command id ch "stop" none (Json.str "all")
run_command encode video id ch (deaf m) = mod_command id ch "deaf" m Json.null
run_command encode video id ch (undeaf m) = mod_command id ch "undeaf" m Json.null
run_command encode video id ch (start_record file) =
    mod_command id ch "recording" none (array (Json.str "start" ∷ Json.str file ∷ []))
run_command encode video id ch stop_record =
    mod_command id ch "recording" none (array (Json.str "stop" ∷ Json.str "all" ∷ []))
run_command encode video id ch (snapshot file) =
    video_required video (mod_command id ch "vid-write-png" none (Json.str file))
run_command encode video id ch (set_video_layout layout zero) =
    video_required video (mod_command id ch "vid-layout" none (Json.str layout))
run_command encode video id ch (set_video_layout layout (suc n)) =
    video_required video (
      mod_command id ch "vid-layout" none (array (Json.str layout ∷ Json.num (ℤ.pos (suc n)) ∷ [])))
run_command encode video id ch (kick m) = mod_command id ch "kick" m Json.null
run_command encode video id ch (mute_mic m) = mod_command id ch "tmute" m Json.null
run_command encode video id ch (mute_video m) =
    video_required video (mod_command id ch "tvmute" m Json.null)
run_command encode video id ch (presenter m) =
    video_required video (mod_command id ch "vid-res-id" m (Json.str "presenter"))
run_command encode video id ch (video_floor m) =
    video_required video (mod_command id ch "vid-floor" m (Json.str "force"))
run_command encode video id ch (banner m text) =
    video_required video (mod_command id ch "vid-banner" m (Json.str (encode text)))
run_command encode video id ch (volume_down m) = mod_command id ch "volume_out" m (Json.str "down")
run_command encode video id ch (volume_up m) = mod_command id ch "volume_out" m (Json.str "up")
run_command encode video id ch (gain_down m) = mod_command id ch "volume_in" m (Json.str "down")
run_command encode video id ch (gain_up m) = mod_command id ch "volume_in" m (Json.str "up")
run_command encode video id ch (transfer m exten) =
    mod_command id ch "transfer" m (text_or_null exten)

-- `call.transfer(destination)`: the method of BaseCall, or the command that has been defined over it.
unfoldable pub call_transfer : (String → Option ℕ) → String → String → Member → Outcome
unfolding run_command
call_transfer parse_int id destination m = elim m.commands [
  | none ↦ requested (CallRequest.transfer destination)
  | some channel ↦
      run_command (λ text. text) (Constraint.flag true) id channel
        (transfer (parse_int destination) none)
]
