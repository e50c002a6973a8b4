-- ===== src/Verto/Conference/Overriding.antt =====
-- The commands that need video, and those that hide a method of the call.
use signalwire_node.Common.{
  ◌≡◌, refl, ℕ, zero, suc, Bool, true, false, ◌&&◌, Option, none, some, [], ◌∷◌, String, Bool-cases,
  ap, inl, inr,
}
use signalwire_node.Common.Dict.{lookup, insert}
use signalwire_node.Common.Json.{Json, ℤ, array}
use signalwire_node.Relay.Media.{spread}
use signalwire_node.Webrtc.Devices.{Constraint}
use signalwire_node.Webrtc.Requests.{CallRequest}
use signalwire_node.Verto.Conference.{Member, subscribe_moderator}
use signalwire_node.Verto.Conference.Commands.{
  Command, list_video_layouts, stop_media, stop_record, play_media, start_record, snapshot,
  set_video_layout, deaf, undeaf, kick, mute_mic, mute_video, presenter, video_floor, banner,
  volume_down, volume_up, gain_down, gain_up, transfer, Outcome, member_json, broadcast, no_video,
  requested, conf_control, mod_command, lacks_video, video_required, run_command, call_transfer,
}

-- The commands whose effect is seen in the video of the conference.
abbrev pub is_visual : Command → Bool
is_visual (snapshot _) = true
is_visual (set_video_layout _ _) = true
is_visual (mute_video _) = true
is_visual (presenter _) = true
is_visual (video_floor _) = true
is_visual (banner _ _) = true
is_visual _ = false

-- The commands, by the names that the server knows them by.
abbrev pub command_name : Command → String
command_name list_video_layouts = "list-videoLayouts"
command_name (play_media _) = "play"
command_name stop_media = "stop"
command_name (deaf _) = "deaf"
command_name (undeaf _) = "undeaf"
command_name (start_record _) = "recording"
command_name stop_record = "recording"
command_name (snapshot _) = "vid-write-png"
command_name (set_video_layout _ _) = "vid-layout"
command_name (kick _) = "kick"
command_name (mute_mic _) = "tmute"
command_name (mute_video _) = "tvmute"
command_name (presenter _) = "vid-res-id"
command_name (video_floor _) = "vid-floor"
command_name (banner _ _) = "vid-banner"
command_name (volume_down _) = "volume_out"
command_name (volume_up _) = "volume_out"
command_name (gain_down _) = "volume_in"
command_name (gain_up _) = "volume_in"
command_name (transfer _ _) = "transfer"

-- The member that a command is about.
abbrev pub about : Command → Option ℕ
about (deaf m) = m
about (undeaf m) = m
about (kick m) = m
about (mute_mic m) = m
about (mute_video m) = m
about (presenter m) = m
about (video_floor m) = m
about (banner m _) = m
about (volume_down m) = m
about (volume_up m) = m
about (gain_down m) = m
about (gain_up m) = m
about (transfer m _) = m
about _ = none

-- Member 0 and one that is no number are nobody.
abbrev pub nobody_or : Option ℕ → Json
nobody_or none = Json.null
nobody_or (some zero) = Json.null
nobody_or (some (suc n)) = Json.num (ℤ.pos (suc n))

-- What a command says beside its name and its member.
abbrev pub said : (String → String) → Command → Json
said encode (play_media file) = Json.str file
said encode stop_media = Json.str "all"
said encode (start_record file) = array (Json.str "start" ∷ Json.str file ∷ [])
said encode stop_record = array (Json.str "stop" ∷ Json.str "all" ∷ [])
said encode (snapshot file) = Json.str file
said encode (set_video_layout layout zero) = Json.str layout
said encode (set_video_layout layout (suc n)) =
    array (Json.str layout ∷ Json.num (ℤ.pos (suc n)) ∷ [])
said encode (presenter _) = Json.str "presenter"
said encode (video_floor _) = Json.str "force"
said encode (banner _ text) = Json.str (encode text)
said encode (volume_down _) = Json.str "down"
said encode (volume_up _) = Json.str "up"
said encode (gain_down _) = Json.str "down"
said encode (gain_up _) = Json.str "up"
said encode (transfer _ (some exten)) = Json.str exten
said encode _ = Json.null

-- The command, with what it says, goes to the channel as a control of the call.
abbrev pub IsBroadcast : String → String → String → Json → Json → Outcome → Type 0
IsBroadcast id channel command member value (broadcast to params) =
    (to ≡ channel)
    × (lookup "application" params ≡ some (Json.str "conf-control"))
    × (lookup "callID" params ≡ some (Json.str id))
    × (lookup "command" params ≡ some (Json.str command))
    × (lookup "id" params ≡ some member)
    × (lookup "value" params ≡ some value)
IsBroadcast id channel command member value no_video = ⊥
IsBroadcast id channel command member value (requested r) = ⊥

member_json-nobody_or : (m : Option ℕ) → member_json m ≡ nobody_or m
member_json-nobody_or none = refl
member_json-nobody_or (some zero) = refl
member_json-nobody_or (some (suc n)) = refl

mod_command-IsBroadcast :
    (id channel command : String) (member : Option ℕ) (value : Json)
    → IsBroadcast id channel command
        (nobody_or member)
        value
        (mod_command id channel command member value)
unfolding mod_command conf_control spread lookup insert
mod_command-IsBroadcast id channel command member value =
    (refl, refl, refl, refl, ap some (member_json-nobody_or member), refl)

abbrev pub Runs : Bool → String → String → String → Json → Json → Outcome → Type 0
Runs true id channel command member value o = o ≡ no_video
Runs false id channel command member value o = IsBroadcast id channel command member value o

video-Runs :
    (video : Constraint) (id channel command : String) (member : Option ℕ) (value : Json)
    → Runs
        (lacks_video video)
        id
        channel
        command
        (nobody_or member)
        value
        (video_required video (mod_command id channel command member value))
video-Runs video id channel command member value = elim (Bool-cases (lacks_video video)) [
  | inl e ↦ rw e refl
  | inr e ↦ rw e (mod_command-IsBroadcast id channel command member value)
]

-- A command of the moderator is refused exactly if the call has no video and the command is about
-- video; otherwise it is broadcast on the moderator's channel, as a control of this call, under its name,
-- with the member that it is about, if that is a number other than 0, and with what else it says.
pub run_command-Runs :
    (encode : String → String) (video : Constraint) (id channel : String) (c : Command)
    → Runs
        (is_visual c && lacks_video video)
        id
        channel
        (command_name c)
        (nobody_or (about c))
        (said encode c)
        (run_command encode video id channel c)
unfolding run_command
run_command-Runs encode video id channel list_video_layouts =
    mod_command-IsBroadcast id channel "list-videoLayouts" none Json.null
run_command-Runs encode video id channel (play_media file) =
    mod_command-IsBroadcast id channel "play" none (Json.str file)
run_command-Runs encode video id channel stop_media =
    mod_command-IsBroadcast id channel "stop" none (Json.str "all")
run_command-Runs encode video id channel (deaf m) =
    mod_command-IsBroadcast id channel "deaf" m Json.null
run_command-Runs encode video id channel (undeaf m) =
    mod_command-IsBroadcast id channel "undeaf" m Json.null
run_command-Runs encode video id channel (start_record file) =
    mod_command-IsBroadcast id channel "recording" none
      (array (Json.str "start" ∷ Json.str file ∷ []))
run_command-Runs encode video id channel stop_record =
    mod_command-IsBroadcast id channel "recording" none
      (array (Json.str "stop" ∷ Json.str "all" ∷ []))
run_command-Runs encode video id channel (snapshot file) =
    video-Runs video id channel "vid-write-png" none (Json.str file)
run_command-Runs encode video id channel (set_video_layout layout zero) =
    video-Runs video id channel "vid-layout" none (Json.str layout)
run_command-Runs encode video id channel (set_video_layout layout (suc n)) =
    video-Runs video id channel "vid-layout" none
      (array (Json.str layout ∷ Json.num (ℤ.pos (suc n)) ∷ []))
run_command-Runs encode video id channel (kick m) =
    mod_command-IsBroadcast id channel "kick" m Json.null
run_command-Runs encode video id channel (mute_mic m) =
    mod_command-IsBroadcast id channel "tmute" m Json.null
run_command-Runs encode video id channel (mute_video m) =
    video-Runs video id channel "tvmute" m Json.null
run_command-Runs encode video id channel (presenter m) =
    video-Runs video id channel "vid-res-id" m (Json.str "presenter")
run_command-Runs encode video id channel (video_floor m) =
    video-Runs video id channel "vid-floor" m (Json.str "force")
run_command-Runs encode video id channel (banner m text) =
    video-Runs video id channel "vid-banner" m (Json.str (encode text))
run_command-Runs encode video id channel (volume_down m) =
    mod_command-IsBroadcast id channel "volume_out" m (Json.str "down")
run_command-Runs encode video id channel (volume_up m) =
    mod_command-IsBroadcast id channel "volume_out" m (Json.str "up")
run_command-Runs encode video id channel (gain_down m) =
    mod_command-IsBroadcast id channel "volume_in" m (Json.str "down")
run_command-Runs encode video id channel (gain_up m) =
    mod_command-IsBroadcast id channel "volume_in" m (Json.str "up")
run_command-Runs encode video id channel (transfer m none) =
    mod_command-IsBroadcast id channel "transfer" m Json.null
run_command-Runs encode video id channel (transfer m (some exten)) =
    mod_command-IsBroadcast id channel "transfer" m (Json.str exten)

-- Where a call that has joined no conference as a moderator asks the server to transfer it, the same
-- method, once the moderator's channel is subscribed to, broadcasts a command of the conference for
-- the member that the destination is read as, and has the server transfer nothing.
call_transfer-hidden :
    (parse_int : String → Option ℕ) (id channel destination : String) (m : Member)
    → m.commands ≡ none
    → (call_transfer parse_int id destination m ≡ requested (CallRequest.transfer destination))
      × (call_transfer parse_int id destination (subscribe_moderator channel true m)
          ≡ mod_command id channel "transfer" (parse_int destination) Json.null)
unfolding call_transfer run_command subscribe_moderator
call_transfer-hidden parse_int id channel destination m h = (rw (h, call_transfer) refl, refl)
