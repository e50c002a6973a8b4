-- ===== src/Browser/Settings.antt =====
-- packages/common/src/BrowserSession.ts: the media settings of a session, its cache of devices and the
-- messages of its speed test.
pub mod SpeedTest
use Prim.Native.Nat.{◌/◌}
use signalwire_node.Common.{
  ℕ, zero, suc, ◌+◌, ◌*◌, ◌%◌, Bool, true, false, Option, none, some, List, [], ◌∷◌, ◌++◌, String,
  ◌==◌, ltb, eqb, if◌then◌else◌,
}
use signalwire_node.Common.Dict.{Dict, lookup, insert, delete, has}
use signalwire_node.Common.Json.{Json}
use signalwire_node.Webrtc.Devices as Devices
use signalwire_node.Webrtc.Devices.{
  Constraint, flag, set, IceServer, one, remove_unsupported_constraints,
  check_device_id_constraints,
}
use signalwire_node.Handler.{or_empty}

-- `_audioConstraints` and `_videoConstraints`, with the devices, and `_iceServers`.
pub record Settings : Type 0 where
  pub audio : Constraint
  pub video : Constraint
  pub mic_id : String
  pub mic_label : String
  pub cam_id : String
  pub cam_label : String
  pub ice_servers : List IceServer

-- `setAudioSettings` and `setVideoSettings`: the device, the other constraints of the settings, and what
-- `assureDeviceId` answers.
unfoldable pub set_audio_settings :
    (String → Bool) → String → String → Option String → Dict Json → Settings → Settings
unfolding remove_unsupported_constraints check_device_id_constraints
set_audio_settings supported id label assured constraints s = record s {
  audio = set (
      check_device_id_constraints id label assured
        (remove_unsupported_constraints supported constraints));
  mic_id = id;
  mic_label = label;
}

unfoldable pub set_video_settings :
    (String → Bool) → String → String → Option String → Dict Json → Settings → Settings
unfolding remove_unsupported_constraints check_device_id_constraints
set_video_settings supported id label assured constraints s = record s {
  video = set (
      check_device_id_constraints id label assured
        (remove_unsupported_constraints supported constraints));
  cam_id = id;
  cam_label = label;
}

-- `disableMicrophone`, `enableMicrophone`, `disableWebcam`, `enableWebcam`
unfoldable pub switch_microphone : Bool → Settings → Settings
switch_microphone enabled s = record s { audio = flag enabled }

unfoldable pub switch_webcam : Bool → Settings → Settings
switch_webcam enabled s = record s { video = flag enabled }

-- The setter of `iceServers`.
pub data IceSetting : Type 0 where
  default_servers : Bool → IceSetting
  servers : List IceServer → IceSetting

abbrev pub google_stun : IceServer
google_stun = record {
  urls = Devices.many ("stun:stun.l.google.com:19302" ∷ []);
  username = none;
  credential = none;
}

unfoldable pub set_ice_servers : IceSetting → Settings → Settings
set_ice_servers (default_servers wanted) s = record s {
  ice_servers = if wanted then google_stun ∷ [] else [];
}
set_ice_servers (servers given) s = record s { ice_servers = given }

-- `refreshDevices`: the devices of the three kinds, each by its id.
abbrev pub empty_cache : Dict (Dict Devices.Device)
empty_cache = ("videoinput", []) ∷ ("audioinput", []) ∷ ("audiooutput", []) ∷ []

unfoldable pub cache_devices :
    List Devices.Device → Dict (Dict Devices.Device) → Dict (Dict Devices.Device)
unfolding lookup insert
cache_devices [] cache = cache
cache_devices (d ∷ ds) cache = cache_devices ds (
    if has d.kind cache
    then insert d.kind (insert d.device_id d (or_empty (lookup d.kind cache))) cache
    else cache)

unfoldable pub refresh_devices : List Devices.Device → Dict (Dict Devices.Device)
unfolding cache_devices
refresh_devices ds = cache_devices ds empty_cache

-- What `speedTest` sends: the size, chunks of 1024 bytes, and the end.
pub data SpeedMessage : Type 0 where
  spu : ℕ → SpeedMessage
  spb spe : SpeedMessage

-- `for (let i = 0; i < loops; i++)`, where `loops` is a number of 1024ths: `none` is a loop whose fuel
-- has run out.
unfoldable pub speed_loop : ℕ → ℕ → ℕ → Option (List SpeedMessage)
speed_loop zero i loops = none
speed_loop (suc fuel) i loops =
    let rest = speed_loop fuel (suc i) loops in
    if ltb (i * 1024) loops
    then (elim rest [ none ↦ none | some ms ↦ some (spb ∷ ms) ])
    else some []

-- `bytes / 1024`, and one more where a part is left, in 1024ths.
unfoldable pub speed_loops : ℕ → ℕ
speed_loops bytes = if eqb (bytes % 1024) 0 then bytes else bytes + 1024

-- The messages; `none` is the rejection of a size that is zero.
unfoldable pub speed_test : ℕ → Option (List SpeedMessage)
unfolding speed_loop speed_loops
speed_test bytes =
    if eqb bytes 0 then none else (elim (speed_loop (bytes + 3) 0 (speed_loops bytes)) [
      | none ↦ none
      | some ms ↦ some (spu bytes ∷ (ms ++ spe ∷ []))
    ])
