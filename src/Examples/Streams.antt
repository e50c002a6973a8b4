-- ===== src/Examples/Streams.antt =====
-- Peers, streams and the speed test at concrete inputs.
use signalwire_node.Common.{
  ◌≡◌, ◌≤◌, ◌+◌, ◌++◌, refl, true, false, none, some, List, [], ◌∷◌, length, arith,
}
use signalwire_node.Webrtc.{Peer, answer}
use signalwire_node.Webrtc.Devices.{Track, Constraint, off}
use signalwire_node.Webrtc.Negotiation.{PeerOptions, user_media, offered_sdp, retrieve_local_stream}
use signalwire_node.Webrtc.Negotiation.Offers.{
  PeerEvent, needed, signaling, reset, all_asked, resets, starts, one_if, all_asked-le,
}
use signalwire_node.Webrtc.Negotiation.Shared.{retrieve_local_stream-answer}
use signalwire_node.Webrtc.Streams.{Streams, change_local, tracks_of, set_audio_in_device}
use signalwire_node.Webrtc.Streams.Muting.{set_audio_in_device-change_local}
use signalwire_node.Webrtc.Sdp.{sdp_has_audio, sdp_has_video}
use signalwire_node.Browser.Settings.{spu, spe, speed_test}
use signalwire_node.Browser.Settings.SpeedTest.{chunks, speed_test-chunks}
use signalwire_node.Common.Json.{Json}
use signalwire_node.Examples.Webrtc.{peer}

abbrev peer_options : PeerOptions
peer_options = record {
  use_stereo = false;
  remote_sdp = "v=0\r\nm=audio 9\r\n";
  max_bitrate = "";
  min_bitrate = "";
  start_bitrate = "";
  ice_servers = [];
  ice_transport_policy = none;
  disable_udp_ice_servers = false;
  screen_share = false;
}

abbrev events : List PeerEvent
events = needed ∷ signaling "have-local-offer" ∷ needed ∷ reset ∷ needed ∷ []

all_asked-le_example :
    length (all_asked peer_options events peer) + one_if peer.negotiating
    ≤ resets events + starts events + 1
all_asked-le_example = all_asked-le peer_options events peer

-- A call that has chosen a microphone, and would send video too.
abbrev mic : Constraint
mic = Constraint.set (("deviceId", Json.str "m1") ∷ [])

abbrev answering : Peer
answering = record peer { type = answer }

retrieve_local_stream-answer_example :
    retrieve_local_stream false (mic, Constraint.flag true) peer_options answering
    ≡ user_media (Constraint.flag true, Constraint.flag false)
unfolding sdp_has_audio sdp_has_video offered_sdp
retrieve_local_stream-answer_example =
    retrieve_local_stream-answer mic (Constraint.flag true) peer_options answering refl

abbrev audio : Track
audio = record { is_audio = true; enabled = true }

abbrev video : Track
video = record { is_audio = false; enabled = true }

abbrev streams : Streams
streams = record {
  local_stream = audio ∷ video ∷ [];
  remote_stream = [];
  mic_id = none;
  cam_id = none;
  senders = some true ∷ none ∷ [];
  stopped = [];
}

set_audio_in_device-change_local_example :
    (after : Streams) × (set_audio_in_device "m2" (audio ∷ []) (change_local true off streams)
      ≡ some after)
    × (tracks_of true after.local_stream ≡ audio ∷ [])
    × (tracks_of false after.local_stream ≡ video ∷ [])
    × (after.stopped ≡ [] ++ tracks_of true (change_local true off streams).local_stream)
set_audio_in_device-change_local_example =
    set_audio_in_device-change_local "m2" (audio ∷ []) off streams refl (refl, tt)

speed_test-chunks_example : speed_test 1500 ≡ some (spu 1500 ∷ (chunks 3 ++ spe ∷ []))
speed_test-chunks_example = speed_test-chunks 1500 (omega arith)
