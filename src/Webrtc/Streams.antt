-- ===== src/Webrtc/Streams.antt =====
-- packages/common/src/webrtc/BaseCall.ts: the streams of a call, muted and with other devices. A track
-- is what webrtc/helpers.ts sees of it.
pub mod Muting
use signalwire_node.Common.{
  Bool, true, false, not, Option, none, some, List, [], ◌∷◌, ◌++◌, String, if◌then◌else◌, keep,
}
use signalwire_node.Webrtc.Devices.{
  Track, Change, on, off, toggle, is_same, update_media_stream_tracks,
}

-- The tracks of the local and of the remote stream, the devices, the senders of the connection by the
-- kinds of their tracks (`none` for a sender without one), and the tracks that have been stopped.
pub record Streams : Type 0 where
  pub local_stream : List Track
  pub remote_stream : List Track
  pub mic_id : Option String
  pub cam_id : Option String
  pub senders : List (Option Bool)
  pub stopped : List Track

-- `muteAudio`, `unmuteAudio`, `toggleAudioMute`, `muteVideo`, `unmuteVideo`, `toggleVideoMute`: audio or
-- video of the local stream.
unfoldable pub change_local : Bool → Change → Streams → Streams
unfolding update_media_stream_tracks
change_local audio change s = record s {
  local_stream = update_media_stream_tracks (some audio) change s.local_stream;
}

-- `deaf`, `undeaf`, `toggleDeaf`
unfoldable pub change_remote : Change → Streams → Streams
unfolding update_media_stream_tracks
change_remote change s = record s {
  remote_stream = update_media_stream_tracks (some true) change s.remote_stream;
}

abbrev pub tracks_of : Bool → List Track → List Track
tracks_of audio ts = keep (λ t. is_same audio t.is_audio) ts

-- The sender of a kind: the search ends in a TypeError at a sender without a track.
pub data Search : Type 0 where
  found absent thrown : Search

abbrev pub find_sender : Bool → List (Option Bool) → Search
find_sender audio [] = absent
find_sender audio (none ∷ senders) = thrown
find_sender audio (some kind ∷ senders) =
    if is_same audio kind then found else find_sender audio senders

-- `setAudioInDevice` and `setVideoDevice`, with the stream that `getUserMedia` delivers.
unfoldable pub set_audio_in_device : String → List Track → Streams → Option Streams
set_audio_in_device device_id new_stream s = elim (find_sender true s.senders) [
  | thrown ↦ none
  | absent ↦ some s
  | found ↦ some (record s {
    mic_id = some device_id;
    stopped = s.stopped ++ tracks_of true s.local_stream;
    local_stream = new_stream ++ tracks_of false s.local_stream;
  })
]

unfoldable pub set_video_device : String → List Track → Streams → Option Streams
set_video_device device_id new_stream s = elim (find_sender false s.senders) [
  | thrown ↦ none
  | absent ↦ some s
  | found ↦ some (record s {
    cam_id = some device_id;
    stopped = s.stopped ++ tracks_of false s.local_stream;
    local_stream = new_stream ++ tracks_of true s.local_stream;
  })
]
