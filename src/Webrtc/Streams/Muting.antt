-- ===== src/Webrtc/Streams/Muting.antt =====
-- What a change of the microphone keeps, and what it forgets.
use mathlib.Core.List.{append-nil}
use signalwire_node.Common.{
  ◌≡◌, refl, ◌∙◌, Bool, true, false, some, List, [], ◌∷◌, ◌++◌, String, arith, keep, All,
}
use signalwire_node.Webrtc.Devices.{
  Track, Change, on, off, toggle, is_same, update_media_stream_tracks,
}
use signalwire_node.Webrtc.Streams.{
  Streams, change_local, tracks_of, find_sender, found, set_audio_in_device,
}

-- Tracks of one kind only.
abbrev pub IsKind : Bool → List Track → Type 0
IsKind audio ts = All (λ t. is_same audio t.is_audio ≡ true) ts

keep-append : (p : Track → Bool) (xs ys : List Track) → keep p (xs ++ ys) ≡ keep p xs ++ keep p ys
keep-append p [] ys = refl
keep-append p (x ∷ xs) ys = ground (arith, keep-append p xs ys)

tracks_of-IsKind :
    (ts : List Track) → IsKind true ts → (tracks_of true ts ≡ ts) × (tracks_of false ts ≡ [])
tracks_of-IsKind [] h = (refl, refl)
tracks_of-IsKind (t ∷ ts) (a, h) = ground (arith, tracks_of-IsKind ts h)

tracks_of-tracks_of :
    (ts : List Track)
    → (tracks_of true (tracks_of false ts) ≡ [])
      × (tracks_of false (tracks_of false ts) ≡ tracks_of false ts)
tracks_of-tracks_of [] = (refl, refl)
tracks_of-tracks_of (t ∷ ts) = ground (arith, tracks_of-tracks_of ts)

-- Muting the audio leaves the video tracks.
tracks_of-muted :
    (change : Change) (ts : List Track)
    → tracks_of false (update_media_stream_tracks (some true) change ts) ≡ tracks_of false ts
unfolding update_media_stream_tracks
tracks_of-muted change [] = refl
tracks_of-muted on (t ∷ ts) = ground (arith, tracks_of-muted on ts)
tracks_of-muted off (t ∷ ts) = ground (arith, tracks_of-muted off ts)
tracks_of-muted toggle (t ∷ ts) = ground (arith, tracks_of-muted toggle ts)

-- A call takes the audio of its new microphone as the browser delivers it, whether it was muted,
-- unmuted or toggled before, keeps its video tracks and stops its old audio tracks, if the audio sender comes before any sender
-- without a track and the new stream has audio alone.
pub set_audio_in_device-change_local :
    (device_id : String) (new_stream : List Track) (change : Change) (s : Streams)
    → find_sender true s.senders ≡ found
    → IsKind true new_stream
    → (s' : Streams) × (set_audio_in_device device_id new_stream (change_local true change s)
        ≡ some s')
      × (tracks_of true s'.local_stream ≡ new_stream)
      × (tracks_of false s'.local_stream ≡ tracks_of false s.local_stream)
      × (s'.stopped ≡ s.stopped ++ tracks_of true (change_local true change s).local_stream)
unfolding set_audio_in_device change_local
set_audio_in_device-change_local device_id new_stream change s f h =
    let old = update_media_stream_tracks (some true) change s.local_stream in
    let (all, no_video) = tracks_of-IsKind new_stream h in
    let (no_audio, videos) = tracks_of-tracks_of old in
    (
      record s {
        mic_id = some device_id;
        stopped = s.stopped ++ tracks_of true old;
        local_stream = new_stream ++ tracks_of false old;
      },
      rw (f, set_audio_in_device) refl,
      keep-append (λ t. is_same true t.is_audio) new_stream (tracks_of false old)
          ∙ rw (all, no_audio) (append-nil new_stream),
      keep-append (λ t. is_same false t.is_audio) new_stream (tracks_of false old)
          ∙ rw (no_video, videos) (tracks_of-muted change s.local_stream),
      refl,
    )
