-- ===== src/Examples/Sdp.antt =====
-- Session descriptions.
use signalwire_node.Common.{◌≡◌, refl, [], ◌∷◌, String, List}
use signalwire_node.Webrtc.Sdp.{sdp_stereo_hack, sdp_media_order_hack}
use signalwire_node.Webrtc.Sdp.Stereo.{sdp_stereo_hack-again}
use signalwire_node.Webrtc.Sdp.Order.{IsTurned}

abbrev opus_sdp : String
opus_sdp = "v=0\r\na=rtpmap:111 opus/48000/2\r\na=fmtp:111 minptime=10\r\n"

stereo :
    sdp_stereo_hack opus_sdp
    ≡ "v=0\r\na=rtpmap:111 opus/48000/2\r\na=fmtp:111 minptime=10; stereo=1; sprop-stereo=1\r\n"
unfolding sdp_stereo_hack
stereo = refl

new_line :
    sdp_stereo_hack "a=rtpmap:96 opus/48000/2\r\n"
    ≡ "a=rtpmap:96 opus/48000/2\r\na=fmtp:96 stereo=1; sprop-stereo=1\r\n"
unfolding sdp_stereo_hack
new_line = refl

sdp_stereo_hack-again_example :
    sdp_stereo_hack (sdp_stereo_hack opus_sdp) ≡ sdp_stereo_hack opus_sdp
sdp_stereo_hack-again_example = sdp_stereo_hack-again opus_sdp

-- An offer with its video section first, and answers in either order.
abbrev offer : String
offer = "v=0\r\nm=video 9\r\nm=audio 9\r\n"

offer-IsTurned : IsTurned offer
unfolding sdp_media_order_hack
offer-IsTurned = refl

abbrev start : List String
start = "v=0" ∷ []

abbrev audio_video : String
audio_video = "v=0\r\nm=audio 9\r\na=x\r\nm=video 9\r\n"

abbrev video_audio : String
video_audio = "v=0\r\nm=video 9\r\nm=audio 9\r\na=x\r\n"
