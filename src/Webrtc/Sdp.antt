-- ===== src/Webrtc/Sdp.antt =====
-- packages/common/src/webrtc/helpers.ts: rewriting of session descriptions, line by line.
pub mod Digits
pub mod Order
pub mod Payload
pub mod Stereo
use Prim.Native.Char.{Char, code}
use Prim.Native.String.{◌++◌ as ◌<>◌}
use signalwire_node.Common.{
  ℕ, zero, suc, ◌-◌, Bool, true, false, not, ◌&&◌, ◌||◌, Option, none, some, List, [], ◌∷◌, ◌++◌,
  String, ltb, leb, eqb, if◌then◌else◌, length, get_elem?,
}
use signalwire_node.Common.Text.{
  split_lines, join_lines, strip, begins, contains, find_index, change_at, slice,
}

abbrev in_range : ℕ → ℕ → Char → Bool
in_range low high c = leb low (code c) && leb (code c) high

-- `\d` and `\w`
abbrev pub is_digit : Char → Bool
is_digit c = in_range 48 57 c

abbrev pub is_word : Char → Bool
is_word c = is_digit c || in_range 65 90 c || in_range 97 122 c || eqb (code c) 95

-- The characters of a kind at the start, and what follows them.
unfoldable pub span : (Char → Bool) → String → String × String
span p String.[] = ("", "")
span p (String.◌∷◌ c s) = elim (p c) [
  | true ↦ (String.◌∷◌ c (span p s).0, (span p s).1)
  | false ↦ ("", String.◌∷◌ c s)
]

-- `\d+` or `\w+`
abbrev pub some_of : String × String → Option (String × String)
some_of (String.[], rest) = none
some_of (String.◌∷◌ c s, rest) = some (String.◌∷◌ c s, rest)

abbrev pub bind {ℓ κ} : {A : Type ℓ} {B : Type κ} → Option A → (A → Option B) → Option B
bind none f = none
bind (some a) f = f a

-- `a=rtpmap:(\d+) \w+\/\d+` where the text starts, part by part: what follows the number `n` up to
-- here is the rest.
abbrev pub clock_rate : String → String → Option String
clock_rate n rest = bind (some_of (span is_digit rest)) (λ digits. some n)

abbrev pub codec_end : String → String → Option String
codec_end n rest = bind (strip "/" rest) (clock_rate n)

abbrev pub codec_name : String → String → Option String
codec_name n rest = bind (some_of (span is_word rest)) (λ name. codec_end n name.1)

abbrev pub number_end : String → String → Option String
number_end n rest = bind (strip " " rest) (codec_name n)

abbrev pub payload_number : String → Option String
payload_number rest = bind (some_of (span is_digit rest)) (λ number. number_end number.0 number.1)

unfoldable pub payload_here : String → Option String
unfolding span strip
payload_here s = bind (strip "a=rtpmap:" s) payload_number

abbrev pub or_else : Option String → Option String → Option String
or_else none other = other
or_else (some a) other = some a

-- `getCodecPayloadType`: the first match in the line.
unfoldable pub codec_payload_type : String → Option String
unfolding payload_here
codec_payload_type String.[] = none
codec_payload_type (String.◌∷◌ c s) = or_else (payload_here (String.◌∷◌ c s)) (codec_payload_type s)

abbrev pub is_opus : String → Bool
is_opus s = begins "a=rtpmap" s && contains "opus/48000" s

abbrev pub stereo_mark : String
stereo_mark = "stereo=1;"

abbrev pub stereo_params : String
stereo_params = "; stereo=1; sprop-stereo=1"

-- The text of the pattern `a=fmtp:${opusPayload}`; of a number, or of "null".
abbrev pub fmtp : Option String → String
fmtp none = "a=fmtp:null"
fmtp (some payload) = "a=fmtp:" <> payload

abbrev pub line_at : ℕ → List String → String
line_at i ls = elim (get_elem? ls i) [ none ↦ "" | some l ↦ l ]

abbrev pub stereo_line : String → String
stereo_line l = if contains stereo_mark l then l else l <> stereo_params

abbrev pub with_fmtp : String → String → String
with_fmtp pattern l = l <> "\r\n" <> pattern <> " stereo=1; sprop-stereo=1"

-- The lines that `sdpStereoHack` joins, where the opus line is.
unfoldable pub stereo_lines : ℕ → List String → List String
unfolding codec_payload_type find_index contains change_at
stereo_lines opus ls =
    let pattern = fmtp (codec_payload_type (line_at opus ls)) in
    elim (find_index (contains pattern) ls) [
      | none ↦ change_at opus (with_fmtp pattern) ls
      | some i ↦ change_at i stereo_line ls
    ]

-- `sdpStereoHack`
unfoldable pub sdp_stereo_hack : String → String
unfolding split_lines join_lines find_index stereo_lines contains strip
sdp_stereo_hack sdp = elim (find_index is_opus (split_lines sdp)) [
  | none ↦ sdp
  | some opus ↦ join_lines (stereo_lines opus (split_lines sdp))
]

-- `_isAudioLine` and `_isVideoLine`
unfoldable pub is_audio_line : String → Bool
unfolding strip
is_audio_line line = begins "m=audio" line

unfoldable pub is_video_line : String → Bool
unfolding strip
is_video_line line = begins "m=video" line

-- `<` of two indices, where `none` is -1.
abbrev pub earlier : Option ℕ → Option ℕ → Bool
earlier none none = false
earlier none (some j) = true
earlier (some i) none = false
earlier (some i) (some j) = ltb i j

-- The place that an index means to `slice`: -1 is the last.
abbrev pub place : List String → Option ℕ → ℕ
place ls none = length ls - 1
place ls (some i) = i

-- What is joined when the sections change places.
unfoldable pub reordered : List String → List String
unfolding find_index is_audio_line is_video_line
reordered ls =
    let audio = place ls (find_index is_audio_line ls) in
    let video = place ls (find_index is_video_line ls) in
    slice 0 audio ls ++ (slice video (length ls - 1) ls ++ (slice audio video ls ++ "" ∷ []))

-- `sdpMediaOrderHack`
unfoldable pub sdp_media_order_hack : String → String → String
unfolding split_lines join_lines find_index is_audio_line is_video_line reordered
sdp_media_order_hack answer local_offer =
    let offer = split_lines local_offer in
    if earlier (find_index is_audio_line offer) (find_index is_video_line offer)
    then answer
    else join_lines (reordered (split_lines answer))

-- One line of `sdpBitrateHack`, its numbers as texts.
abbrev pub bitrate_line : String → String → String → String → String
bitrate_line max min start line =
    if begins "a=fmtp:" line
    then line <> ";x-google-max-bitrate=" <> max <> ";x-google-min-bitrate=" <> min
      <> ";x-google-start-bitrate=" <> start
    else (if begins "a=mid:1" line || begins "a=mid:video" line
        then line <> "\r\nb=AS:" <> max
        else line)

abbrev bitrate_lines : String → String → String → List String → List String
bitrate_lines max min start [] = []
bitrate_lines max min start (l ∷ ls) = bitrate_line max min start l ∷ bitrate_lines max min start ls

unfoldable pub sdp_bitrate_hack : String → String → String → String → String
unfolding split_lines join_lines strip
sdp_bitrate_hack sdp max min start = join_lines (bitrate_lines max min start (split_lines sdp))

-- `sdpHasAudio` and `sdpHasVideo`; the text is empty where it is not given.
unfoldable pub sdp_has_audio : String → Bool
unfolding contains strip
sdp_has_audio sdp = contains "m=audio" sdp

unfoldable pub sdp_has_video : String → Bool
unfolding contains strip
sdp_has_video sdp = contains "m=video" sdp
