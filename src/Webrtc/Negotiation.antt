-- ===== src/Webrtc/Negotiation.antt =====
-- packages/common/src/webrtc/Peer.ts: the negotiations of a peer, the descriptions that it sets, and the
-- local stream that it asks for. What the RTCPeerConnection is asked to do is an effect; what its
-- promises deliver is an argument of further functions.
pub mod Offers
pub mod Shared
use signalwire_node.Common.{
  ℕ, zero, suc, ◌+◌, Bool, true, false, not, ◌&&◌, Option, none, some, List, [], ◌∷◌, String, ◌==◌,
  if◌then◌else◌,
}
use signalwire_node.Webrtc.{Peer, PeerType, offer, answer}
use signalwire_node.Webrtc.Sdp.{sdp_stereo_hack, sdp_bitrate_hack, sdp_has_audio, sdp_has_video}
use signalwire_node.Webrtc.Devices.{Constraint, IceServer, filter_ice_servers, Track}

-- The options of the call that its peer reads; a text that is missing is empty.
pub record PeerOptions : Type 0 where
  pub use_stereo : Bool
  pub remote_sdp : String
  pub max_bitrate : String
  pub min_bitrate : String
  pub start_bitrate : String
  pub ice_servers : List IceServer
  pub ice_transport_policy : Option String
  pub disable_udp_ice_servers : Bool
  pub screen_share : Bool

-- What the RTCPeerConnection is asked for: `set_remote` has the offer, and `create_answer` follows it.
pub data Asked : Type 0 where
  create_offer : Asked
  set_remote : String → Asked
  add_tracks : ℕ → Asked
  mute_and_attach : Asked

pub record Negotiating : Type 0 where
  pub peer : Peer
  pub asked : List Asked

-- `sdp` of `_createAnswer` and `_retrieveLocalStream`.
unfoldable pub offered_sdp : PeerOptions → String
unfolding sdp_stereo_hack
offered_sdp o = if o.use_stereo then sdp_stereo_hack o.remote_sdp else o.remote_sdp

-- `startNegotiation`, with `_createOffer` and `_createAnswer` up to their promises.
unfoldable pub start_negotiation : PeerOptions → Peer → Negotiating
unfolding offered_sdp
start_negotiation o p = record {
  peer = record p { negotiating = true };
  asked = elim p.type [ offer ↦ create_offer ∷ [] | answer ↦ set_remote (offered_sdp o) ∷ [] ];
}

-- `onnegotiationneeded`
unfoldable pub negotiation_needed : PeerOptions → Peer → Negotiating
unfolding start_negotiation
negotiation_needed o p =
    if p.negotiating then record { peer = p; asked = [] } else start_negotiation o p

-- `onsignalingstatechange`, of a state that is neither 'stable' nor 'closed', and of those: the second
-- result says whether the connection is still there.
unfoldable pub signaling_changed : String → Peer → Peer × Bool
signaling_changed state p =
    if state == "stable"
    then (p, true)
    else (if state == "closed" then (p, false) else (record p { negotiating = true }, true))

-- `_setLocalDescription`: the text of the description that is set.
unfoldable pub local_description : PeerOptions → String → String
unfolding sdp_stereo_hack sdp_bitrate_hack
local_description o sdp =
    let stereo = if o.use_stereo then sdp_stereo_hack sdp else sdp in
    if not (o.max_bitrate == "") && not (o.min_bitrate == "") && not (o.start_bitrate == "")
    then sdp_bitrate_hack stereo o.max_bitrate o.min_bitrate o.start_bitrate
    else stereo

-- `a && b` of a constraint and a flag.
abbrev pub and_flag : Constraint → Bool → Constraint
and_flag (Constraint.flag b) remote = Constraint.flag (b && remote)
and_flag (Constraint.set o) remote = Constraint.flag remote

-- `_getSharedConstraints`: the audio and the video. An empty offer has neither.
unfoldable pub shared_constraints : Constraint × Constraint → String → Constraint × Constraint
unfolding sdp_has_audio sdp_has_video
shared_constraints (audio, video) sdp = (
  and_flag audio (not (sdp == "") && sdp_has_audio sdp),
  and_flag video (not (sdp == "") && sdp_has_video sdp),
)

-- `_retrieveLocalStream`: the stream of the options, if it is valid, or what `getUserMedia` is asked
-- for; the constraints are those of `getMediaConstraints`.
pub data Retrieving : Type 0 where
  own_stream : Retrieving
  user_media : Constraint × Constraint → Retrieving

unfoldable pub retrieve_local_stream :
    Bool → Constraint × Constraint → PeerOptions → Peer → Retrieving
unfolding shared_constraints offered_sdp
retrieve_local_stream own_valid local o p =
    if own_valid
    then own_stream
    else user_media
        (elim p.type [ offer ↦ local | answer ↦ shared_constraints local (offered_sdp o) ])

-- What the promise of the local stream delivers; `missing` is null, as after an error.
pub data LocalStream : Type 0 where
  tracks : List Track → LocalStream
  missing : LocalStream
  invalid : LocalStream

abbrev count : List Track → ℕ
count [] = 0
count (t ∷ ts) = suc (count ts)

-- The rest of `_init`. The tracks that are added make the browser need a negotiation.
unfoldable pub local_stream_ready : PeerOptions → LocalStream → Peer → Negotiating
unfolding start_negotiation
local_stream_ready o (tracks ts) p = record {
  peer = p;
  asked = add_tracks (count ts) ∷ (if o.screen_share then [] else mute_and_attach ∷ []);
}
local_stream_ready o missing p = start_negotiation o p
local_stream_ready o invalid p = record { peer = p; asked = [] }

-- `_config`: the policy and the servers that the RTCPeerConnection is made with.
unfoldable pub peer_config : PeerOptions → String × List IceServer
unfolding filter_ice_servers
peer_config o = (
  elim o.ice_transport_policy [ none ↦ "all" | some policy ↦ policy ],
  filter_ice_servers o.ice_servers o.disable_udp_ice_servers,
)

-- `applyMediaConstraints` of Peer: the senders are the kinds of their tracks, each with whether it is
-- live, and `none` is a sender without a track. The answer says whether the constraints are applied.
abbrev pub sender_by_kind : String → List (Option (String × Bool)) → Option Bool
sender_by_kind kind [] = none
sender_by_kind kind (none ∷ senders) = sender_by_kind kind senders
sender_by_kind kind (some (own, live) ∷ senders) =
    if own == kind then some live else sender_by_kind kind senders

unfoldable pub applies_constraints : Bool → String → List (Option (String × Bool)) → Bool
applies_constraints connected kind senders =
    connected && (elim (sender_by_kind kind senders) [ none ↦ false | some live ↦ live ])
