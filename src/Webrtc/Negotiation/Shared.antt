-- ===== src/Webrtc/Negotiation/Shared.antt =====
-- What an answering peer asks the user for.
use signalwire_node.Common.{
  ◌≡◌, refl, Bool, true, false, ◌&&◌, not, String, ◌==◌, Bool-cases, inl, inr, eq_iff,
}
use signalwire_node.Webrtc.{Peer, answer}
use signalwire_node.Webrtc.Sdp.{sdp_has_audio, sdp_has_video}
use signalwire_node.Webrtc.Devices.{Constraint}
use signalwire_node.Webrtc.Negotiation.{
  PeerOptions, offered_sdp, user_media, and_flag, shared_constraints, retrieve_local_stream,
}

-- Whether a kind of media is wanted at all.
abbrev pub wants : Constraint → Bool
wants (Constraint.flag b) = b
wants (Constraint.set o) = true

and_flag-wants : (c : Constraint) (b : Bool) → and_flag c b ≡ Constraint.flag (wants c && b)
and_flag-wants (Constraint.flag a) b = refl
and_flag-wants (Constraint.set o) b = refl

no_audio : (sdp : String) → (not (sdp == "") && sdp_has_audio sdp) ≡ sdp_has_audio sdp
unfolding sdp_has_audio
no_audio sdp = elim (Bool-cases (sdp == "")) [
  | inl e ↦ rw ((eq_iff sdp "").0 e) refl
  | inr e ↦ rw e refl
]

no_video : (sdp : String) → (not (sdp == "") && sdp_has_video sdp) ≡ sdp_has_video sdp
unfolding sdp_has_video
no_video sdp = elim (Bool-cases (sdp == "")) [
  | inl e ↦ rw ((eq_iff sdp "").0 e) refl
  | inr e ↦ rw e refl
]

-- A peer that answers, and has no stream of its own, asks the user for exactly the kinds of media
-- that the call wants and the offer has, each without any of its constraints, as a flag.
pub retrieve_local_stream-answer :
    (audio video : Constraint) (o : PeerOptions) (p : Peer)
    → p.type ≡ answer
    → retrieve_local_stream false (audio, video) o p
      ≡ user_media (
        Constraint.flag (wants audio && sdp_has_audio (offered_sdp o)),
        Constraint.flag (wants video && sdp_has_video (offered_sdp o)),
      )
unfolding retrieve_local_stream
retrieve_local_stream-answer audio video o p h =
    let sdp = offered_sdp o in
    rw
      (
        h,
        and_flag-wants audio,
        and_flag-wants video,
        no_audio sdp,
        no_video sdp,
        shared_constraints,
      )
      refl
