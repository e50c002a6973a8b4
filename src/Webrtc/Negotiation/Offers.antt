-- ===== src/Webrtc/Negotiation/Offers.antt =====
-- A peer does not negotiate again before the call has ended the negotiation that runs.
use signalwire_node.Common.{
  ◌≡◌, ℕ, suc, ◌+◌, ◌≤◌, Bool, true, false, List, [], ◌∷◌, ◌++◌, String, arith, length,
  length-append,
}
use signalwire_node.Webrtc.{Peer}
use signalwire_node.Webrtc.Negotiation.{
  Asked, Negotiating, PeerOptions, start_negotiation, negotiation_needed, signaling_changed,
}

-- What happens to a peer: the browser needs a negotiation, its signaling state changes, the call ends
-- the negotiation, when its description is ready (`_onIceSdp`) or ICE restarts (`restartIce`), or a
-- negotiation is started whether one runs or not: by a peer that got no stream, and by the call when it
-- needs another description (`_requestAnotherLocalDescription`).
pub data PeerEvent : Type 0 where
  needed started : PeerEvent
  signaling : String → PeerEvent
  reset : PeerEvent

unfoldable pub peer_step : PeerOptions → PeerEvent → Peer → Negotiating
unfolding negotiation_needed start_negotiation signaling_changed
peer_step o needed p = negotiation_needed o p
peer_step o started p = start_negotiation o p
peer_step o (signaling state) p = record { peer = (signaling_changed state p).0; asked = [] }
peer_step o reset p = record { peer = record p { negotiating = false }; asked = [] }

-- All that the peer asks its connection for.
unfoldable pub all_asked : PeerOptions → List PeerEvent → Peer → List Asked
unfolding peer_step
all_asked o [] p = []
all_asked o (e ∷ es) p = (peer_step o e p).asked ++ all_asked o es (peer_step o e p).peer

abbrev pub resets : List PeerEvent → ℕ
resets [] = 0
resets (reset ∷ es) = suc (resets es)
resets (needed ∷ es) = resets es
resets (started ∷ es) = resets es
resets (signaling state ∷ es) = resets es

abbrev pub starts : List PeerEvent → ℕ
starts [] = 0
starts (started ∷ es) = suc (starts es)
starts (needed ∷ es) = starts es
starts (reset ∷ es) = starts es
starts (signaling state ∷ es) = starts es

abbrev pub one_if : Bool → ℕ
one_if true = 1
one_if false = 0

-- One step pays for what it asks with the peer's freedom to negotiate.
step-pays :
    (o : PeerOptions) (e : PeerEvent) (p : Peer)
    → length (peer_step o e p).asked + one_if p.negotiating
      ≤ resets (e ∷ []) + starts (e ∷ []) + one_if (peer_step o e p).peer.negotiating
unfolding peer_step negotiation_needed start_negotiation
step-pays o needed p = ground arith
step-pays o started p = ground arith
step-pays o (signaling state) p = ground arith
step-pays o reset p = ground arith

resets-cons : (e : PeerEvent) (es : List PeerEvent) → resets (e ∷ es) ≡ resets (e ∷ []) + resets es
resets-cons needed es = omega arith
resets-cons started es = omega arith
resets-cons (signaling state) es = omega arith
resets-cons reset es = omega arith

starts-cons : (e : PeerEvent) (es : List PeerEvent) → starts (e ∷ es) ≡ starts (e ∷ []) + starts es
starts-cons needed es = omega arith
starts-cons started es = omega arith
starts-cons (signaling state) es = omega arith
starts-cons reset es = omega arith

-- In whatever order the browser needs a negotiation of a peer, its signaling state changes, and the call
-- ends a negotiation or starts one whether another runs or not, the peer does not ask its connection for
-- an offer or an answer more often than a negotiation has been ended or started so, and once more if
-- none was running.
pub all_asked-le :
    (o : PeerOptions) (es : List PeerEvent) (p : Peer)
    → length (all_asked o es p) + one_if p.negotiating ≤ resets es + starts es + 1
unfolding all_asked
all_asked-le o [] p = ground arith
all_asked-le o (e ∷ es) p =
    let q = (peer_step o e p).peer in
    omega (
      arith,
      length-append {0} (peer_step o e p).asked (all_asked o es q),
      resets-cons e es,
      starts-cons e es,
      step-pays o e p,
      all_asked-le o es q,
    )
