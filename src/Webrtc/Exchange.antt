-- ===== src/Webrtc/Exchange.antt =====
-- packages/common/src/webrtc/BaseCall.ts: the exchange of descriptions with the server, ICE restarts and
-- holding.
use signalwire_node.Common.{
  ◌+◌, Bool, true, false, not, ◌&&◌, ◌||◌, Option, none, some, List, [], ◌∷◌, ◌++◌, String, ltb,
  eqb, if◌then◌else◌,
}
use signalwire_node.Webrtc.{
  RtcCall, Peer, PeerType, Step, Effect, done, offer, answer, active, state_number, requesting,
  trying, answering, held, sent_invite, sent_modify, sent_answer, sent_attach, restarted_ice,
  started_negotiation, reported, set_state, hang_up,
}

-- `_requestAnotherLocalDescription`, of a call with this peer.
unfoldable pub request_another : Peer → RtcCall → Step
request_another p c =
    if p.ready_twice
    then done c (reported ∷ [])
    else done
        (record c {
          ice_done = false;
          peer = some (record p { ready_twice = true; negotiating = true });
        })
        (started_negotiation ∷ [])

-- `needsRenegotiation`
abbrev pub needs_renegotiation : PeerType → RtcCall → Bool
needs_renegotiation offer c = eqb (state_number c.state) 7 || eqb (state_number c.state) 8
needs_renegotiation answer c = false

abbrev after_step : Step → List Effect → Step
after_step s es = record s { effects = s.effects ++ es }

abbrev send_sdp : PeerType → RtcCall → Step
send_sdp offer c =
    if needs_renegotiation offer c
    then done c (sent_modify ∷ [])
    else after_step (set_state requesting c) (sent_invite ∷ [])
send_sdp answer c =
    after_step (set_state answering c) (if c.attach then sent_attach ∷ [] else sent_answer ∷ [])

-- `_onIceSdp` up to the server's answer.
unfoldable pub on_ice_sdp : PeerType → Bool → RtcCall → Step
unfolding request_another set_state
on_ice_sdp type has_candidate c0 =
    let c = record c0 { ice_timeout = false; ice_done = true } in
    elim c.peer [
      | none ↦ record { call = c; effects = []; thrown = true }
      | some p ↦
          let p' = record p { negotiating = false } in
          let c' = record c { peer = some p' } in
          if not has_candidate then request_another p' c' else send_sdp type c'
    ]

-- The server's answer to it.
unfoldable pub sdp_executed : PeerType → Bool → Option String → RtcCall → Step
unfolding set_state
sdp_executed type renegotiation node c0 =
    let c = record c0 { target_node_id = node } in
    if renegotiation
    then done c []
    else (elim type [ offer ↦ set_state trying c | answer ↦ set_state active c ])

-- The requests that carry an SDP, and the cause codes that the `switch` of a failure assigns, one
-- after the other: its cases have no `break`.
pub data Request : Type 0 where
  invite answer_request attach_request : Request

abbrev pub assigned_codes : Request → List String
assigned_codes answer_request = "50001" ∷ "50002" ∷ "50003" ∷ []
assigned_codes attach_request = "50002" ∷ "50003" ∷ []
assigned_codes invite = "50003" ∷ []

abbrev pub last_of : Option String → List String → Option String
last_of o [] = o
last_of o (x ∷ xs) = last_of (some x) xs

-- The request has failed.
unfoldable pub sdp_failed : Request → Bool → RtcCall → Step
unfolding hang_up
sdp_failed r renegotiation c =
    if renegotiation
    then done c []
    else hang_up (some "NORMAL_CLEARING") (last_of none (assigned_codes r)) true c

-- `restartIce`
unfoldable pub restart_ice : RtcCall → Step
restart_ice c = elim c.peer [
  | none ↦ done c []
  | some p ↦
      if eqb (state_number c.state) 7 || eqb (state_number c.state) 8
      then done
          (record c {
            ice_done = false;
            ice_timeout = false;
            peer = some (record p { type = offer; negotiating = false });
          })
          (restarted_ice ∷ [])
      else done c []
]

-- `oniceconnectionstatechange`, of the two states that do something.
unfoldable pub on_ice_connected : RtcCall → RtcCall
on_ice_connected c = record c { ice_restart_attempts = 0 }

unfoldable pub on_ice_failed : RtcCall → Step
unfolding restart_ice
on_ice_failed c =
    if c.auto_restart_ice_on_failure && ltb c.ice_restart_attempts c.max_ice_restart_attempts
    then restart_ice (record c { ice_restart_attempts = c.ice_restart_attempts + 1 })
    else done c []

-- `_handleChangeHoldStateSuccess`
unfoldable pub hold_state_changed : Bool → RtcCall → Step
unfolding set_state
hold_state_changed is_active = if is_active then set_state active else set_state held
