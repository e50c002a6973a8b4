-- ===== src/Webrtc/Recovery.antt =====
-- ICE restarts are bounded, and conference updates are consecutive.
use signalwire_node.Common.{
  refl, some, [], ◌∷◌, ℕ, zero, suc, ◌+◌, ◌≤◌, ◌≡◌, ◌≢◌, ◌↔◌, true, false, arith, subst, some,
}
use signalwire_node.Common.Json.{pos}
use signalwire_node.Webrtc.{
  done, hangup, hang_up, PeerType, Peer, started_negotiation, reported, RtcCall,
  check_conference_serno,
}
use signalwire_node.Webrtc.Exchange.{
  Request, sdp_failed, on_ice_sdp, request_another, restart_ice, on_ice_failed, invite,
  answer_request, attach_request,
}

-- Failures of the ICE connection, one after the other.
abbrev pub failures : ℕ → RtcCall → RtcCall
failures zero c = c
failures (suc n) c = failures n (on_ice_failed c).call

restart_ice-kept :
    (c : RtcCall)
    → ((restart_ice c).call.ice_restart_attempts ≡ c.ice_restart_attempts)
      × ((restart_ice c).call.max_ice_restart_attempts ≡ c.max_ice_restart_attempts)
unfolding restart_ice
restart_ice-kept c = ground arith

on_ice_failed-kept :
    (c : RtcCall)
    → c.ice_restart_attempts ≤ c.max_ice_restart_attempts
    → ((on_ice_failed c).call.ice_restart_attempts
        ≤ (on_ice_failed c).call.max_ice_restart_attempts)
      × ((on_ice_failed c).call.max_ice_restart_attempts ≡ c.max_ice_restart_attempts)
unfolding on_ice_failed
on_ice_failed-kept c h =
    ground
      (arith, restart_ice-kept (record c { ice_restart_attempts = c.ice_restart_attempts + 1 }))

-- However often the ICE connection fails in a row, the attempts that the call has counted stay
-- within the maximum, if they were.
pub failures-bounded :
    (n : ℕ) (c : RtcCall)
    → c.ice_restart_attempts ≤ c.max_ice_restart_attempts
    → (failures n c).ice_restart_attempts ≤ c.max_ice_restart_attempts
failures-bounded zero c h = h
failures-bounded (suc n) c h =
    let (bounded, same) = on_ice_failed-kept c h in
    subst (λ m. (failures n (on_ice_failed c).call).ice_restart_attempts ≤ m) same
      (failures-bounded n (on_ice_failed c).call bounded)

-- Once a conference has sent a numbered update, the next one is taken exactly if its number is the
-- successor, which is then the last; another one changes nothing.
pub check_conference_serno-next :
    (n : ℕ) (c : RtcCall)
    → c.last_serno ≢ 0
    → ((check_conference_serno (pos n) c).0 ≡ true ↔ n ≡ suc c.last_serno)
      × ((check_conference_serno (pos n) c).0 ≡ true
          → (check_conference_serno (pos n) c).1.last_serno ≡ suc c.last_serno)
      × ((check_conference_serno (pos n) c).0 ≡ false → (check_conference_serno (pos n) c).1 ≡ c)
unfolding check_conference_serno
check_conference_serno-next n c h = ground arith

-- Whichever request failed, unless it was a renegotiation, the call hangs up with the cause code of
-- a failed Invite.
sdp_failed-cause_code :
    (r : Request) (c : RtcCall)
    → ((sdp_failed r false c).call.cause_code ≡ "50003")
      × ((sdp_failed r false c).call.state ≡ hangup)
unfolding sdp_failed hang_up
sdp_failed-cause_code invite c = (refl, refl)
sdp_failed-cause_code answer_request c = (refl, refl)
sdp_failed-cause_code attach_request c = (refl, refl)

-- The call after the first description without candidates.
abbrev asked : Peer → RtcCall → RtcCall
asked p c = record c {
  ice_timeout = false;
  ice_done = false;
  peer = some (record p { ready_twice = true; negotiating = true });
}

asked-once :
    (type : PeerType) (c : RtcCall) (p : Peer)
    → c.peer ≡ some p
    → p.ready_twice ≡ false
    → on_ice_sdp type false c ≡ done (asked p c) (started_negotiation ∷ [])
unfolding on_ice_sdp request_another
asked-once type c p h n = rw (h, on_ice_sdp) (rw (n, request_another) refl)

-- Of two local descriptions without candidates in a row, to a call with a peer that has not been
-- asked twice, only the first makes the call negotiate again; the second is reported, and the
-- state of the call is as before.
pub on_ice_sdp-reported :
    (type type' : PeerType) (c : RtcCall) (p : Peer)
    → c.peer ≡ some p
    → p.ready_twice ≡ false
    → ((on_ice_sdp type false c).effects ≡ started_negotiation ∷ [])
      × ((on_ice_sdp type' false (on_ice_sdp type false c).call).effects ≡ reported ∷ [])
      × ((on_ice_sdp type' false (on_ice_sdp type false c).call).call.state ≡ c.state)
unfolding on_ice_sdp request_another
on_ice_sdp-reported type type' c p h n = rw (asked-once type c p h n) (refl, refl, refl)
