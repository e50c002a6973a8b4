-- ===== src/Verto/Open.antt =====
-- The steps of a call that keep it from being listed once it is destroyed.
use signalwire_node.Common.{
  ◌≡◌, ◌≢◌, Bool, true, false, not, Option, List, [], ◌∷◌, String, arith, if-both, Option-cases,
  inl, inr,
}
use signalwire_node.Common.Dict.{Values}
use signalwire_node.Webrtc as Webrtc
use signalwire_node.Webrtc.{
  RtcCall, Step, State, destroy, new, active, early, ringing, recovering, set_state, hang_up,
  on_remote_sdp, apply_media_constraints, then_step, when, done, at_least,
}
use signalwire_node.Browser.{Browser}
use signalwire_node.Verto.{Method, call_step}

-- If a call has not been forgotten by its session, it has not been destroyed.
abbrev pub IsOpen : RtcCall → Type 0
IsOpen c = c.registered ≡ true → c.state ≢ destroy

-- A call that is listed: it knows that it is, and has not been destroyed.
abbrev pub IsLive : RtcCall → Type 0
IsLive c = (c.registered ≡ true) × (c.state ≢ destroy)

abbrev pub AllLive : Browser → Type 0
AllLive b = Values IsLive b.calls

pub then_step-IsOpen :
    (s : Step) (f : RtcCall → Step)
    → IsOpen s.call
    → ((c : RtcCall) → IsOpen c → IsOpen (f c).call)
    → IsOpen (then_step s f).call
then_step-IsOpen s f h k =
    if-both (λ x. IsOpen x.call) s.thrown s (Webrtc.before s.effects (f s.call)) (λ _. h)
      (λ _. k s.call h)

when-IsOpen :
    (t : Bool) (f : RtcCall → Step) (c : RtcCall)
    → IsOpen c
    → IsOpen (f c).call
    → IsOpen (when t f c).call
when-IsOpen true f c h k = k
when-IsOpen false f c h k = h

active-IsOpen : (c : RtcCall) → IsOpen (set_state active c).call
unfolding set_state
active-IsOpen c r e = ground arith

sdp-IsOpen : (c : RtcCall) → IsOpen c → IsOpen (on_remote_sdp c).call
unfolding on_remote_sdp
sdp-IsOpen c h = elim (Option-cases c.peer) [ inl e ↦ rw e h | inr (p, e) ↦ rw e h ]

constraints-IsOpen :
    (kinds : List String) (c : RtcCall) → IsOpen c → IsOpen (apply_media_constraints kinds c).call
unfolding apply_media_constraints
constraints-IsOpen [] c h = h
constraints-IsOpen (k ∷ ks) c h = elim (Option-cases c.peer) [
  | inl e ↦ rw e h
  | inr (p, e) ↦ rw e h
]

pub hang_up-IsOpen :
    (cause code : Option String) (c : RtcCall) → IsOpen (hang_up cause code false c).call
unfolding hang_up
hang_up-IsOpen cause code c r = ground arith

answered-IsOpen : (c : RtcCall) → IsOpen c → IsOpen (Webrtc.handle_message Webrtc.answered c).call
unfolding Webrtc.handle_message
answered-IsOpen c h =
    let c' = record c { got_answer = true } in
    if-both (λ x. IsOpen x.call) (at_least active c') (done c' [])
      (then_step (when (at_least early c') (set_state active) c')
        (λ d. when (not d.got_early) on_remote_sdp d))
      (λ _. h)
      (λ _.
        then_step-IsOpen (when (at_least early c') (set_state active) c')
          (λ d. when (not d.got_early) on_remote_sdp d)
          (when-IsOpen (at_least early c') (set_state active) c' h (active-IsOpen c'))
          (λ d k. when-IsOpen (not d.got_early) on_remote_sdp d k (sdp-IsOpen d k)))

media-IsOpen : (c : RtcCall) → IsOpen c → IsOpen (Webrtc.handle_message Webrtc.media c).call
unfolding Webrtc.handle_message
media-IsOpen c h =
    if-both (λ x. IsOpen x.call) (at_least early c) (done c [])
      (on_remote_sdp (record c { got_early = true })) (λ _. h)
      (λ _. sdp-IsOpen (record c { got_early = true }) h)

pub call_step-IsOpen : (m : Method) (c : RtcCall) → IsOpen c → IsOpen (call_step m c).call
unfolding call_step Webrtc.handle_message
call_step-IsOpen Method.answer c h = answered-IsOpen c h
call_step-IsOpen Method.media c h = media-IsOpen c h
call_step-IsOpen (Method.media_params kinds) c h = constraints-IsOpen kinds c h
call_step-IsOpen (Method.bye cause code) c h = hang_up-IsOpen cause code c
call_step-IsOpen Method.attach c h = h
call_step-IsOpen Method.info c h = h
call_step-IsOpen Method.display c h = h
call_step-IsOpen Method.event c h = h
call_step-IsOpen Method.invite c h = h
call_step-IsOpen Method.webrtc_event c h = h
call_step-IsOpen Method.punt c h = h
call_step-IsOpen Method.client_ready c h = h
call_step-IsOpen (Method.other name) c h = h
