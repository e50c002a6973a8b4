-- ===== src/Webrtc/Life.antt =====
-- A call's life goes forward, and ends with nothing left of it.
use signalwire_node.Common.{
  ◌≤◌, ◌≡◌, ◌≢◌, refl, Bool, true, false, Option, none, List, [], ◌∷◌, String, arith, Option-cases,
  not, inl, inr, if-both, if◌then◌else◌, ◌∷◌,
}
use signalwire_node.Webrtc.{
  constrain_each, apply_media_constraints, when, then_step, at_least, before, done, new, requesting,
  trying, recovering, ringing, answering, early, held, hangup, State, state_number, active, destroy,
  purge, RtcCall, Step, Message, bye, answered, media, display, attached, info, event, media_params,
  hang_up, set_state, handle_message, on_remote_sdp, remote_sdp_set, set_remote_description, Effect,
}

-- The call is over: its peer is closed and the session has forgotten it.
pub record IsGone (s : Step) : Type 0 where
  pub destroyed : s.call.state ≡ destroy
  pub no_peer : s.call.peer ≡ none
  pub forgotten : s.call.registered ≡ false
  pub returned : s.thrown ≡ false

-- In whatever state a call is, a Bye of the server ends it: it is destroyed, has no peer, and the
-- session has forgotten it.
pub handle_message-IsGone :
    (cause code : Option String) (c : RtcCall) → IsGone (handle_message (bye cause code) c)
unfolding handle_message hang_up
handle_message-IsGone cause code c = record {
  destroyed = refl;
  no_peer = refl;
  forgotten = refl;
  returned = refl;
}

-- A purge ends a call in whatever state it is, with the cause PURGE: it is destroyed, has no peer,
-- and the session has forgotten it.
pub set_state-IsGone :
    (c : RtcCall) → IsGone (set_state purge c) × ((set_state purge c).call.cause ≡ "PURGE")
unfolding set_state hang_up
set_state-IsGone c =
    (record { destroyed = refl; no_peer = refl; forgotten = refl; returned = refl }, refl)

abbrev IsForward : RtcCall → Step → Type 0
IsForward c s = state_number c.state ≤ state_number s.call.state

below_purge : (s : State) → s ≢ purge → state_number s ≤ 10
below_purge purge h = absurd (h refl)
below_purge new h = omega arith
below_purge requesting h = omega arith
below_purge trying h = omega arith
below_purge recovering h = omega arith
below_purge ringing h = omega arith
below_purge answering h = omega arith
below_purge early h = omega arith
below_purge active h = omega arith
below_purge held h = omega arith
below_purge hangup h = omega arith
below_purge destroy h = omega arith

sdp-IsForward : (c : RtcCall) → IsForward c (on_remote_sdp c)
unfolding on_remote_sdp
sdp-IsForward c = elim (Option-cases c.peer) [
  | inl e ↦ rw e (omega arith)
  | inr (p, e) ↦ rw e (omega arith)
]

constraints-IsForward :
    (kinds : List String) (c : RtcCall) → IsForward c (apply_media_constraints kinds c)
unfolding apply_media_constraints
constraints-IsForward [] c = omega arith
constraints-IsForward (k ∷ ks) c = elim (Option-cases c.peer) [
  | inl e ↦ rw e (omega arith)
  | inr (p, e) ↦ rw e (omega arith)
]

when-IsForward :
    (b : Bool) (f : RtcCall → Step) (c : RtcCall)
    → (b ≡ true → IsForward c (f c))
    → IsForward c (when b f c)
when-IsForward true f c h = h refl
when-IsForward false f c h = omega arith

then_step-IsForward :
    (c : RtcCall) (s : Step) (f : RtcCall → Step)
    → IsForward c s
    → ((d : RtcCall) → IsForward d (f d))
    → IsForward c (then_step s f)
then_step-IsForward c s f h g =
    if-both (IsForward c) s.thrown s (before s.effects (f s.call)) (λ t. h)
      (λ n. omega (arith, h, g s.call))

activate-IsForward : (c : RtcCall) → at_least active c ≡ false → IsForward c (set_state active c)
unfolding set_state
activate-IsForward c h = ground arith

received-forward :
    (m : Message) (c : RtcCall)
    → c.state ≢ purge
    → state_number c.state ≤ state_number (handle_message m c).call.state
unfolding handle_message hang_up
received-forward answered c h =
    let c' : RtcCall = record c { got_answer = true } in
    if-both (IsForward c) (at_least active c') (done c' []) _ (λ late. omega arith)
      (λ soon.
        then_step-IsForward c (when (at_least early c') (set_state active) c')
          (λ d. when (not d.got_early) on_remote_sdp d)
          (when-IsForward (at_least early c') (set_state active) c'
            (λ up. activate-IsForward c' soon))
          (λ d. when-IsForward (not d.got_early) on_remote_sdp d (λ n. sdp-IsForward d)))
received-forward media c h =
    if-both (IsForward c) (at_least early c) (done c []) _ (λ late. omega arith)
      (λ soon. sdp-IsForward (record c { got_early = true }))
received-forward display c h = omega arith
received-forward attached c h = omega arith
received-forward info c h = omega arith
received-forward event c h = omega arith
received-forward (media_params kinds) c h = constraints-IsForward kinds c
received-forward (bye cause code) c h = below_purge c.state h

-- Whether the step sets a description of the server.
abbrev pub asks_sdp : List Effect → Bool
asks_sdp [] = false
asks_sdp (set_remote_description ∷ es) = true
asks_sdp (e ∷ es) = asks_sdp es

-- The message, and what its own promise does, before anything else happens to the call.
abbrev pub with_promise : Step → Step
with_promise s = if asks_sdp s.effects then then_step s remote_sdp_set else s

answered-delivered : (c : RtcCall) → IsForward c (with_promise (handle_message answered c))
unfolding handle_message on_remote_sdp remote_sdp_set set_state
answered-delivered c = ground arith

media-delivered : (c : RtcCall) → IsForward c (with_promise (handle_message media c))
unfolding handle_message on_remote_sdp remote_sdp_set set_state
media-delivered c = ground arith

constrain_each-asks : (kinds : List String) → asks_sdp (constrain_each kinds) ≡ false
constrain_each-asks [] = refl
constrain_each-asks (k ∷ ks) = constrain_each-asks ks

constraints-delivered :
    (kinds : List String) (c : RtcCall)
    → IsForward c (with_promise (apply_media_constraints kinds c))
unfolding apply_media_constraints
constraints-delivered [] c = omega arith
constraints-delivered (k ∷ ks) c = elim (Option-cases c.peer) [
  | inl e ↦ rw e (omega arith)
  | inr (p, e) ↦ rw (e, constrain_each-asks ks) (omega arith)
]

delivered-IsForward :
    (m : Message) (c : RtcCall) → c.state ≢ purge → IsForward c (with_promise (handle_message m c))
unfolding handle_message hang_up
delivered-IsForward answered c h = answered-delivered c
delivered-IsForward media c h = media-delivered c
delivered-IsForward display c h = omega arith
delivered-IsForward attached c h = omega arith
delivered-IsForward info c h = omega arith
delivered-IsForward event c h = omega arith
delivered-IsForward (media_params kinds) c h = constraints-delivered kinds c
delivered-IsForward (bye cause code) c h = ground (arith, below_purge c.state h)

-- A message of the server does not take a call back to an earlier state, neither at once nor when the
-- description that it has may be set before anything else happens to the call, if the call is not in
-- the passing state `purge`.
pub handle_message-forward :
    (m : Message) (c : RtcCall)
    → c.state ≢ purge
    → (state_number c.state ≤ state_number (handle_message m c).call.state)
      × (state_number c.state ≤ state_number (with_promise (handle_message m c)).call.state)
handle_message-forward m c h = (received-forward m c h, delivered-IsForward m c h)
