-- ===== src/Webrtc.antt =====
-- packages/common/src/webrtc/BaseCall.ts: the life of a WebRTC call. What it sends, and what it
-- asks of the RTCPeerConnection, are effects, in order; what their promises deliver later are
-- further functions. `thrown` marks a step that ends in a TypeError for want of a peer.
pub mod Life
pub mod Recovery
pub mod Exchange
pub mod Sdp
pub mod Devices
pub mod Negotiation
pub mod Requests
pub mod Streams
pub mod Options
use signalwire_node.Common.{
  ℕ, zero, suc, ◌+◌, Bool, true, false, not, ◌&&◌, ◌||◌, Option, none, some, List, [], ◌∷◌, ◌++◌,
  String, ◌==◌, ltb, leb, eqb, if◌then◌else◌,
}
use signalwire_node.Common.Json.{ℤ, pos, negsuc}

pub data State : Type 0 where
  new requesting trying recovering ringing answering early active held hangup destroy purge : State

-- The number of a state in the enum.
abbrev pub state_number : State → ℕ
state_number new = 0
state_number requesting = 1
state_number trying = 2
state_number recovering = 3
state_number ringing = 4
state_number answering = 5
state_number early = 6
state_number active = 7
state_number held = 8
state_number hangup = 9
state_number destroy = 10
state_number purge = 11

pub data PeerType : Type 0 where
  offer answer : PeerType

-- `ready_twice` says that the peer has an `onSdpReadyTwice`, `negotiating` is its `_negotiating`.
pub record Peer : Type 0 where
  pub type : PeerType
  pub negotiating : Bool
  pub ready_twice : Bool

pub record RtcCall : Type 0 where
  pub state : State
  pub prev_state : State
  pub cause : String
  pub cause_code : String
  pub peer : Option Peer
  pub got_answer : Bool
  pub got_early : Bool
  pub last_serno : ℕ
  pub target_node_id : Option String
  pub ice_timeout : Bool
  pub ice_done : Bool
  pub ice_restart_attempts : ℕ
  pub auto_restart_ice_on_failure : Bool
  pub max_ice_restart_attempts : ℕ
  pub attach : Bool
  pub registered : Bool
  pub channels : List String

pub data Effect : Type 0 where
  updated : State → Effect
  constrained : String → Effect
  sent_bye sent_invite sent_modify sent_answer sent_attach : Effect
  closed_peer set_remote_description restarted_ice started_negotiation notified reported : Effect

pub record Step : Type 0 where
  pub call : RtcCall
  pub effects : List Effect
  pub thrown : Bool

abbrev pub done : RtcCall → List Effect → Step
done c es = record { call = c; effects = es; thrown = false }

abbrev pub before : List Effect → Step → Step
before es s = record s { effects = es ++ s.effects }

-- The part of `setState` that every state shares.
abbrev pub enter : State → RtcCall → RtcCall
enter s c = record c { prev_state = c.state; state = s }

-- `_finalize`, as far as the call keeps it.
abbrev pub finalize : RtcCall → RtcCall
finalize c = record c { peer = none; registered = false }

abbrev has_peer : RtcCall → Bool
has_peer c = elim c.peer [ none ↦ false | some p ↦ true ]

-- `_close` of `hangup`
abbrev pub close : RtcCall → Step
close c =
    done (finalize (enter destroy c))
      ((if has_peer c then closed_peer ∷ [] else []) ++ updated destroy ∷ [])

abbrev or_default : Option String → String → String
or_default none d = d
or_default (some s) d = if s == "" then d else s

-- `hangup` of BaseCall, for a call that shares no screen (one that does hangs up the call of the
-- screen too, webrtc/Call.ts). The defaults stand for a cause that is not given. A cause code is its
-- text. With `execute` it closes when the server has answered.
unfoldable pub hang_up : Option String → Option String → Bool → RtcCall → Step
hang_up cause code execute c0 =
    let c = enter hangup (record c0 {
      cause = or_default cause "NORMAL_CLEARING";
      cause_code = or_default code "16";
    }) in
    if execute
    then done c (updated hangup ∷ sent_bye ∷ [])
    else before (updated hangup ∷ []) (close c)

-- The server has answered the Bye of `hangup`.
unfoldable pub bye_answered : RtcCall → Step
bye_answered c = close c

-- `setState`
unfoldable pub set_state : State → RtcCall → Step
unfolding hang_up
set_state purge c =
    before (updated purge ∷ []) (hang_up (some "PURGE") (some "01") false (enter purge c))
set_state destroy c = done (finalize (enter destroy c)) (updated destroy ∷ [])
set_state s c = done (enter s c) (updated s ∷ [])

-- `_onRemoteSdp` up to its promise.
unfoldable pub on_remote_sdp : RtcCall → Step
on_remote_sdp c = elim c.peer [
  | none ↦ record { call = c; effects = []; thrown = true }
  | some p ↦ done c (set_remote_description ∷ [])
]

abbrev pub then_step : Step → (RtcCall → Step) → Step
then_step s f = if s.thrown then s else before s.effects (f s.call)

abbrev pub when : Bool → (RtcCall → Step) → RtcCall → Step
when true f c = f c
when false f c = done c []

-- The promise of `_onRemoteSdp` delivers.
unfoldable pub remote_sdp_set : RtcCall → Step
unfolding set_state
remote_sdp_set c =
    then_step (when c.got_early (set_state early) c) (λ d. when d.got_answer (set_state active) d)

abbrev pub at_least : State → RtcCall → Bool
at_least s c = leb (state_number s) (state_number c.state)

pub data Message : Type 0 where
  answered media display attached info event : Message
  media_params : List String → Message
  bye : Option String → Option String → Message

abbrev constrain_each : List String → List Effect
constrain_each [] = []
constrain_each (k ∷ ks) = constrained k ∷ constrain_each ks

-- `applyMediaConstraints`: `kinds` are the keys of `mediaParams`.
unfoldable pub apply_media_constraints : List String → RtcCall → Step
apply_media_constraints [] c = done c []
apply_media_constraints (k ∷ ks) c = elim c.peer [
  | none ↦ record { call = c; effects = []; thrown = true }
  | some p ↦ done c (constrain_each (k ∷ ks))
]

-- `handleMessage`
unfoldable pub handle_message : Message → RtcCall → Step
unfolding set_state on_remote_sdp hang_up apply_media_constraints
handle_message answered c0 =
    let c = record c0 { got_answer = true } in
    if at_least active c
    then done c []
    else then_step (when (at_least early c) (set_state active) c)
        (λ d. when (not d.got_early) on_remote_sdp d)
handle_message media c =
    if at_least early c then done c [] else on_remote_sdp (record c { got_early = true })
handle_message display c = done c (notified ∷ [])
handle_message attached c = done c (notified ∷ [])
handle_message info c = done c (notified ∷ [])
handle_message event c = done c (notified ∷ [])
handle_message (media_params kinds) c = apply_media_constraints kinds c
handle_message (bye cause code) c = hang_up cause code false c

-- `_checkConferenceSerno`
abbrev is_negative : ℤ → Bool
is_negative (pos n) = false
is_negative (negsuc n) = true

unfoldable pub check_conference_serno : ℤ → RtcCall → Bool × RtcCall
check_conference_serno (negsuc n) c = (true, c)
check_conference_serno (pos n) c =
    if eqb c.last_serno 0 || eqb n (suc c.last_serno)
    then (true, record c { last_serno = n })
    else (false, c)
