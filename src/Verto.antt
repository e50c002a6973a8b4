-- ===== src/Verto.antt =====
-- packages/common/src/webrtc/VertoHandler.ts: what a Verto message of the server does to the session
-- and its calls, with the parts of webrtc/BaseCall.ts that make a call.
pub mod Open
pub mod Table
pub mod Answered
pub mod LiveArray
pub mod Conference
use Prim.Native.Char.{Char, code}
use signalwire_node.Common.{
  ℕ, Bool, true, false, not, ◌&&◌, ◌||◌, Option, none, some, List, [], ◌∷◌, ◌++◌, String, ◌==◌, eqb,
  if◌then◌else◌,
}
use signalwire_node.Common.Dict.{Dict, lookup, insert, delete, has}
use signalwire_node.Session.Subscriptions.{exists_subscription}
use signalwire_node.Webrtc as Webrtc
use signalwire_node.Webrtc.{
  RtcCall, Step, Effect, Message, new, ringing, recovering, updated, hang_up, set_state, then_step,
  done,
}
use signalwire_node.Browser as Browser
use signalwire_node.Browser.{Browser, relay_key, subscribed_to, put_call}

-- The methods that the source tells apart. The keys of `mediaParams` and the cause of a Bye stand
-- with the method that has them.
pub data Method : Type 0 where
  invite attach answer info display media event webrtc_event punt client_ready : Method
  media_params : List String → Method
  bye : Option String → Option String → Method
  other : String → Method

-- `content_type` is that of `eventData`.
pub record VertoMessage : Type 0 where
  pub id : ℕ
  pub method : Method
  pub call_id : Option String
  pub event_channel : Option String
  pub content_type : String

-- What a call makes of the message, in `handleMessage` of BaseCall.
abbrev pub call_message : Method → Option Message
call_message Method.attach = some Message.attached
call_message Method.answer = some Message.answered
call_message Method.info = some Message.info
call_message Method.display = some Message.display
call_message Method.media = some Message.media
call_message Method.event = some Message.event
call_message (Method.media_params kinds) = some (Message.media_params kinds)
call_message (Method.bye cause cause_code) = some (Message.bye cause cause_code)
call_message method = none

-- What goes out: the `Result` of `_ack`, what a call does, and the events that are triggered, with
-- their unique ids. What callbacks do is another module's.
pub data Output : Type 0 where
  acked : ℕ → Method → Output
  of_call : String → List Effect → Output
  triggered : String → String → Output
  purged : List (String × Step) → Output

pub record Ran : Type 0 where
  pub browser : Browser
  pub outputs : List Output
  pub thrown : Bool

abbrev pub ran : Browser → List Output → Ran
ran b outputs = record { browser = b; outputs = outputs; thrown = false }

abbrev pub then_ran : Ran → (Browser → Ran) → Ran
then_ran r f =
    if r.thrown then r else (let s = f r.browser in record s { outputs = r.outputs ++ s.outputs })

-- A step of the object of a call that has this id.
unfoldable pub run_step : String → Step → Browser → Ran
run_step id step b = record {
  browser = record b { calls = put_call id step.call b.calls };
  outputs = of_call id step.effects ∷ [];
  thrown = step.thrown;
}

-- `handleMessage` of BaseCall.
unfoldable pub call_step : Method → RtcCall → Step
unfolding Webrtc.handle_message
call_step method c = elim (call_message method) [
  | none ↦ done c []
  | some m ↦ Webrtc.handle_message m c
]

abbrev pub ack : VertoMessage → Browser → Ran
ack msg b = ran b (acked msg.id msg.method ∷ [])

abbrev pub notification : String
notification = "signalwire.notification"

abbrev pub notify : Browser → Ran
notify b = ran b (triggered notification b.uuid ∷ [])

-- A call that the server begins: the constructor of BaseCall with the options of `_buildCall`, up to
-- its first `setState`.
unfoldable pub new_call : Bool → Option String → RtcCall
new_call attaching node_id = record {
  state = new;
  prev_state = new;
  cause = "";
  cause_code = "";
  peer = none;
  got_answer = false;
  got_early = false;
  last_serno = 0;
  target_node_id = node_id;
  ice_timeout = false;
  ice_done = false;
  ice_restart_attempts = 0;
  auto_restart_ice_on_failure = false;
  max_ice_restart_attempts = 3;
  attach = attaching;
  registered = true;
  channels = [];
}

-- `answer` of BaseCall; the peer that it makes negotiates later.
unfoldable pub answer_call : RtcCall → Step
answer_call c =
    done
      (record c {
        peer = some (record { type = Webrtc.answer; negotiating = false; ready_twice = false });
        ice_done = false;
      })
      []

-- The text before the first dot.
unfoldable pub first_part : String → String
first_part String.[] = String.[]
first_part (String.◌∷◌ c s) = elim (eqb (code c) b'.') [
  | true ↦ String.[]
  | false ↦ String.◌∷◌ c (first_part s)
]

-- `_handleSessionEvent`, with `MCULayoutEventHandler`
unfoldable pub handle_session_event : String → Browser → Ran
handle_session_event content_type b =
    if (content_type == "layout-info")
      || (content_type == "layer-info")
      || (content_type == "logo-info")
    then notify b
    else ran b []

-- An event whose channel is the id of a call, or none that is known.
unfoldable pub to_call : VertoMessage → String → Browser → Ran
unfolding run_step call_step
to_call msg channel b = elim (lookup channel b.calls) [
  | none ↦ notify b
  | some c ↦ run_step channel (call_step msg.method c) b
]

-- Events, by their channel.
unfoldable pub handle_event : VertoMessage → String → Browser → Ran
unfolding exists_subscription first_part handle_session_event to_call
handle_event msg channel b =
    if channel == ""
    then ran b []
    else (if subscribed_to channel b
        then ran b (triggered (relay_key b) channel ∷ [])
        else (if channel == b.session_id
            then handle_session_event msg.content_type b
            else (if subscribed_to (first_part channel) b
                then ran b (triggered (relay_key b) (first_part channel) ∷ [])
                else to_call msg channel b)))

abbrev pub or_fresh : String → Option String → String
or_fresh fresh none = fresh
or_fresh fresh (some id) = if id == "" then fresh else id

-- The `switch` over the method; `fresh` is the identity that a call without one is given.
unfoldable pub by_method : VertoMessage → String → Browser → Ran
unfolding handle_event run_step set_state new_call answer_call call_step Browser.disconnect
by_method msg fresh b = elim msg.method [
  | Method.punt ↦ let (b', steps) = Browser.disconnect b in ran b' (purged steps ∷ [])
  | Method.invite ↦
      let id = or_fresh fresh msg.call_id in
      then_ran
        (run_step id (then_step (set_state new (new_call false b.node_id)) (set_state ringing)) b)
        (ack msg)
  | Method.attach ↦
      let id = or_fresh fresh msg.call_id in
      let made = set_state new (new_call true b.node_id) in
      let begin = if b.auto_recover_calls then answer_call else set_state recovering in
      run_step id (then_step (then_step made begin) (call_step Method.attach)) b
  | Method.event ↦ handle_event msg (elim msg.event_channel [ none ↦ "" | some c ↦ c ]) b
  | Method.webrtc_event ↦ handle_event msg (elim msg.event_channel [ none ↦ "" | some c ↦ c ]) b
  | Method.info ↦ notify b
  | Method.client_ready ↦ notify b
  | m ↦ ran b []
]

-- `callID && session.calls.hasOwnProperty(callID)`
unfoldable pub known_call : Option String → Browser → Option (String × RtcCall)
unfolding lookup
known_call none b = none
known_call (some id) b =
    if id == "" then none else (elim (lookup id b.calls) [ none ↦ none | some c ↦ some (id, c) ])

abbrev pub is_attach : Method → Bool
is_attach Method.attach = true
is_attach m = false

-- `handleMessage` of a message whose event type is not channelPvtData, which is LiveArray's. The call
-- of an Attach or a Bye shares no screen.
unfoldable pub handle_message : VertoMessage → String → Browser → Ran
unfolding by_method known_call run_step call_step hang_up
handle_message msg fresh b = elim (known_call msg.call_id b) [
  | none ↦ by_method msg fresh b
  | some (id, c) ↦
      if is_attach msg.method
      then then_ran (run_step id (hang_up none none false c) b) (by_method msg fresh)
      else then_ran (run_step id (call_step msg.method c) b) (ack msg)
]
