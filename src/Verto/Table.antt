-- ===== src/Verto/Table.antt =====
-- The table of calls never holds a call that has been destroyed.
use mathlib.Core.Option.{some-injective}
use signalwire_node.Common.{
  ◌||◌, ◌≡◌, refl, subst, Bool, true, false, Option, none, some, [], ◌∷◌, String, arith, ◌==◌,
  if◌then◌else◌, if-both, Bool-cases, Option-cases, inl, inr,
}
use signalwire_node.Common.Dict.{
  Dict, lookup, insert, delete, Values, insert-Values, delete-Values, lookup-Values,
}
use signalwire_node.Webrtc.{RtcCall, Step, new, ringing, recovering, set_state, hang_up, then_step}
use signalwire_node.Browser as Browser
use signalwire_node.Browser.{relay_key, Browser, put_call, subscribed_to}
use signalwire_node.Verto.{
  triggered, to_call, Method, VertoMessage, Ran, ran, then_ran, run_step, call_step, handle_event,
  handle_session_event, by_method, handle_message, known_call, new_call, answer_call, ack, notify,
  is_attach, or_fresh, first_part,
}
use signalwire_node.Verto.Open.{
  IsOpen, IsLive, AllLive, then_step-IsOpen, hang_up-IsOpen, call_step-IsOpen,
}

put_call-AllLive :
    (id : String) (c : RtcCall) (calls : Dict RtcCall)
    → IsOpen c
    → Values IsLive calls
    → Values IsLive (put_call id c calls)
put_call-AllLive id c calls h k =
    if-both (Values IsLive) c.registered (insert id c calls) (delete id calls)
      (λ r. insert-Values IsLive id c calls (r, h r) k) (λ _. delete-Values IsLive id calls k)

run_step-AllLive :
    (id : String) (s : Step) (b : Browser)
    → IsOpen s.call
    → AllLive b
    → AllLive (run_step id s b).browser
unfolding run_step
run_step-AllLive id s b h k = put_call-AllLive id s.call b.calls h k

then_ran-AllLive :
    (r : Ran) (f : Browser → Ran)
    → AllLive r.browser
    → ((b : Browser) → AllLive b → AllLive (f b).browser)
    → AllLive (then_ran r f).browser
then_ran-AllLive r f h k = elim (Bool-cases r.thrown) [
  | inl e ↦ rw e h
  | inr e ↦ rw e (k r.browser h)
]

-- Both branches leave the table in order.
either-AllLive :
    (t : Bool) (r s : Ran)
    → AllLive r.browser
    → AllLive s.browser
    → AllLive (if t then r else s).browser
either-AllLive true r s h k = h
either-AllLive false r s h k = k

handle_session_event-AllLive :
    (t : String) (b : Browser) → AllLive b → AllLive (handle_session_event t b).browser
unfolding handle_session_event
handle_session_event-AllLive t b h =
    either-AllLive (((t == "layout-info") || (t == "layer-info")) || (t == "logo-info")) (notify b)
      (ran b []) h h

to_call-AllLive :
    (msg : VertoMessage) (channel : String) (b : Browser)
    → AllLive b
    → AllLive (to_call msg channel b).browser
unfolding to_call
to_call-AllLive msg channel b h = elim (Option-cases (lookup channel b.calls)) [
  | inl e ↦ rw (e, to_call) h
  | inr (c, e) ↦
      rw (e, to_call)
        (run_step-AllLive channel (call_step msg.method c) b
          (call_step-IsOpen msg.method c (λ r. (lookup-Values IsLive channel b.calls e h).1)) h)
]

handle_event-AllLive :
    (msg : VertoMessage) (channel : String) (b : Browser)
    → AllLive b
    → AllLive (handle_event msg channel b).browser
unfolding handle_event
handle_event-AllLive msg channel b h =
    let part = first_part channel in
    let to_part = ran b (triggered (relay_key b) part ∷ []) in
    let known = if subscribed_to part b then to_part else to_call msg channel b in
    let own = if channel == b.session_id then handle_session_event msg.content_type b else known in
    let to_channel = ran b (triggered (relay_key b) channel ∷ []) in
    either-AllLive (channel == "") (ran b []) (if subscribed_to channel b then to_channel else own)
      h
      (either-AllLive (subscribed_to channel b) to_channel own h (
        either-AllLive (channel == b.session_id) (handle_session_event msg.content_type b) known
          (handle_session_event-AllLive msg.content_type b h)
          (either-AllLive (subscribed_to part b) to_part (to_call msg channel b) h
            (to_call-AllLive msg channel b h))))

new-IsOpen : (t : Bool) (target : Option String) → IsOpen (set_state new (new_call t target)).call
unfolding set_state new_call
new-IsOpen t target r e = ground arith

answer_call-IsOpen : (c : RtcCall) → IsOpen c → IsOpen (answer_call c).call
unfolding answer_call
answer_call-IsOpen c h = h

recovering-IsOpen : (c : RtcCall) → IsOpen (set_state recovering c).call
unfolding set_state
recovering-IsOpen c r e = ground arith

ringing-IsOpen : (c : RtcCall) → IsOpen (set_state ringing c).call
unfolding set_state
ringing-IsOpen c r e = ground arith

begin-IsOpen :
    (t : Bool) (c : RtcCall)
    → IsOpen c
    → IsOpen ((if t then answer_call else set_state recovering) c).call
begin-IsOpen true c h = answer_call-IsOpen c h
begin-IsOpen false c h = recovering-IsOpen c

made_call : Method → Bool → Option String → Step
made_call m recover target =
    then_step
      (then_step (set_state new (new_call true target))
        (if recover then answer_call else set_state recovering))
      (call_step m)

made_call-IsOpen :
    (m : Method) (recover : Bool) (target : Option String)
    → IsOpen (made_call m recover target).call
unfolding made_call
made_call-IsOpen m recover target =
    let begin = if recover then answer_call else set_state recovering in
    then_step-IsOpen (then_step (set_state new (new_call true target)) begin) (call_step m)
      (then_step-IsOpen (set_state new (new_call true target)) begin (new-IsOpen true target)
        (begin-IsOpen recover))
      (call_step-IsOpen m)

by_method-AllLive :
    (msg : VertoMessage) (m : Method)
    → msg.method ≡ m
    → (fresh : String) (b : Browser) → AllLive b
    → AllLive (by_method msg fresh b).browser
unfolding by_method made_call Browser.disconnect
by_method-AllLive msg Method.punt e fresh b h = rw e tt
by_method-AllLive msg Method.invite e fresh b h = rw e (
    let id = or_fresh fresh msg.call_id in
    let s = then_step (set_state new (new_call false b.node_id)) (set_state ringing) in
    then_ran-AllLive (run_step id s b) (ack msg)
      (run_step-AllLive id s b
        (then_step-IsOpen (set_state new (new_call false b.node_id)) (set_state ringing)
          (new-IsOpen false b.node_id) (λ c k. ringing-IsOpen c))
        h)
      (λ b' k. k))
by_method-AllLive msg Method.attach e fresh b h = rw e (
    run_step-AllLive (or_fresh fresh msg.call_id)
      (made_call Method.attach b.auto_recover_calls b.node_id) b
      (made_call-IsOpen Method.attach b.auto_recover_calls b.node_id) h)
by_method-AllLive msg Method.event e fresh b h =
    rw e (handle_event-AllLive (record msg { method = Method.event }) _ b h)
by_method-AllLive msg Method.webrtc_event e fresh b h =
    rw e (handle_event-AllLive (record msg { method = Method.webrtc_event }) _ b h)
by_method-AllLive msg Method.info e fresh b h = rw e h
by_method-AllLive msg Method.client_ready e fresh b h = rw e h
by_method-AllLive msg Method.answer e fresh b h = rw e h
by_method-AllLive msg Method.display e fresh b h = rw e h
by_method-AllLive msg Method.media e fresh b h = rw e h
by_method-AllLive msg (Method.media_params kinds) e fresh b h = rw e h
by_method-AllLive msg (Method.bye cause code) e fresh b h = rw e h
by_method-AllLive msg (Method.other name) e fresh b h = rw e h

known_id-IsOpen :
    (id : String) (o : Option RtcCall) (b : Browser) {known : String × RtcCall}
    → lookup id b.calls ≡ o
    → (elim o [ none ↦ none | some c ↦ some (id, c) ]) ≡ some known
    → AllLive b
    → IsOpen known.1
known_id-IsOpen id none b e f h = absurd (ground (arith, f))
known_id-IsOpen id (some c) b e f h =
    subst (λ k. IsOpen k.1) (some-injective _ _ f) (λ r. (lookup-Values IsLive id b.calls e h).1)

known_call-IsOpen :
    (o : Option String) (b : Browser) {known : String × RtcCall}
    → known_call o b ≡ some known
    → AllLive b
    → IsOpen known.1
unfolding known_call
known_call-IsOpen none b e h = absurd (ground (arith, e))
known_call-IsOpen (some i) b e h = elim (Bool-cases (i == "")) [
  | inl f ↦ absurd (ground (arith, rw f at e))
  | inr f ↦ known_id-IsOpen i (lookup i b.calls) b refl (rw f at e) h
]

-- If every call in the table has the session's registration and has not been destroyed, that is so
-- after a Verto message: a call that it destroys is in the table no longer.
pub handle_message-AllLive :
    (msg : VertoMessage) (fresh : String) (b : Browser)
    → AllLive b
    → AllLive (handle_message msg fresh b).browser
unfolding handle_message
handle_message-AllLive msg fresh b h = elim (Option-cases (known_call msg.call_id b)) [
  | inl e ↦ rw (e, handle_message) (by_method-AllLive msg msg.method refl fresh b h)
  | inr (known, e) ↦
      let id = known.0 in
      let c = known.1 in
      let gone = run_step id (hang_up none none false c) b in
      let moved = run_step id (call_step msg.method c) b in
      rw (e, handle_message)
        (either-AllLive (is_attach msg.method) (then_ran gone (by_method msg fresh))
          (then_ran moved (ack msg))
          (then_ran-AllLive gone (by_method msg fresh)
            (run_step-AllLive id (hang_up none none false c) b (hang_up-IsOpen none none c) h)
            (by_method-AllLive msg msg.method refl fresh))
          (then_ran-AllLive moved (ack msg)
            (run_step-AllLive id (call_step msg.method c) b
              (call_step-IsOpen msg.method c (known_call-IsOpen msg.call_id b e h)) h)
            (λ b' k. k)))
]
