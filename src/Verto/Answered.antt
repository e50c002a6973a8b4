-- ===== src/Verto/Answered.antt =====
-- A message for a call that the session knows.
use signalwire_node.Common.{
  ◌≡◌, ◌≢◌, refl, ap, sym, ◌∙◌, subst, Bool, true, false, Option, none, some, List, [], ◌∷◌, ◌++◌,
  String, ◌==◌, eq_refl, eq-false, if◌then◌else◌, if-true, Bool-cases, inl, inr,
}
use signalwire_node.Common.Dict.{Dict, lookup, insert, delete, lookup-insert, lookup-delete}
use signalwire_node.Webrtc as Webrtc
use signalwire_node.Webrtc.{RtcCall, Step, hang_up, set_state, new, recovering}
use signalwire_node.Webrtc.Life.{IsGone, handle_message-IsGone}
use signalwire_node.Browser.{Browser, put_call}
use signalwire_node.Verto.{
  Method, VertoMessage, Output, acked, of_call, Ran, then_ran, run_step, call_step, by_method,
  handle_message, known_call, ack, is_attach, new_call, answer_call,
}

-- What the table says of an id after a call of this id has taken a step.
abbrev pub listed_call : RtcCall → Option RtcCall
listed_call c = if c.registered then some c else none

lookup-either :
    (t : Bool) (id j : String) (c : RtcCall) (calls : Dict RtcCall)
    → lookup j (if t then insert id c calls else delete id calls)
      ≡ (if id == j then (if t then some c else none) else lookup j calls)
lookup-either true id j c calls = lookup-insert id j c calls
lookup-either false id j c calls = lookup-delete id j calls

lookup-put_call :
    (id j : String) (c : RtcCall) (calls : Dict RtcCall)
    → lookup j (put_call id c calls) ≡ (if id == j then listed_call c else lookup j calls)
lookup-put_call id j c calls = lookup-either c.registered id j c calls

known_call-there :
    (id : String) (c : RtcCall) (b : Browser)
    → id ≢ ""
    → lookup id b.calls ≡ some c
    → known_call (some id) b ≡ some (id, c)
unfolding known_call
known_call-there id c b n h = rw (eq-false id "" n, h, known_call) refl

-- What goes out for a message to a known call.
abbrev pub replies : VertoMessage → String → Step → List Output
replies msg id step =
    of_call id step.effects ∷ (if step.thrown then [] else acked msg.id msg.method ∷ [])

moved : VertoMessage → String → Step → Browser → Ran
moved msg id step b = then_ran (run_step id step b) (ack msg)

handle_message-moved :
    (msg : VertoMessage) (fresh id : String) (c : RtcCall) (b : Browser)
    → known_call msg.call_id b ≡ some (id, c)
    → is_attach msg.method ≡ false
    → handle_message msg fresh b ≡ moved msg id (call_step msg.method c) b
unfolding handle_message moved
handle_message-moved msg fresh id c b h a = rw (h, handle_message, a) refl

moved-result :
    (msg : VertoMessage) (id : String) (step : Step) (b : Browser)
    → ((moved msg id step b).outputs ≡ replies msg id step)
      × ((moved msg id step b).thrown ≡ step.thrown)
      × ((moved msg id step b).browser.calls ≡ put_call id step.call b.calls)
unfolding moved run_step
moved-result msg id step b = elim (Bool-cases step.thrown) [
  | inl e ↦ rw e (refl, refl, refl)
  | inr e ↦ rw e (refl, refl, refl)
]

-- A Bye also ends the call that shares the screen.
abbrev pub is_bye : Method → Bool
is_bye (Method.bye cause code) = true
is_bye m = false

handle_message-own :
    (msg : VertoMessage) (fresh id : String) (c : RtcCall) (b : Browser)
    → msg.call_id ≡ some id
    → id ≢ ""
    → lookup id b.calls ≡ some c
    → is_attach msg.method ≡ false
    → ((handle_message msg fresh b).outputs ≡ replies msg id (call_step msg.method c))
      × ((handle_message msg fresh b).thrown ≡ (call_step msg.method c).thrown)
      × ((j : String)
          → lookup j (handle_message msg fresh b).browser.calls
            ≡ (if id == j then listed_call (call_step msg.method c).call else lookup j b.calls))
handle_message-own msg fresh id c b m n h a =
    let k : known_call msg.call_id b ≡ some (id, c) =
      ap (λ o. known_call o b) m ∙ known_call-there id c b n h in
    let e = handle_message-moved msg fresh id c b k a in
    let (outputs, thrown, calls) = moved-result msg id (call_step msg.method c) b in
    (
      ap (λ r. r.outputs) e ∙ outputs,
      ap (λ r. r.thrown) e ∙ thrown,
      λ j.
          ap (λ r. lookup j r.browser.calls) e
          ∙ ap (lookup j) calls
          ∙ lookup-put_call id j (call_step msg.method c).call b.calls,
    )

-- A message for a call that the session knows, other than an attach, a Bye and the private events of a
-- conference, is handled by this call alone: what the call does goes out and is acknowledged once, unless
-- the call throws, and no other call of the table changes.
pub handle_message-known :
    (msg : VertoMessage) (fresh id : String) (c : RtcCall) (b : Browser)
    → msg.call_id ≡ some id
    → id ≢ ""
    → lookup id b.calls ≡ some c
    → is_attach msg.method ≡ false
    → is_bye msg.method ≡ false
    → ((handle_message msg fresh b).outputs ≡ replies msg id (call_step msg.method c))
      × ((handle_message msg fresh b).thrown ≡ (call_step msg.method c).thrown)
      × ((j : String)
          → lookup j (handle_message msg fresh b).browser.calls
            ≡ (if id == j then listed_call (call_step msg.method c).call else lookup j b.calls))
handle_message-known msg fresh id c b m n h a y = handle_message-own msg fresh id c b m n h a

call_step-bye :
    (cause code : Option String) (c : RtcCall)
    → call_step (Method.bye cause code) c ≡ Webrtc.handle_message (Webrtc.bye cause code) c
unfolding call_step
call_step-bye cause code c = refl

bye-IsGone :
    (method : Method) (cause code : Option String) (c : RtcCall)
    → method ≡ Method.bye cause code
    → IsGone (call_step method c)
bye-IsGone method cause code c e =
    subst IsGone (sym (ap (λ m. call_step m c) e ∙ call_step-bye cause code c))
      (handle_message-IsGone cause code c)

-- A Bye for a call that the session knows is acknowledged, and the call is in the table no longer.
pub handle_message-bye :
    (msg : VertoMessage) (fresh id : String) (cause code : Option String) (c : RtcCall)
    (b : Browser)
    → msg.method ≡ Method.bye cause code
    → msg.call_id ≡ some id
    → id ≢ ""
    → lookup id b.calls ≡ some c
    → (lookup id (handle_message msg fresh b).browser.calls ≡ none)
      × ((handle_message msg fresh b).thrown ≡ false)
      × ((handle_message msg fresh b).outputs
          ≡ of_call id (call_step msg.method c).effects ∷ acked msg.id msg.method ∷ [])
handle_message-bye msg fresh id cause code c b t m n h =
    let gone = bye-IsGone msg.method cause code c t in
    let (outputs, thrown, calls) = handle_message-own msg fresh id c b m n h (ap is_attach t) in
    (
      calls id ∙ rw (eq_refl id, gone.forgotten) refl,
      thrown ∙ gone.returned,
      outputs ∙ rw gone.returned refl,
    )

-- The call that is made for an attach.
abbrev pub attached_call : Bool → Option String → Step
attached_call recover target =
    Webrtc.then_step
      (Webrtc.then_step (set_state new (new_call true target))
        (if recover then answer_call else set_state recovering))
      (call_step Method.attach)

-- It is answered, or waits to be recovered.
attached_call-begun :
    (recover : Bool) (target : Option String)
    → ((attached_call recover target).call.registered ≡ true)
      × ((attached_call recover target).call.attach ≡ true)
      × ((attached_call recover target).call.state ≡ (if recover then new else recovering))
unfolding set_state new_call answer_call call_step Webrtc.handle_message
attached_call-begun true target = (refl, refl, refl)
attached_call-begun false target = (refl, refl, refl)

by_method-attach :
    (msg : VertoMessage) (fresh id : String) (b : Browser)
    → msg.method ≡ Method.attach
    → msg.call_id ≡ some id
    → id ≢ ""
    → by_method msg fresh b ≡ run_step id (attached_call b.auto_recover_calls b.node_id) b
unfolding by_method
by_method-attach msg fresh id b t m n = rw (t, by_method, m, eq-false id "" n) refl

then_ran-same :
    (r : Ran) (f g : Browser → Ran) → f r.browser ≡ g r.browser → then_ran r f ≡ then_ran r g
then_ran-same r f g h =
    ap (λ s. if r.thrown then r else record s { outputs = r.outputs ++ s.outputs }) h

handle_message-replaced :
    (msg : VertoMessage) (fresh id : String) (c : RtcCall) (b : Browser)
    → is_attach msg.method ≡ true
    → known_call msg.call_id b ≡ some (id, c)
    → handle_message msg fresh b
      ≡ then_ran (run_step id (hang_up none none false c) b) (by_method msg fresh)
unfolding handle_message
handle_message-replaced msg fresh id c b a k = rw (k, handle_message, a) refl

hung_up : String → RtcCall → Browser → Ran
hung_up id c b = run_step id (hang_up none none false c) b

hung_up-result :
    (id : String) (c : RtcCall) (b : Browser)
    → ((hung_up id c b).thrown ≡ false)
      × ((hung_up id c b).browser.calls ≡ delete id b.calls)
      × ((hung_up id c b).browser.auto_recover_calls ≡ b.auto_recover_calls)
unfolding hung_up run_step hang_up
hung_up-result id c b = (refl, refl, refl)

then_ran-calls :
    (r : Ran) (f : Browser → Ran)
    → r.thrown ≡ false
    → (then_ran r f).browser.calls ≡ (f r.browser).browser.calls
then_ran-calls r f h = rw h refl

run_step-calls :
    (id : String) (step : Step) (b : Browser)
    → (run_step id step b).browser.calls ≡ put_call id step.call b.calls
unfolding run_step
run_step-calls id step b = refl

attached-calls :
    (msg : VertoMessage) (fresh id : String) (c : RtcCall) (b : Browser)
    → msg.method ≡ Method.attach
    → msg.call_id ≡ some id
    → id ≢ ""
    → lookup id b.calls ≡ some c
    → (handle_message msg fresh b).browser.calls
      ≡ put_call id (attached_call b.auto_recover_calls b.node_id).call (delete id b.calls)
unfolding hung_up run_step
attached-calls msg fresh id c b t m n h =
    let k : known_call msg.call_id b ≡ some (id, c) =
      ap (λ o. known_call o b) m ∙ known_call-there id c b n h in
    let r = hung_up id c b in
    let (thrown, calls, recover) = hung_up-result id c b in
    ap (λ x. x.browser.calls) (handle_message-replaced msg fresh id c b (ap is_attach t) k)
    ∙ then_ran-calls r (by_method msg fresh) thrown
    ∙ ap (λ x. x.browser.calls) (by_method-attach msg fresh id r.browser t m n)
    ∙ run_step-calls id (attached_call r.browser.auto_recover_calls r.browser.node_id) r.browser
    ∙ ap (λ x. put_call id (attached_call r.browser.auto_recover_calls r.browser.node_id).call x)
        calls
    ∙ ap (λ x. put_call id (attached_call x b.node_id).call (delete id b.calls)) recover

-- An attach for a call that the session knows puts a new call in its place, marked as attached: in
-- the state new, to be answered, if the session recovers calls by itself, and in the state recovering
-- otherwise. No other call of the table changes.
handle_message-attach :
    (msg : VertoMessage) (fresh id : String) (c : RtcCall) (b : Browser)
    → msg.method ≡ Method.attach
    → msg.call_id ≡ some id
    → id ≢ ""
    → lookup id b.calls ≡ some c
    → ((after : RtcCall) × (lookup id (handle_message msg fresh b).browser.calls ≡ some after)
        × (after.attach ≡ true)
        × (after.state ≡ (if b.auto_recover_calls then new else recovering)))
      × ((j : String)
          → (id == j) ≡ false
          → lookup j (handle_message msg fresh b).browser.calls ≡ lookup j b.calls)
handle_message-attach msg fresh id c b t m n h =
    let e = attached-calls msg fresh id c b t m n h in
    let made = (attached_call b.auto_recover_calls b.node_id).call in
    let (registered, attach, state) = attached_call-begun b.auto_recover_calls b.node_id in
    (
      (
        made,
        ap (lookup id) e
            ∙ lookup-put_call id id made (delete id b.calls)
            ∙ rw (eq_refl id) (if-true (some made) none registered),
        attach,
        state,
      ),
      λ j d.
          ap (lookup j) e
          ∙ lookup-put_call id j made (delete id b.calls)
          ∙ rw d (lookup-delete id j b.calls ∙ rw d refl),
    )
