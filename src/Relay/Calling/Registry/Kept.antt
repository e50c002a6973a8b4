-- ===== src/Relay/Calling/Registry/Kept.antt =====
-- What a notification keeps of a call: its object, and that it has not ended unless it is removed.
use signalwire_node.Common.{
  ◌≡◌, refl, sym, ◌∙◌, false, Option, none, some, arith, ◌==◌, eq_iff, Bool-cases, inl, inr,
}
use signalwire_node.Relay.Constants.{CallState, call_state_text}
use signalwire_node.Relay.Calling.Params.{
  Params, StateParams, DialParams, DialedCall, ConnectParams,
}
use signalwire_node.Relay.Calling.Call.{Call, notify_components, terminate_components}
use signalwire_node.Relay.Calling.Call.Changes.{
  Changed, change, state_change, dial_change, connect_change, record_change, play_change,
  collect_change, fax_change, detect_change, tap_change, send_digits_change, refer_change,
  enter_state, adopt, connect_peer,
}
use signalwire_node.Relay.Calling.Registry.Objects.{IsLive}

-- What a change keeps of a call.
adopt-ref :
    (d : Option DialedCall) (c : Call) → ((adopt d c).ref ≡ c.ref) × ((adopt d c).state ≡ c.state)
unfolding adopt
adopt-ref none c = (refl, refl)
adopt-ref (some d) c = (refl, refl)

connect_peer-ref :
    (p : ConnectParams) (c : Call)
    → ((connect_peer p c).ref ≡ c.ref) × ((connect_peer p c).state ≡ c.state)
unfolding connect_peer
connect_peer-ref p c = ground arith

-- Whether the call is removed, and what it is then, of a change that leaves it as it is.
pub record IsSound (r : Changed) (c : Call) : Type 0 where
  pub ref : r.call.ref ≡ c.ref
  pub live : r.removed ≡ false → IsLive r.call

state_change-IsSound : (p : StateParams) (c : Call) → IsSound (state_change p c) c
unfolding state_change enter_state notify_components terminate_components
state_change-IsSound p c = elim (Bool-cases (p.call_state == call_state_text CallState.ended)) [
  | inl over ↦ rw over (record { ref = refl; live = λ kept. ground arith })
  | inr goes_on ↦ rw goes_on (record {
    ref = refl;
    live = λ kept e. ground (arith, (eq_iff p.call_state (call_state_text CallState.ended)).1 e);
  })
]

dial_change-IsSound : (p : DialParams) (c : Call) → IsLive c → IsSound (dial_change p c) c
unfolding dial_change notify_components
dial_change-IsSound p c h = record {
  ref = ground (arith, adopt-ref p.call c);
  live = λ kept e. h (ground (arith, adopt-ref p.call c));
}

connect_change-IsSound : (p : ConnectParams) (c : Call) → IsLive c → IsSound (connect_change p c) c
unfolding connect_change notify_components
connect_change-IsSound p c h = record {
  ref = (connect_peer-ref p c).0;
  live = λ kept e. h (sym (connect_peer-ref p c).1 ∙ e);
}

pub change-IsSound : (p : Params) (c : Call) → IsLive c → IsSound (change p c) c
unfolding change record_change play_change collect_change fax_change detect_change tap_change
    send_digits_change refer_change notify_components
change-IsSound (Params.state p) c h = state_change-IsSound p c
change-IsSound (Params.dial p) c h = dial_change-IsSound p c h
change-IsSound (Params.connect p) c h = connect_change-IsSound p c h
change-IsSound (Params.recording p) c h = record { ref = refl; live = λ kept. h }
change-IsSound (Params.play p) c h = record { ref = refl; live = λ kept. h }
change-IsSound (Params.collect p) c h = record { ref = refl; live = λ kept. h }
change-IsSound (Params.fax p) c h = record { ref = refl; live = λ kept. h }
change-IsSound (Params.detect p) c h = record { ref = refl; live = λ kept. h }
change-IsSound (Params.tap p) c h = record { ref = refl; live = λ kept. h }
change-IsSound (Params.send_digits p) c h = record { ref = refl; live = λ kept. h }
change-IsSound (Params.refer p) c h = record { ref = refl; live = λ kept. h }
