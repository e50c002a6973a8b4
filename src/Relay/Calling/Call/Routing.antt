-- ===== src/Relay/Calling/Call/Routing.antt =====
-- Which components of a call a notification reaches.
use signalwire_node.Common.{
  not, ◌||◌, ℕ, ◌≡◌, ◌≢◌, refl, ◌∙◌, true, false, Option, none, some, List, [], ◌∷◌, map, zero, suc,
  String, arith, ◌==◌, if◌then◌else◌, ap, eq-false, get_elem?, Bool-cases, inl, inr, ap, suc,
}
use signalwire_node.Relay.Constants.{
  CallState, call_state_text, CallNotification, call_notification_text, DialState, dial_state_text,
}
use signalwire_node.Relay.Calling.Params.{Params, ConnectParams, DialParams, DialedCall}
use signalwire_node.Relay.Calling.Component.Handlers.{notification_handler}
use signalwire_node.Relay.Calling.Component.{Component, event_type, terminate}
use signalwire_node.Relay.Calling.Call.{
  Call, notify_one, notify_components, terminate_one, terminate_components, StateParams,
}
use signalwire_node.Relay.Calling.Call.Ending.{notify_one_completed}
use signalwire_node.Relay.Calling.Call.Changes.{
  state_change, dial_change, connect_change, record_change, play_change, collect_change, fax_change,
  detect_change, tap_change, send_digits_change, refer_change, change, enter_state, adopt,
  connect_peer,
}

-- The kind of event of a notification, and the control id that it is meant for.
abbrev pub told : Params → CallNotification
told (Params.state p) = CallNotification.state
told (Params.dial p) = CallNotification.dial
told (Params.connect p) = CallNotification.connect
told (Params.recording p) = CallNotification.recording
told (Params.play p) = CallNotification.play
told (Params.collect p) = CallNotification.collect
told (Params.fax p) = CallNotification.fax
told (Params.detect p) = CallNotification.detect
told (Params.tap p) = CallNotification.tap
told (Params.send_digits p) = CallNotification.send_digits
told (Params.refer p) = CallNotification.refer

abbrev pub address : Params → Call → String
address (Params.recording p) c = p.control_id
address (Params.play p) c = p.control_id
address (Params.collect p) c = p.control_id
address (Params.fax p) c = p.control_id
address (Params.detect p) c = p.control_id
address (Params.tap p) c = p.control_id
address (Params.send_digits p) c = p.control_id
address _ c = c.tag

-- The notification that ends a call also ends its components.
abbrev finish_by : Params → Component → Component
finish_by (Params.state p) k =
    if p.call_state == call_state_text CallState.ended then terminate_one p k else k
finish_by _ k = k

-- What a notification makes of one component.
abbrev reached_by : Params → Call → Component → Component
reached_by p c k = finish_by p (notify_one (told p) (address p c) p k)

map-ext :
    (f g : Component → Component)
    → ((k : Component) → f k ≡ g k)
    → (ks : List Component) → map f ks ≡ map g ks
map-ext f g h [] = refl
map-ext f g h (k ∷ ks) = rw (h k, map-ext f g h ks) refl

finish_over :
    (p : StateParams) (k : Component)
    → (p.call_state == call_state_text CallState.ended) ≡ true
    → terminate_one p k ≡ finish_by (Params.state p) k
finish_over p k h = rw h refl

finish_other :
    (p : StateParams) (k : Component)
    → (p.call_state == call_state_text CallState.ended) ≡ false
    → k ≡ finish_by (Params.state p) k
finish_other p k h = rw h refl

map-map :
    (f g : Component → Component) (ks : List Component) → map f (map g ks) ≡ map (λ k. f (g k)) ks
map-map f g [] = refl
map-map f g (k ∷ ks) = rw (map-map f g ks)

state_change-reached_by :
    (p : StateParams) (c : Call)
    → (state_change p c).call.components ≡ map (reached_by (Params.state p) c) c.components
unfolding state_change enter_state notify_components terminate_components
state_change-reached_by p c =
    let told_one : (Component → Component) =
      notify_one CallNotification.state c.tag (Params.state p) in
    elim (Bool-cases (p.call_state == call_state_text CallState.ended)) [
      | inl over ↦ rw over (
          map-map (terminate_one p) told_one c.components
          ∙ map-ext _ (reached_by (Params.state p) c) (λ k. finish_over p (told_one k) over)
              c.components)
      | inr goes_on ↦ rw goes_on (
          map-ext told_one (reached_by (Params.state p) c)
            (λ k. finish_other p (told_one k) goes_on) c.components)
    ]

adopt-components : (d : Option DialedCall) (c : Call) → (adopt d c).components ≡ c.components
unfolding adopt
adopt-components none c = refl
adopt-components (some d) c = refl

connect_peer-components :
    (p : ConnectParams) (c : Call) → (connect_peer p c).components ≡ c.components
unfolding connect_peer
connect_peer-components p c = ground arith

dial_change-reached_by :
    (p : DialParams) (c : Call)
    → (dial_change p c).call.components ≡ map (reached_by (Params.dial p) c) c.components
unfolding dial_change notify_components adopt
dial_change-reached_by p c =
    elim (Bool-cases (p.dial_state == dial_state_text DialState.answered)) [
      | inl met ↦ rw met (ap (map (reached_by (Params.dial p) c)) (adopt-components p.call c))
      | inr other ↦ rw other refl
    ]

connect_change-reached_by :
    (p : ConnectParams) (c : Call)
    → (connect_change p c).call.components ≡ map (reached_by (Params.connect p) c) c.components
unfolding connect_change notify_components connect_peer
connect_change-reached_by p c =
    ap (map (reached_by (Params.connect p) c)) (connect_peer-components p c)

change-reached_by :
    (p : Params) (c : Call) → (change p c).call.components ≡ map (reached_by p c) c.components
unfolding change record_change play_change collect_change fax_change detect_change tap_change
    send_digits_change refer_change notify_components
change-reached_by (Params.state p) c = state_change-reached_by p c
change-reached_by (Params.dial p) c = dial_change-reached_by p c
change-reached_by (Params.connect p) c = connect_change-reached_by p c
change-reached_by (Params.recording p) c = refl
change-reached_by (Params.play p) c = refl
change-reached_by (Params.collect p) c = refl
change-reached_by (Params.fax p) c = refl
change-reached_by (Params.detect p) c = refl
change-reached_by (Params.tap p) c = refl
change-reached_by (Params.send_digits p) c = refl
change-reached_by (Params.refer p) c = refl

get_elem?-map :
    (f : Component → Component) (ks : List Component) (i : ℕ) (k : Component)
    → get_elem? ks i ≡ some k
    → get_elem? (map f ks) i ≡ some (f k)
get_elem?-map f [] i k h = ground arith
get_elem?-map f (x ∷ xs) zero k h = ground arith
get_elem?-map f (x ∷ xs) (suc i) k h = get_elem?-map f xs i k h

finish_completed : (p : Params) (k : Component) → k.completed ≡ true → finish_by p k ≡ k
finish_completed (Params.state p) k h = ground arith
finish_completed p k h = refl

reached_completed :
    (p : Params) (c : Call) (k : Component) → k.completed ≡ true → reached_by p c k ≡ k
reached_completed p c k h =
    ap (finish_by p) (notify_one_completed (told p) (address p c) p k h) ∙ finish_completed p k h

-- What a component has become when it completed, no later notification changes.
change-completed :
    (p : Params) (c : Call) (i : ℕ) (k : Component)
    → get_elem? c.components i ≡ some k
    → k.completed ≡ true
    → get_elem? (change p c).call.components i ≡ some k
change-completed p c i k h done =
    ap (λ ks. get_elem? ks i) (change-reached_by p c)
    ∙ get_elem?-map (reached_by p c) c.components i k h
    ∙ ap some (reached_completed p c k done)

-- A connect notification leaves a component whose control id is not the call's tag as it was.
connect_change-ignores :
    (p : ConnectParams) (c : Call) (i : ℕ) (k : Component)
    → get_elem? c.components i ≡ some k
    → k.control_id ≢ c.tag
    → get_elem? (connect_change p c).call.components i ≡ some k
connect_change-ignores p c i k h other =
    ap (λ ks. get_elem? ks i) (connect_change-reached_by p c)
    ∙ get_elem?-map (reached_by (Params.connect p) c) c.components i k h
    ∙ ap some (ground (arith, eq-false k.control_id c.tag other))

-- The notification that ends a call also ends the components that are still open.
abbrev pub finish : Params → Component → Component
finish (Params.state p) k =
    if k.completed || not (p.call_state == call_state_text CallState.ended)
    then k
    else terminate (some p) k
finish _ k = k

-- What a notification makes of one component: one that has completed, has other events or another
-- control id is not told of it.
abbrev pub notified : Params → Call → Component → Component
notified p c k =
    if k.completed
    then k
    else (if k.control_id == address p c
        then (if event_type k.class == call_notification_text (told p)
            then notification_handler p k
            else k)
        else k)

abbrev pub reached : Params → Call → Component → Component
reached p c k = finish p (notified p c k)

notify_one-notified :
    (p : Params) (c : Call) (k : Component) → notify_one (told p) (address p c) p k ≡ notified p c k
notify_one-notified p c k = ground arith

finish_by-finish : (p : Params) (k : Component) → finish_by p k ≡ finish p k
finish_by-finish (Params.state p) k = ground arith
finish_by-finish p k = refl

-- A notification reaches the components whose event type and control id are its own and that have
-- not completed, and no other; if it ends the call, the components that are still open end too.
pub change-reached :
    (p : Params) (c : Call) → (change p c).call.components ≡ map (reached p c) c.components
change-reached p c =
    change-reached_by p c
    ∙ map-ext (reached_by p c) (reached p c)
        (λ k.
          finish_by-finish p (notify_one (told p) (address p c) p k)
          ∙ ap (finish p) (notify_one-notified p c k))
        c.components
