-- ===== src/Relay/Calling/Call/Ending.antt =====
-- Nobody waits for a call that has ended, and what a completed component says stays.
use signalwire_node.Common.{
  ◌≡◌, ◌≢◌, refl, sym, subst, true, false, some, List, [], ◌∷◌, map, String, arith, All, Bool-cases,
  inl, inr,
}
use signalwire_node.Relay.Constants.{
  CallState, call_state_text, CallNotification, call_notification_text,
}
use signalwire_node.Relay.Calling.Params.{StateParams, Params}
use signalwire_node.Relay.Calling.Component.{Component, terminate}
use signalwire_node.Relay.Calling.Component.Settled.{
  notification_handler-IsSettled, terminate-IsSettled, terminate-done,
}
use signalwire_node.Relay.Calling.Component.Waits.{IsSettled, IsExpected}
use signalwire_node.Relay.Calling.Call.{
  Call, is_addressed, notify_one, notify_components, terminate_one, terminate_components,
}
use signalwire_node.Relay.Calling.Call.Changes.{state_change, enter_state}

abbrev pub AllSettled : Call → Type 0
AllSettled c = All IsSettled c.components

-- A component that is over, with nobody left waiting for it.
abbrev pub IsOver : Component → Type 0
IsOver k = (k.completed ≡ true) × (k.blocker ≢ some false)

module _ (event : CallNotification) (control_id : String) (p : Params) where
  -- What the addressed components are told is listed by the protocol.
  abbrev pub AllExpected : List Component → Type 0
  AllExpected [] = Unit {0}
  AllExpected (k ∷ ks) =
      (is_addressed (call_notification_text event) control_id k ≡ true → IsExpected k.class p)
      × AllExpected ks

  notify_one-IsSettled :
      (k : Component)
      → (is_addressed (call_notification_text event) control_id k ≡ true → IsExpected k.class p)
      → IsSettled k
      → IsSettled (notify_one event control_id p k)
  notify_one-IsSettled k x h =
      elim (Bool-cases (is_addressed (call_notification_text event) control_id k)) [
        | inl hit ↦ rw hit (notification_handler-IsSettled p k (ground arith) (x hit) h)
        | inr miss ↦ rw miss h
      ]

  notify-AllSettled :
      (ks : List Component)
      → AllExpected ks
      → All IsSettled ks
      → All IsSettled (map (notify_one event control_id p) ks)
  notify-AllSettled [] x h = tt
  notify-AllSettled (k ∷ ks) (x, xs) (h, hs) =
      (notify_one-IsSettled k x h, notify-AllSettled ks xs hs)

  -- A completed component is not notified.
  pub notify_one_completed :
      (k : Component) → k.completed ≡ true → notify_one event control_id p k ≡ k
  notify_one_completed k h = ground arith

-- Whether an open component is ended, or a completed one is left.
terminate_one_open :
    (p : StateParams) (k : Component)
    → k.completed ≡ false
    → terminate_one p k ≡ terminate (some p) k
terminate_one_open p k h = ground arith

terminate_one_completed :
    (p : StateParams) (k : Component) → k.completed ≡ true → terminate_one p k ≡ k
terminate_one_completed p k h = ground arith

terminate_one-IsOver : (p : StateParams) (k : Component) → IsSettled k → IsOver (terminate_one p k)
terminate_one-IsOver p k h = elim (Bool-cases k.completed) [
  | inl done ↦ subst IsOver (sym (terminate_one_completed p k done)) (done, h.settled done)
  | inr open' ↦
      subst IsOver (sym (terminate_one_open p k open'))
        (let d = terminate-done (some p) k in (d.0, d.2))
]

terminate-AllOver :
    (p : StateParams) (ks : List Component)
    → All IsSettled ks
    → All IsOver (map (terminate_one p) ks)
terminate-AllOver p [] h = tt
terminate-AllOver p (k ∷ ks) (h, hs) = (terminate_one-IsOver p k h, terminate-AllOver p ks hs)

terminate-AllSettled :
    (p : StateParams) (ks : List Component)
    → All IsSettled ks
    → All IsSettled (map (terminate_one p) ks)
terminate-AllSettled p [] h = tt
terminate-AllSettled p (k ∷ ks) (h, hs) = (
  elim (Bool-cases k.completed) [
    | inl done ↦ subst IsSettled (sym (terminate_one_completed p k done)) h
    | inr open' ↦
        subst IsSettled (sym (terminate_one_open p k open')) (terminate-IsSettled (some p) k h)
  ],
  terminate-AllSettled p ks hs,
)

state_change-components :
    (p : StateParams) (c : Call)
    → p.call_state ≡ call_state_text CallState.ended
    → (state_change p c).call.components
      ≡ map
          (terminate_one p)
          (map (notify_one CallNotification.state c.tag (Params.state p)) c.components)
unfolding state_change enter_state notify_components terminate_components
state_change-components p c e = rw e refl

pub state_change-removed :
    (p : StateParams) (c : Call)
    → p.call_state ≡ call_state_text CallState.ended
    → (state_change p c).removed ≡ true
unfolding state_change enter_state notify_components terminate_components
state_change-removed p c e = rw e refl

-- When a call whose components are settled is told that it has ended, it asks to be removed, and
-- every component of it is completed and keeps nobody waiting.
pub state_change-IsOver :
    (p : StateParams) (c : Call)
    → p.call_state ≡ call_state_text CallState.ended
    → AllSettled c
    → AllExpected CallNotification.state c.tag (Params.state p) c.components
    → ((state_change p c).removed ≡ true) × All IsOver (state_change p c).call.components
state_change-IsOver p c e h x = (
  state_change-removed p c e,
  subst (All IsOver) (sym (state_change-components p c e)) (
      terminate-AllOver p _
        (notify-AllSettled CallNotification.state c.tag (Params.state p) c.components x h)),
)
