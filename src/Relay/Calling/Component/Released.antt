-- ===== src/Relay/Calling/Component/Released.antt =====
-- Each class: a notification that completes a component lets its waiter go on.
use signalwire_node.Common.{
  ◌≡◌, ◌≢◌, refl, Bool, true, false, not, Option, some, List, String, ◌==◌, includes, arith,
  if◌then◌else◌, ℕ,
}
use signalwire_node.Common.Json.{Json}
use signalwire_node.Relay.Constants.{
  CallState, call_state_text, CallConnectState, call_connect_state_text, CallPlayState,
  call_play_state_text, CallRecordState, call_record_state_text, CallFaxState, call_fax_state_text,
  CallPromptState, call_prompt_state_text, CallTapState, call_tap_state_text, CallReferState,
  call_refer_state_text,
}
use signalwire_node.Relay.Calling.Params.{
  StateParams, ConnectParams, PlainParams, FaxParams, TapParams, RecordParams, DetectParams,
  DialParams, CollectParams, ReferParams,
}
use signalwire_node.Relay.Calling.Component.{
  Class, Component, has_blocker, resolve_on, DetectFields, RecordFields, PromptFields, FaxFields,
}
use signalwire_node.Relay.Calling.Component.Handlers.{
  on_prompt, on_send_digits, on_tap, on_hangup, on_dial, on_detect,
}
use signalwire_node.Relay.Calling.Component.Progress.{
  on_answer, on_await, on_connect, on_disconnect, on_play, on_record, on_refer, on_fax,
}
use signalwire_node.Relay.Calling.Component.Waits.{
  answer_waits, connect_waits, disconnect_waits, fax_waits, hangup_waits, play_waits, prompt_waits,
  record_waits, send_digits_waits, tap_waits, refer_waits,
}
use signalwire_node.Relay.Calling.Component.Cover.{
  play_cover, record_cover, fax_cover, refer_cover, prompt_cover, connect_cover, disconnect_cover,
  ended_cover, answered_cover, finished_cover,
}

-- The first half of `IsSettled`.
abbrev pub IsReleased : Component → Type 0
IsReleased c = c.completed ≡ true → c.blocker ≢ some false

resolve_on-IsReleased :
    (s : String) (c : Component)
    → (has_blocker c ≡ true → includes c.events_to_wait s ≡ true)
    → IsReleased (resolve_on s c)
resolve_on-IsReleased s c h = ground arith

running-IsReleased :
    (s : String) (c : Component) → c.completed ≡ false → IsReleased (resolve_on s c)
running-IsReleased s c h = ground arith

-- The shape of most handlers: `a` is the component that has finished, `b` the one that goes on.
if-IsReleased :
    (s : String) (finished : Bool) (a b : Component)
    → b.completed ≡ false
    → (finished ≡ true → has_blocker a ≡ true → includes a.events_to_wait s ≡ true)
    → IsReleased (resolve_on s (if finished then a else b))
if-IsReleased s true a b goes_on h = resolve_on-IsReleased s a (h refl)
if-IsReleased s false a b goes_on h = running-IsReleased s b goes_on

waited :
    (es ws : List String) (s t : String)
    → es ≡ ws
    → s ≡ t
    → includes ws t ≡ true
    → includes es s ≡ true
waited es ws s t e f h = rw (e, f) h

module _ (c : Component) where
  pub answer-IsReleased :
      (p : StateParams)
      → c.completed ≡ false
      → (has_blocker c ≡ true → c.events_to_wait ≡ answer_waits)
      → IsReleased (on_answer p c)
  unfolding on_answer
  answer-IsReleased p open' fits =
      if-IsReleased p.call_state (p.call_state == call_state_text CallState.answered) _ c open'
        (λ fin b. answered_cover p.call_state c.events_to_wait fin (fits b))

  pub await-IsReleased : (p : StateParams) → c.completed ≡ false → IsReleased (on_await p c)
  unfolding on_await
  await-IsReleased p open' = ground arith

  pub hangup-IsReleased :
      (p : StateParams) (reason : Option String)
      → (has_blocker c ≡ true → c.events_to_wait ≡ hangup_waits)
      → IsReleased (on_hangup p reason c)
  unfolding on_hangup
  hangup-IsReleased p reason fits = ground (arith, ended_cover p.call_state c.events_to_wait)

  pub dial-IsReleased : (p : DialParams) → IsReleased (on_dial p c)
  unfolding on_dial
  dial-IsReleased p = ground arith

  pub tap-IsReleased :
      (p : TapParams)
      → (has_blocker c ≡ true → c.events_to_wait ≡ tap_waits)
      → IsReleased (on_tap p c)
  unfolding on_tap
  tap-IsReleased p fits =
      if-IsReleased p.state (p.state == call_tap_state_text CallTapState.finished) _ _ refl
        (λ fin b. finished_cover p.state c.events_to_wait fin (fits b))

  pub send_digits-IsReleased :
      (p : PlainParams)
      → (has_blocker c ≡ true → c.events_to_wait ≡ send_digits_waits)
      → IsReleased (on_send_digits p c)
  unfolding on_send_digits
  send_digits-IsReleased p fits = ground (arith, finished_cover p.state c.events_to_wait)

  pub play-IsReleased :
      (p : PlainParams) (x : CallPlayState)
      → p.state ≡ call_play_state_text x
      → (has_blocker c ≡ true → c.events_to_wait ≡ play_waits)
      → IsReleased (on_play p c)
  unfolding on_play
  play-IsReleased p x e fits =
      if-IsReleased p.state (not (p.state == call_play_state_text CallPlayState.playing)) _ _ refl
        (λ fin b. waited c.events_to_wait _ p.state _ (fits b) e (play_cover x (rw e at fin)))

  pub record-IsReleased :
      (p : RecordParams) (old : RecordFields) (arg : Json) (x : CallRecordState)
      → p.state ≡ call_record_state_text x
      → (has_blocker c ≡ true → c.events_to_wait ≡ record_waits)
      → IsReleased (on_record p old arg c)
  unfolding on_record
  record-IsReleased p old arg x e fits =
      if-IsReleased p.state (not (p.state == call_record_state_text CallRecordState.recording)) _ _
        refl
        (λ fin b. waited c.events_to_wait _ p.state _ (fits b) e (record_cover x (rw e at fin)))

  pub fax-IsReleased :
      (p : FaxParams) (class_of : FaxFields → Class) (old : FaxFields) (x : CallFaxState)
      → p.type ≡ call_fax_state_text x
      → (has_blocker c ≡ true → c.events_to_wait ≡ fax_waits)
      → IsReleased (on_fax p class_of old c)
  unfolding on_fax
  fax-IsReleased p class_of old x e fits =
      if-IsReleased p.type (not (p.type == call_fax_state_text CallFaxState.page)) _ _ refl
        (λ fin b. waited c.events_to_wait _ p.type _ (fits b) e (fax_cover x (rw e at fin)))

  pub refer-IsReleased :
      (p : ReferParams) (arg : Json) (x : CallReferState)
      → p.state ≡ call_refer_state_text x
      → (has_blocker c ≡ true → c.events_to_wait ≡ refer_waits)
      → IsReleased (on_refer p arg c)
  unfolding on_refer
  refer-IsReleased p arg x e fits =
      if-IsReleased p.state (not (p.state == call_refer_state_text CallReferState.in_progress)) _ _
        refl (λ fin b. waited c.events_to_wait _ p.state _ (fits b) e (refer_cover x (rw e at fin)))

  pub connect-IsReleased :
      (p : ConnectParams) (x : CallConnectState)
      → x ≢ CallConnectState.disconnected
      → p.connect_state ≡ call_connect_state_text x
      → (has_blocker c ≡ true → c.events_to_wait ≡ connect_waits)
      → IsReleased (on_connect p c)
  unfolding on_connect
  connect-IsReleased p x n e fits =
      if-IsReleased p.connect_state
        (not (p.connect_state == call_connect_state_text CallConnectState.connecting)) _ _ refl
        (λ fin b.
          waited c.events_to_wait _ p.connect_state _ (fits b) e (connect_cover x n (rw e at fin)))

  pub disconnect-IsReleased :
      (p : ConnectParams) (x : CallConnectState)
      → x ≢ CallConnectState.connected
      → p.connect_state ≡ call_connect_state_text x
      → (has_blocker c ≡ true → c.events_to_wait ≡ disconnect_waits)
      → IsReleased (on_disconnect p c)
  unfolding on_disconnect
  disconnect-IsReleased p x n e fits =
      if-IsReleased p.connect_state
        (not (p.connect_state == call_connect_state_text CallConnectState.connecting)) _ _ refl
        (λ fin b.
          waited c.events_to_wait _ p.connect_state _ (fits b) e
            (disconnect_cover x n (rw e at fin)))

  pub prompt-IsReleased :
      (p : CollectParams) (class_of : PromptFields → Class) (old : PromptFields)
      (x : CallPromptState)
      → p.result.type ≡ call_prompt_state_text x
      → (has_blocker c ≡ true → c.events_to_wait ≡ prompt_waits)
      → IsReleased (on_prompt p class_of old c)
  unfolding on_prompt
  prompt-IsReleased p class_of old x e fits =
      let covered : (has_blocker c ≡ true → includes c.events_to_wait p.result.type ≡ true) =
        λ b. waited c.events_to_wait _ p.result.type _ (fits b) e (prompt_cover x) in
      ground (arith, covered)

  pub detect-IsReleased :
      (p : DetectParams) (arg : Json) (timeout : Option ℕ) (old : DetectFields)
      → c.completed ≡ false
      → IsReleased (on_detect p arg timeout old c)
  unfolding on_detect
  detect-IsReleased p arg timeout old open' = ground arith
