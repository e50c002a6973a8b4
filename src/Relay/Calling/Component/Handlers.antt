-- ===== src/Relay/Calling/Component/Handlers.antt =====
-- packages/common/src/relay/calling/components/*.ts: `notificationHandler` of each class, with those of
-- Progress.
use signalwire_node.Common.{
  true, false, not, ◌&&◌, Option, some, List, [], ◌∷◌, ◌++◌, String, ◌==◌, includes, if◌then◌else◌,
  ℕ,
}
use signalwire_node.Relay.Constants.{
  CallState, call_state_text, DialState, dial_state_text, CallPromptState, call_prompt_state_text,
  SendDigitsState, send_digits_state_text, CallTapState, call_tap_state_text, CallDetectState,
  call_detect_state_text, CallDetectType, call_detect_type_text,
}
use signalwire_node.Relay.Calling.Params.{
  StateParams, DialParams, PlainParams, CollectParams, Detected, DetectParams, TapParams, Params,
  of_params, of_detect, of_result,
}
use Prim.Native.String.{◌++◌ as concat}
use signalwire_node.Common.Json.{Json}
use signalwire_node.Relay.Calling.Component.{
  Class, Component, PromptFields, DetectFields, answer, await, connect, detect, dial, fax_receive,
  fax_send, hangup, play, prompt, recording, send_digits, tap, disconnect, refer, has_blocker,
  resolve, resolve_on,
}
use signalwire_node.Relay.Calling.Component.Progress.{
  new_event, on_answer, on_await, on_connect, on_disconnect, on_play, on_record, on_refer, on_fax,
}

unfoldable pub on_prompt :
    CollectParams → (PromptFields → Class) → PromptFields → Component → Component
on_prompt p class_of old c =
    let r = p.result in
    let event' = new_event r.type (of_result r) in
    let digits : PromptFields = record old {
      type = some r.type;
      input = r.digits;
      terminator = r.terminator;
    } in
    let speech : PromptFields = record old {
      type = some r.type;
      input = r.text;
      confidence = r.confidence;
    } in
    let other : PromptFields = record old { type = some r.type } in
    resolve_on r.type (
      if r.type == call_prompt_state_text CallPromptState.digit
      then record c {
        class = class_of digits;
        completed = true;
        event = event';
        state = some "successful";
        successful = true;
      }
      else (if r.type == call_prompt_state_text CallPromptState.speech
          then record c {
            class = class_of speech;
            completed = true;
            event = event';
            state = some "successful";
            successful = true;
          }
          else record c {
            class = class_of other;
            completed = true;
            event = event';
            state = some r.type;
            successful = false;
          }))

unfoldable pub on_send_digits : PlainParams → Component → Component
on_send_digits p c =
    let finished = p.state == send_digits_state_text SendDigitsState.finished in
    resolve_on p.state (record c {
      state = some p.state;
      completed = finished;
      successful = finished;
      event = new_event p.state (of_params (Params.send_digits p));
    })

unfoldable pub on_tap : TapParams → Component → Component
on_tap p c =
    let finished = p.state == call_tap_state_text CallTapState.finished in
    resolve_on p.state (
      if finished
      then record c {
        class = tap p.tap p.device;
        state = some p.state;
        completed = true;
        successful = true;
        event = new_event p.state (of_params (Params.tap p));
      }
      else record c { class = tap p.tap p.device; state = some p.state; completed = false })

unfoldable pub on_hangup : StateParams → Option String → Component → Component
on_hangup p reason c =
    let finished = p.call_state == call_state_text CallState.ended in
    let waited = has_blocker c && includes c.events_to_wait p.call_state in
    let c' : Component =
      if finished
      then record c {
        class = hangup p.end_reason;
        state = some p.call_state;
        completed = true;
        successful = true;
        event = new_event p.call_state (of_params (Params.state p));
      }
      else record c { state = some p.call_state; completed = false } in
    if waited then resolve (record c' { class = hangup p.end_reason }) else c'

unfoldable pub on_dial : DialParams → Component → Component
on_dial p c =
    let finished = includes c.events_to_wait p.dial_state in
    let c' : Component =
      if finished
      then record c {
        state = some p.dial_state;
        completed = true;
        successful = p.dial_state == dial_state_text DialState.answered;
        event = new_event p.dial_state (of_params (Params.dial p));
      }
      else record c { state = some p.dial_state; completed = false } in
    if has_blocker c && finished then resolve c' else c'

abbrev pub finished_events : List String
finished_events =
    call_detect_state_text CallDetectState.error
    ∷ call_detect_state_text CallDetectState.finished
    ∷ []

abbrev pub machine_state_events : List String
machine_state_events =
    call_detect_state_text CallDetectState.ready
    ∷ call_detect_state_text CallDetectState.not_ready
    ∷ []

-- `_events.join(',')`
join_comma : List String → String
join_comma [] = ""
join_comma (s ∷ []) = s
join_comma (s ∷ t ∷ r) = concat s (concat "," (join_comma (t ∷ r)))

-- `_complete`: `s` is the state, which the handler has just stored.
unfoldable pub complete_detect : Detected → Json → Option ℕ → DetectFields → Component → Component
unfolding join_comma
complete_detect d arg timeout f c =
    let s = d.event in
    let good = not (includes finished_events s) in
    let result' : Option String =
      if includes machine_state_events s
      then some (call_detect_state_text CallDetectState.machine)
      else (if good then some s else f.result) in
    if has_blocker c
    then resolve (record c {
      class = detect arg timeout (record f { result = result' });
      completed = true;
      event = new_event s (of_detect d);
      successful = good;
    })
    else record c {
      class = detect arg timeout (record f { result = some (join_comma f.events) });
      completed = true;
      event = new_event s (of_detect d);
      successful = not (s == call_detect_state_text CallDetectState.error);
    }

unfoldable pub on_detect : DetectParams → Json → Option ℕ → DetectFields → Component → Component
unfolding complete_detect
on_detect p arg timeout old c0 =
    let d = p.detect in
    let f : DetectFields = record old { type = some d.type } in
    let c : Component = record c0 { class = detect arg timeout f; state = some d.event } in
    if includes finished_events d.event
    then complete_detect d arg timeout f c
    else (if not (has_blocker c)
        then record c {
          class = detect arg timeout (record f { events = f.events ++ d.event ∷ [] });
        }
        else (if d.type == call_detect_type_text CallDetectType.digit
            then complete_detect d arg timeout f c
            else (if f.waiting_for_ready
                then (if d.event == call_detect_state_text CallDetectState.ready
                    then complete_detect d arg timeout f c
                    else c)
                else (if f.wait_for_beep
                      && (d.event == call_detect_state_text CallDetectState.machine)
                    then record c {
                      class = detect arg timeout (record f { waiting_for_ready = true });
                    }
                    else (if includes c.events_to_wait d.event
                        then complete_detect d arg timeout f c
                        else c)))))

-- The handler of the component's class. `_notifyComponents` passes only params of the component's
-- own event type, so the last clause is Pass, which ignores its notifications, and the pairs that
-- do not occur.
unfoldable pub handle_as : Class → Params → Component → Component
unfolding on_answer on_await on_connect on_disconnect on_play on_record on_refer on_fax on_prompt
    on_send_digits on_tap on_hangup on_dial on_detect
handle_as answer (Params.state p) c = on_answer p c
handle_as await (Params.state p) c = on_await p c
handle_as (hangup reason) (Params.state p) c = on_hangup p reason c
handle_as (connect _ _) (Params.connect p) c = on_connect p c
handle_as disconnect (Params.connect p) c = on_disconnect p c
handle_as dial (Params.dial p) c = on_dial p c
handle_as (detect arg timeout f) (Params.detect p) c = on_detect p arg timeout f c
handle_as (fax_receive f) (Params.fax p) c = on_fax p fax_receive f c
handle_as (fax_send document identity header f) (Params.fax p) c =
    on_fax p (fax_send document identity header) f c
handle_as (play _ _) (Params.play p) c = on_play p c
handle_as (prompt collect media volume f) (Params.collect p) c =
    on_prompt p (prompt collect media volume) f c
handle_as (recording arg f) (Params.recording p) c = on_record p f arg c
handle_as (send_digits _) (Params.send_digits p) c = on_send_digits p c
handle_as (tap _ _) (Params.tap p) c = on_tap p c
handle_as (refer arg _) (Params.refer p) c = on_refer p arg c
handle_as _ _ c = c

unfoldable pub notification_handler : Params → Component → Component
unfolding handle_as
notification_handler p c = handle_as c.class p c
