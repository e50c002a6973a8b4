-- ===== src/Relay/Calling/Component/Waits.antt =====
-- What whoever waits for a component waits for, and what notifications may tell it.
use signalwire_node.Common.{◌≡◌, ◌≢◌, true, false, Option, none, some, List, [], ◌∷◌, String}
use signalwire_node.Relay.Constants.{
  CallState, call_state_text, CallConnectState, call_connect_state_text, CallPlayState,
  call_play_state_text, CallRecordState, call_record_state_text, CallFaxState, call_fax_state_text,
  CallPromptState, call_prompt_state_text, SendDigitsState, send_digits_state_text, CallTapState,
  call_tap_state_text, CallReferState, call_refer_state_text, DialState, dial_state_text,
  CallDetectState, call_detect_state_text,
}
use signalwire_node.Relay.Calling.Params.{Params}
use signalwire_node.Relay.Calling.Component.{
  Class, Component, answer, await, connect, detect, dial, fax_receive, fax_send, hangup, play,
  prompt, recording, send_digits, tap, disconnect, refer, pass, has_blocker,
}

-- The events that the methods of Call wait for, by class.
abbrev pub answer_waits : List String
answer_waits =
    call_state_text CallState.answered
    ∷ call_state_text CallState.ending
    ∷ call_state_text CallState.ended
    ∷ []

abbrev pub connect_waits : List String
connect_waits =
    call_connect_state_text CallConnectState.failed
    ∷ call_connect_state_text CallConnectState.connected
    ∷ []

abbrev pub disconnect_waits : List String
disconnect_waits =
    call_connect_state_text CallConnectState.failed
    ∷ call_connect_state_text CallConnectState.disconnected
    ∷ []

abbrev pub fax_waits : List String
fax_waits = call_fax_state_text CallFaxState.error ∷ call_fax_state_text CallFaxState.finished ∷ []

abbrev pub hangup_waits : List String
hangup_waits = call_state_text CallState.ended ∷ []

abbrev pub play_waits : List String
play_waits =
    call_play_state_text CallPlayState.error ∷ call_play_state_text CallPlayState.finished ∷ []

abbrev pub prompt_waits : List String
prompt_waits =
    call_prompt_state_text CallPromptState.error
    ∷ call_prompt_state_text CallPromptState.no_input
    ∷ call_prompt_state_text CallPromptState.no_match
    ∷ call_prompt_state_text CallPromptState.digit
    ∷ call_prompt_state_text CallPromptState.speech
    ∷ []

abbrev pub record_waits : List String
record_waits =
    call_record_state_text CallRecordState.no_input
    ∷ call_record_state_text CallRecordState.finished
    ∷ []

abbrev pub send_digits_waits : List String
send_digits_waits = send_digits_state_text SendDigitsState.finished ∷ []

abbrev pub tap_waits : List String
tap_waits = call_tap_state_text CallTapState.finished ∷ []

abbrev pub refer_waits : List String
refer_waits =
    call_refer_state_text CallReferState.no_answer
    ∷ call_refer_state_text CallReferState.busy
    ∷ call_refer_state_text CallReferState.cancel
    ∷ call_refer_state_text CallReferState.success
    ∷ call_refer_state_text CallReferState.error
    ∷ []

abbrev pub dial_waits : List String
dial_waits = dial_state_text DialState.answered ∷ dial_state_text DialState.failed ∷ []

abbrev pub detect_waits : List String
detect_waits =
    call_detect_state_text CallDetectState.machine
    ∷ call_detect_state_text CallDetectState.human
    ∷ call_detect_state_text CallDetectState.unknown
    ∷ call_detect_state_text CallDetectState.ced
    ∷ call_detect_state_text CallDetectState.cng
    ∷ []

abbrev pub waits : Class → List String
waits answer = answer_waits
waits dial = dial_waits
waits (detect _ _ _) = detect_waits
waits (connect _ _) = connect_waits
waits disconnect = disconnect_waits
waits (fax_receive _) = fax_waits
waits (fax_send _ _ _ _) = fax_waits
waits (hangup _) = hangup_waits
waits (play _ _) = play_waits
waits (prompt _ _ _ _) = prompt_waits
waits (recording _ _) = record_waits
waits (send_digits _) = send_digits_waits
waits (tap _ _) = tap_waits
waits (refer _ _) = refer_waits
waits _ = []

-- An Await waits for any events, and nobody waits for a Pass.
abbrev pub required : Class → Option (List String)
required await = none
required pass = none
required c = some (waits c)

-- A completed component has no pending blocker, and a blocker waits for the events of its class.
pub record IsSettled (c : Component) : Type 0 where
  pub settled : c.completed ≡ true → c.blocker ≢ some false
  pub fits :
      (ws : List String) → has_blocker c ≡ true → required c.class ≡ some ws → c.events_to_wait ≡ ws

-- The states that end or continue each operation, as the enums of the protocol list them, but for
-- `disconnected` of a connect and `connected` of a disconnect.
abbrev pub IsExpected : Class → Params → Type 0
IsExpected (connect _ _) (Params.connect p) =
    (x : CallConnectState) × (x ≢ CallConnectState.disconnected)
    × (p.connect_state ≡ call_connect_state_text x)
IsExpected disconnect (Params.connect p) =
    (x : CallConnectState) × (x ≢ CallConnectState.connected)
    × (p.connect_state ≡ call_connect_state_text x)
IsExpected (play _ _) (Params.play p) = (x : CallPlayState) × (p.state ≡ call_play_state_text x)
IsExpected (recording _ _) (Params.recording p) =
    (x : CallRecordState) × (p.state ≡ call_record_state_text x)
IsExpected (refer _ _) (Params.refer p) = (x : CallReferState) × (p.state ≡ call_refer_state_text x)
IsExpected (fax_receive _) (Params.fax p) = (x : CallFaxState) × (p.type ≡ call_fax_state_text x)
IsExpected (fax_send _ _ _ _) (Params.fax p) = (x : CallFaxState) × (p.type ≡ call_fax_state_text x)
IsExpected (prompt _ _ _ _) (Params.collect p) =
    (x : CallPromptState) × (p.result.type ≡ call_prompt_state_text x)
IsExpected _ _ = Unit {0}
