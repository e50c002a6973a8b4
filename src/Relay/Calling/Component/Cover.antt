-- ===== src/Relay/Calling/Component/Cover.antt =====
-- Which states the waiters of each class wait for.
use signalwire_node.Common.{◌≡◌, ◌≢◌, refl, true, not, List, String, ◌==◌, includes, eq_iff}
use signalwire_node.Relay.Constants.{
  CallState, call_state_text, CallConnectState, call_connect_state_text, CallPlayState,
  call_play_state_text, CallRecordState, call_record_state_text, CallFaxState, call_fax_state_text,
  CallPromptState, call_prompt_state_text, CallTapState, call_tap_state_text, CallReferState,
  call_refer_state_text,
}
use signalwire_node.Relay.Calling.Component.Waits.{
  answer_waits, connect_waits, disconnect_waits, fax_waits, hangup_waits, play_waits, prompt_waits,
  record_waits, tap_waits, refer_waits,
}

-- Every listed state but the running one is waited for.
pub play_cover :
    (x : CallPlayState)
    → not (call_play_state_text x == call_play_state_text CallPlayState.playing) ≡ true
    → includes play_waits (call_play_state_text x) ≡ true
play_cover CallPlayState.playing h = h
play_cover _ h = refl

pub record_cover :
    (x : CallRecordState)
    → not (call_record_state_text x == call_record_state_text CallRecordState.recording) ≡ true
    → includes record_waits (call_record_state_text x) ≡ true
record_cover CallRecordState.recording h = h
record_cover _ h = refl

pub fax_cover :
    (x : CallFaxState)
    → not (call_fax_state_text x == call_fax_state_text CallFaxState.page) ≡ true
    → includes fax_waits (call_fax_state_text x) ≡ true
fax_cover CallFaxState.page h = h
fax_cover _ h = refl

pub refer_cover :
    (x : CallReferState)
    → not (call_refer_state_text x == call_refer_state_text CallReferState.in_progress) ≡ true
    → includes refer_waits (call_refer_state_text x) ≡ true
refer_cover CallReferState.in_progress h = h
refer_cover _ h = refl

pub prompt_cover : (x : CallPromptState) → includes prompt_waits (call_prompt_state_text x) ≡ true
prompt_cover CallPromptState.error = refl
prompt_cover _ = refl

pub connect_cover :
    (x : CallConnectState)
    → x ≢ CallConnectState.disconnected
    → not (call_connect_state_text x == call_connect_state_text CallConnectState.connecting) ≡ true
    → includes connect_waits (call_connect_state_text x) ≡ true
connect_cover CallConnectState.disconnected n h = absurd (n refl)
connect_cover CallConnectState.connecting n h = h
connect_cover _ n h = refl

pub disconnect_cover :
    (x : CallConnectState)
    → x ≢ CallConnectState.connected
    → not (call_connect_state_text x == call_connect_state_text CallConnectState.connecting) ≡ true
    → includes disconnect_waits (call_connect_state_text x) ≡ true
disconnect_cover CallConnectState.connected n h = absurd (n refl)
disconnect_cover CallConnectState.connecting n h = h
disconnect_cover _ n h = refl

pub ended_cover :
    (s : String) (es : List String)
    → (s == call_state_text CallState.ended) ≡ true
    → es ≡ hangup_waits
    → includes es s ≡ true
ended_cover s es h e = rw (e, (eq_iff s (call_state_text CallState.ended)).0 h)

pub answered_cover :
    (s : String) (es : List String)
    → (s == call_state_text CallState.answered) ≡ true
    → es ≡ answer_waits
    → includes es s ≡ true
answered_cover s es h e = rw (e, (eq_iff s (call_state_text CallState.answered)).0 h)

pub finished_cover :
    (s : String) (es : List String)
    → (s == call_tap_state_text CallTapState.finished) ≡ true
    → es ≡ tap_waits
    → includes es s ≡ true
finished_cover s es h e = rw (e, (eq_iff s (call_tap_state_text CallTapState.finished)).0 h)
