-- ===== src/Relay/Constants.antt =====
-- packages/common/src/util/constants/relay.ts: the words of the protocol. Each enum is a data type,
-- and its `…_text` gives the values as they stand on the wire.
use Prim.Native.String.{String}
use mathlib.Core.List.{List, [], ◌∷◌}

pub data CallState : Type 0 where
  none created ringing answered ending ended : CallState

abbrev pub call_state_text : CallState → String
call_state_text CallState.none = "none"
call_state_text CallState.created = "created"
call_state_text CallState.ringing = "ringing"
call_state_text CallState.answered = "answered"
call_state_text CallState.ending = "ending"
call_state_text CallState.ended = "ended"

pub data DisconnectReason : Type 0 where
  hangup cancel busy no_answer decline error : DisconnectReason

abbrev pub disconnect_reason_text : DisconnectReason → String
disconnect_reason_text DisconnectReason.hangup = "hangup"
disconnect_reason_text DisconnectReason.cancel = "cancel"
disconnect_reason_text DisconnectReason.busy = "busy"
disconnect_reason_text DisconnectReason.no_answer = "noAnswer"
disconnect_reason_text DisconnectReason.decline = "decline"
disconnect_reason_text DisconnectReason.error = "error"

pub data CallConnectState : Type 0 where
  disconnected connecting connected failed : CallConnectState

abbrev pub call_connect_state_text : CallConnectState → String
call_connect_state_text CallConnectState.disconnected = "disconnected"
call_connect_state_text CallConnectState.connecting = "connecting"
call_connect_state_text CallConnectState.connected = "connected"
call_connect_state_text CallConnectState.failed = "failed"

pub data CallNotification : Type 0 where
  dial state receive connect recording play collect fax detect tap send_digits refer :
      CallNotification

abbrev pub call_notification_text : CallNotification → String
call_notification_text CallNotification.dial = "calling.call.dial"
call_notification_text CallNotification.state = "calling.call.state"
call_notification_text CallNotification.receive = "calling.call.receive"
call_notification_text CallNotification.connect = "calling.call.connect"
call_notification_text CallNotification.recording = "calling.call.record"
call_notification_text CallNotification.play = "calling.call.play"
call_notification_text CallNotification.collect = "calling.call.collect"
call_notification_text CallNotification.fax = "calling.call.fax"
call_notification_text CallNotification.detect = "calling.call.detect"
call_notification_text CallNotification.tap = "calling.call.tap"
call_notification_text CallNotification.send_digits = "calling.call.send_digits"
call_notification_text CallNotification.refer = "calling.call.refer"

pub data CallMethod : Type 0 where
  answer begin connect dial disconnect end recording play play_and_collect receive_fax send_fax
        detect tap send_digits refer pass :
      CallMethod

abbrev pub call_method_text : CallMethod → String
call_method_text CallMethod.answer = "calling.answer"
call_method_text CallMethod.begin = "calling.begin"
call_method_text CallMethod.connect = "calling.connect"
call_method_text CallMethod.dial = "calling.dial"
call_method_text CallMethod.disconnect = "calling.disconnect"
call_method_text CallMethod.end = "calling.end"
call_method_text CallMethod.recording = "calling.record"
call_method_text CallMethod.play = "calling.play"
call_method_text CallMethod.play_and_collect = "calling.play_and_collect"
call_method_text CallMethod.receive_fax = "calling.receive_fax"
call_method_text CallMethod.send_fax = "calling.send_fax"
call_method_text CallMethod.detect = "calling.detect"
call_method_text CallMethod.tap = "calling.tap"
call_method_text CallMethod.send_digits = "calling.send_digits"
call_method_text CallMethod.refer = "calling.refer"
call_method_text CallMethod.pass = "calling.pass"

pub data DialState : Type 0 where
  dialing failed answered : DialState

abbrev pub dial_state_text : DialState → String
dial_state_text DialState.dialing = "dialing"
dial_state_text DialState.failed = "failed"
dial_state_text DialState.answered = "answered"

pub data SendDigitsState : Type 0 where
  finished : SendDigitsState

abbrev pub send_digits_state_text : SendDigitsState → String
send_digits_state_text SendDigitsState.finished = "finished"

pub data CallPlayState : Type 0 where
  playing error finished : CallPlayState

abbrev pub call_play_state_text : CallPlayState → String
call_play_state_text CallPlayState.playing = "playing"
call_play_state_text CallPlayState.error = "error"
call_play_state_text CallPlayState.finished = "finished"

pub data CallTapState : Type 0 where
  tapping finished : CallTapState

abbrev pub call_tap_state_text : CallTapState → String
call_tap_state_text CallTapState.tapping = "tapping"
call_tap_state_text CallTapState.finished = "finished"

pub data CallFaxState : Type 0 where
  page error finished : CallFaxState

abbrev pub call_fax_state_text : CallFaxState → String
call_fax_state_text CallFaxState.page = "page"
call_fax_state_text CallFaxState.error = "error"
call_fax_state_text CallFaxState.finished = "finished"

pub data CallPromptState : Type 0 where
  error no_input no_match digit speech : CallPromptState

abbrev pub call_prompt_state_text : CallPromptState → String
call_prompt_state_text CallPromptState.error = "error"
call_prompt_state_text CallPromptState.no_input = "no_input"
call_prompt_state_text CallPromptState.no_match = "no_match"
call_prompt_state_text CallPromptState.digit = "digit"
call_prompt_state_text CallPromptState.speech = "speech"

pub data CallRecordState : Type 0 where
  recording no_input finished : CallRecordState

abbrev pub call_record_state_text : CallRecordState → String
call_record_state_text CallRecordState.recording = "recording"
call_record_state_text CallRecordState.no_input = "no_input"
call_record_state_text CallRecordState.finished = "finished"

pub data CallDetectState : Type 0 where
  error finished ced cng machine human unknown ready not_ready : CallDetectState

abbrev pub call_detect_state_text : CallDetectState → String
call_detect_state_text CallDetectState.error = "error"
call_detect_state_text CallDetectState.finished = "finished"
call_detect_state_text CallDetectState.ced = "CED"
call_detect_state_text CallDetectState.cng = "CNG"
call_detect_state_text CallDetectState.machine = "MACHINE"
call_detect_state_text CallDetectState.human = "HUMAN"
call_detect_state_text CallDetectState.unknown = "UNKNOWN"
call_detect_state_text CallDetectState.ready = "READY"
call_detect_state_text CallDetectState.not_ready = "NOT_READY"

pub data CallReferState : Type 0 where
  in_progress cancel busy no_answer error success : CallReferState

abbrev pub call_refer_state_text : CallReferState → String
call_refer_state_text CallReferState.in_progress = "inProgress"
call_refer_state_text CallReferState.cancel = "cancel"
call_refer_state_text CallReferState.busy = "busy"
call_refer_state_text CallReferState.no_answer = "noAnswer"
call_refer_state_text CallReferState.error = "error"
call_refer_state_text CallReferState.success = "success"

pub data CallDetectType : Type 0 where
  fax machine digit : CallDetectType

abbrev pub call_detect_type_text : CallDetectType → String
call_detect_type_text CallDetectType.fax = "fax"
call_detect_type_text CallDetectType.machine = "machine"
call_detect_type_text CallDetectType.digit = "digit"

-- `Object.values(CallState)`
abbrev pub call_states : List String
call_states =
    call_state_text CallState.none
    ∷ call_state_text CallState.created
    ∷ call_state_text CallState.ringing
    ∷ call_state_text CallState.answered
    ∷ call_state_text CallState.ending
    ∷ call_state_text CallState.ended
    ∷ []
