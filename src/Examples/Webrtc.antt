-- ===== src/Examples/Webrtc.antt =====
-- WebRTC calls at concrete inputs.
use signalwire_node.Common.{◌≤◌, ◌≢◌, true, false, none, some, [], arith}
use signalwire_node.Webrtc.{
  state_number, active, ringing, purge, RtcCall, Peer, offer, answered, handle_message,
}
use signalwire_node.Webrtc.Life.{handle_message-forward, with_promise}
use signalwire_node.Webrtc.Recovery.{failures, failures-bounded}

abbrev pub peer : Peer
peer = record { type = offer; negotiating = false; ready_twice = false }

abbrev pub rtc_call : RtcCall
rtc_call = record {
  state = active;
  prev_state = ringing;
  cause = "";
  cause_code = "";
  peer = some peer;
  got_answer = true;
  got_early = false;
  last_serno = 4;
  target_node_id = none;
  ice_timeout = false;
  ice_done = false;
  ice_restart_attempts = 0;
  auto_restart_ice_on_failure = true;
  max_ice_restart_attempts = 3;
  attach = false;
  registered = true;
  channels = [];
}

active_stays : rtc_call.state ≢ purge
active_stays e = ground arith

handle_message-forward_example :
    (state_number active ≤ state_number (handle_message answered rtc_call).call.state)
    × (state_number active
        ≤ state_number (with_promise (handle_message answered rtc_call)).call.state)
handle_message-forward_example = handle_message-forward answered rtc_call active_stays

failures-bounded_example : (failures 5 rtc_call).ice_restart_attempts ≤ 3
failures-bounded_example = failures-bounded 5 rtc_call (omega arith)
