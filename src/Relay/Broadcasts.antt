-- ===== src/Relay/Broadcasts.antt =====
-- packages/common/src/services/BroadcastHandler.ts: a broadcast of the server reaches the calls, the
-- tasks or the messages of a Relay client, or the handler of Verto messages. `uuid` is that of the
-- next `new Call`; what the user's callbacks do to the calls are further steps.
use signalwire_node.Common.{
  ◌==◌, ℕ, Bool, true, false, Option, none, some, List, [], ◌∷◌, String, if◌then◌else◌,
}
use signalwire_node.Handler.{Queue, Registry, Outcome, returned, thrown, trigger}
use signalwire_node.Relay.Contexts.{on_message_notification, on_task_notification}
use signalwire_node.Relay.Calling.Params.{StateParams, Params}
use signalwire_node.Relay.Calling.Call.{Call, Effect}
use signalwire_node.Relay.Calling.Registry.{Calling, notification, on_receive}
use signalwire_node.Verto.{VertoMessage}

-- What a callback of the client is called with.
pub data Delivered : Type 0 where
  a_call : Call → Delivered
  a_task : ℕ → Delivered
  a_message : ℕ → Delivered

-- `event`, `event_type` and `params`: of the relay events those of WebRTC, those of the calls, and
-- among these a new inbound call; a task with its context; a message with its type and its context.
pub data Broadcast : Type 0 where
  webrtc : VertoMessage → Broadcast
  calling : Params → Broadcast
  inbound : StateParams → Broadcast
  task : String → ℕ → Broadcast
  messaging : String → String → ℕ → Broadcast
  unknown : Broadcast

pub record Client : Type 0 where
  pub relay_protocol : Option String
  pub calls : Calling
  pub registry : Registry Delivered

pub record Handled : Type 0 where
  pub client : Client
  pub effects : List Effect
  pub verto : Option VertoMessage
  pub failed : Bool

abbrev pub handled : Client → Handled
handled c = record { client = c; effects = []; verto = none; failed = false }

abbrev pub delivered : Client → Outcome Delivered → Handled
delivered c (returned r answer) = handled (record c { registry = r })
delivered c (thrown r) = record (handled (record c { registry = r })) { failed = true }

abbrev pub if_delivered : Client → Option (Outcome Delivered) → Handled
if_delivered c none = handled c
if_delivered c (some o) = delivered c o

module _ (body : ℕ → Delivered → Queue → Queue) where
  -- The `switch`, for a session of this protocol.
  unfoldable pub by_event : String → String → Broadcast → Client → Handled
  by_event uuid protocol (webrtc msg) c = record (handled c) { verto = some msg }
  by_event uuid protocol (calling p) c =
      let r = notification uuid p c.calls in
      record (handled (record c { calls = r.0 })) { effects = r.1 }
  by_event uuid protocol (inbound p) c =
      let r = on_receive uuid p c.calls in
      delivered (record c { calls = r.0 })
        (trigger body protocol (a_call r.1.0) r.1.1 true c.registry)
  by_event uuid protocol (task context n) c =
      delivered c (on_task_notification body protocol context (a_task n) c.registry)
  by_event uuid protocol (messaging event_type context n) c =
      if_delivered c
        (on_message_notification body protocol event_type context (a_message n) c.registry)
  by_event uuid protocol unknown c = handled c

  -- The test of the protocol, and the switch.
  unfoldable pub by_protocol : String → String → Option String → Broadcast → Client → Handled
  unfolding by_event
  by_protocol uuid protocol none b c = handled c
  by_protocol uuid protocol (some own) b c =
      if protocol == own then by_event uuid own b c else handled c

  unfoldable pub on_broadcast : String → String → Broadcast → Client → Handled
  unfolding by_protocol
  on_broadcast uuid protocol b c = by_protocol uuid protocol c.relay_protocol b c

  -- Broadcasts one after the other, each with a uuid and its protocol.
  unfoldable pub on_broadcasts : List (String × String × Broadcast) → Client → Client
  unfolding on_broadcast
  on_broadcasts [] c = c
  on_broadcasts ((uuid, protocol, b) ∷ bs) c =
      on_broadcasts bs (on_broadcast uuid protocol b c).client
