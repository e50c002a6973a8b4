-- ===== src/Relay/Calling/Params.antt =====
-- The params of the `calling.call.*` notifications that packages/common/src/relay/calling reads,
-- as the documented shapes; a property that may be missing is an `Option`.
use signalwire_node.Common.{ℕ, Bool, Option, String}
use signalwire_node.Common.Json.{Json}
use signalwire_node.Relay.Devices.{Device}

pub record StateParams : Type 0 where
  pub call_id : Option String
  pub node_id : Option String
  pub tag : Option String
  pub call_state : String
  pub end_reason : Option String
  pub context : Option String
  pub device : Option Device

-- The `call` of an answered dial.
pub record DialedCall : Type 0 where
  pub call_id : Option String
  pub node_id : Option String
  pub device : Option Device

pub record DialParams : Type 0 where
  pub tag : String
  pub dial_state : String
  pub call : Option DialedCall

pub record Peer : Type 0 where
  pub call_id : String
  pub node_id : String

pub record ConnectParams : Type 0 where
  pub call_id : String
  pub connect_state : String
  pub peer : Option Peer

pub record RecordParams : Type 0 where
  pub call_id : String
  pub control_id : String
  pub state : String
  pub url : Option String
  pub duration : Option ℕ
  pub size : Option ℕ

-- `calling.call.play` and `calling.call.send_digits`.
pub record PlainParams : Type 0 where
  pub call_id : String
  pub control_id : String
  pub state : String

-- `result` of `calling.call.collect`, with the properties of its `params`.
pub record CollectResult : Type 0 where
  pub type : String
  pub digits : Option String
  pub terminator : Option String
  pub text : Option String
  pub confidence : Option ℕ

pub record CollectParams : Type 0 where
  pub call_id : String
  pub control_id : String
  pub result : CollectResult

-- `fax.params`; `success` is read as a truth value.
pub record FaxResultParams : Type 0 where
  pub success : Bool
  pub direction : Option String
  pub identity : Option String
  pub remote_identity : Option String
  pub document : Option String
  pub pages : Option ℕ

pub record FaxParams : Type 0 where
  pub call_id : String
  pub control_id : String
  pub type : String
  pub params : FaxResultParams

-- `detect` of `calling.call.detect`, with `detect.params.event`.
pub record Detected : Type 0 where
  pub type : String
  pub event : String

pub record DetectParams : Type 0 where
  pub call_id : String
  pub control_id : String
  pub detect : Detected

pub record TapParams : Type 0 where
  pub call_id : String
  pub control_id : String
  pub state : String
  pub tap : Json
  pub device : Json

pub record ReferParams : Type 0 where
  pub call_id : String
  pub state : String
  pub sip_refer_to : Option String
  pub sip_refer_response_code : Option String
  pub sip_notify_response_code : Option String

-- The params that a component is notified with, by the event type that they come with.
pub data Params : Type 0 where
  state : StateParams → Params
  dial : DialParams → Params
  connect : ConnectParams → Params
  recording : RecordParams → Params
  play : PlainParams → Params
  collect : CollectParams → Params
  fax : FaxParams → Params
  detect : DetectParams → Params
  tap : TapParams → Params
  send_digits : PlainParams → Params
  refer : ReferParams → Params

-- What the session's `execute` resolves or rejects with: the properties that are read of it.
pub record Response : Type 0 where
  pub code : Option String
  pub message : Option String
  pub url : Option String
  pub source_device : Json

pub data Payload : Type 0 where
  of_params : Params → Payload
  of_fax : FaxResultParams → Payload
  of_detect : Detected → Payload
  of_result : CollectResult → Payload
  of_response : Response → Payload

-- packages/common/src/relay/calling/Event.ts
pub record Event : Type 0 where
  pub name : String
  pub payload : Payload
