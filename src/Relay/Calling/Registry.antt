-- ===== src/Relay/Calling/Registry.antt =====
-- packages/common/src/relay/calling/Calling.ts: the calls that a client knows, and the dispatch of
-- the notifications to them. A call has its identity in `ref`: `next_ref` and `uuid` are those of
-- the next `new Call`.
pub mod Objects
pub mod Kept
pub mod Invariant
use Prim.Native.String.{◌++◌ as concat}
use signalwire_node.Common.{
  ℕ, suc, Bool, true, false, not, Option, none, some, List, [], ◌∷◌, ◌++◌, String, ◌==◌, eqb,
  if◌then◌else◌,
}
use signalwire_node.Relay.Devices.{text_truthy, prepare_dial_devices, Deeps, MakeCallParams}
use signalwire_node.Relay.Calling.Params.{StateParams, DialParams, Params}
use signalwire_node.Relay.Calling.Call.{Call, CallOptions, Effect, is_multi_dial, new_call, ready}
use signalwire_node.Relay.Calling.Call.Changes.{Changed, change}

pub record Calling : Type 0 where
  pub calls : List Call
  pub next_ref : ℕ

-- What a call of the registry answers to: `===` of texts that may be undefined.
abbrev pub same_text : Option String → Option String → Bool
same_text none none = true
same_text (some s) (some t) = s == t
same_text _ _ = false

abbrev pub find : (Call → Bool) → List Call → Option Call
find f [] = none
find f (c ∷ cs) = if f c then some c else find f cs

-- `addCall`
unfoldable pub add_call : Call → Calling → Calling
add_call c k = record k { calls = k.calls ++ c ∷ [] }

-- `removeCall`: the first occurrence of the object.
abbrev pub without : ℕ → List Call → List Call
without ref [] = []
without ref (c ∷ cs) = if eqb c.ref ref then cs else c ∷ without ref cs

unfoldable pub remove_call : ℕ → Calling → Calling
remove_call ref k = record k { calls = without ref k.calls }

abbrev pub get_call_by_id : Option String → Calling → Option Call
get_call_by_id id k = find (λ c. same_text c.id id) k.calls

abbrev pub get_call_by_tag : Option String → Calling → Option Call
get_call_by_tag tag k = find (λ c. same_text (some c.tag) tag) k.calls

-- The call's object is changed in place.
abbrev pub store : Call → List Call → List Call
store c [] = []
store c (d ∷ ds) = if eqb d.ref c.ref then c ∷ ds else d ∷ store c ds

-- A change of a call of the registry, and its removal if it asks for it.
abbrev pub commit : Changed → Calling → Calling × List Effect
commit r k =
    let k' = record k { calls = store r.call k.calls } in
    (if r.removed then remove_call r.call.ref k' else k', r.effects)

-- `new Call(this, options)`
unfoldable pub create_call : String → CallOptions → Calling → Calling
unfolding add_call
create_call uuid o k = record (add_call (new_call k.next_ref uuid o) k) {
  next_ref = suc k.next_ref;
}

-- The options of a call that the params of a notification make.
abbrev pub options_of : StateParams → CallOptions
options_of p = record {
  call_id = p.call_id;
  node_id = p.node_id;
  device = p.device;
  devices = none;
  peer = none;
  region = none;
  context = p.context;
}

abbrev pub either_call : Option Call → Option Call → Option Call
either_call none d = d
either_call (some c) d = some c

-- A call that has no id yet takes it from its first state.
abbrev pub identify : StateParams → Call → Call
identify p c = if not (ready c) then record c { id = p.call_id; node_id = p.node_id } else c

-- A state of a call that is not known, or that is being dialled to several devices.
abbrev pub unknown_state : String → StateParams → Calling → Calling
unknown_state uuid p k = if text_truthy p.call_id then create_call uuid (options_of p) k else k

abbrev pub found_state : String → StateParams → Option Call → Calling → Calling × List Effect
found_state uuid p none k = (unknown_state uuid p k, [])
found_state uuid p (some c) k =
    if not (is_multi_dial c.options)
    then commit (change (Params.state p) (identify p c)) k
    else (unknown_state uuid p k, [])

-- `_onState`
unfoldable pub on_state : String → StateParams → Calling → Calling × List Effect
unfolding create_call
on_state uuid p k =
    found_state uuid p (either_call (get_call_by_id p.call_id k) (get_call_by_tag p.tag k)) k

-- `if (call) { call._…Change(params) }`
abbrev pub found : Params → Option Call → Calling → Calling × List Effect
found p none k = (k, [])
found p (some c) k = commit (change p c) k

-- `_onDial`
unfoldable pub on_dial : DialParams → Calling → Calling × List Effect
on_dial p k = found (Params.dial p) (get_call_by_tag (some p.tag) k) k

-- `_onConnect`, `_onRecord`, `_onPlay`, `_onCollect`, `_onFax`, `_onDetect`, `_onTap`,
-- `_onSendDigits` and `_onRefer`: the call of `params.call_id`.
unfoldable pub on_call : String → Params → Calling → Calling × List Effect
on_call call_id p k = found p (get_call_by_id (some call_id) k) k

-- `_onReceive`: the new call, and the id that `trigger` is called with.
unfoldable pub on_receive : String → StateParams → Calling → Calling × (Call × String)
unfolding create_call
on_receive uuid p k =
    let o = options_of p in
    let context : String = elim o.context [ none ↦ "undefined" | some s ↦ s ] in
    (create_call uuid o k, (new_call k.next_ref uuid o, concat "calling.ctxReceive." context))

-- `newCall`: an object with devices and a region, or devices alone.
pub data NewCallParams : Type 0 where
  dial_params : Deeps MakeCallParams → Option String → NewCallParams
  devices_only : Deeps MakeCallParams → NewCallParams

abbrev params_devices : NewCallParams → Deeps MakeCallParams
params_devices (dial_params ds region) = ds
params_devices (devices_only ds) = ds

abbrev params_region : NewCallParams → Option String
params_region (dial_params ds region) = if text_truthy region then region else none
params_region (devices_only ds) = none

-- `none` is the error of devices that cannot be dialled.
unfoldable pub create_outbound : String → NewCallParams → Calling → Option (Calling × Call)
unfolding create_call
create_outbound uuid ps k = elim (prepare_dial_devices (params_devices ps)) [
  | none ↦ none
  | some ds ↦
      let o : CallOptions = record {
        call_id = none;
        node_id = none;
        device = none;
        devices = some ds;
        peer = none;
        region = params_region ps;
        context = none;
      } in
      some (create_call uuid o k, new_call k.next_ref uuid o)
]

-- `notificationHandler`, but for calling.call.receive, which is `on_receive`.
unfoldable pub notification : String → Params → Calling → Calling × List Effect
unfolding on_state on_dial on_call
notification uuid (Params.state p) = on_state uuid p
notification uuid (Params.dial p) = on_dial p
notification uuid (Params.connect p) = on_call p.call_id (Params.connect p)
notification uuid (Params.recording p) = on_call p.call_id (Params.recording p)
notification uuid (Params.play p) = on_call p.call_id (Params.play p)
notification uuid (Params.collect p) = on_call p.call_id (Params.collect p)
notification uuid (Params.fax p) = on_call p.call_id (Params.fax p)
notification uuid (Params.detect p) = on_call p.call_id (Params.detect p)
notification uuid (Params.tap p) = on_call p.call_id (Params.tap p)
notification uuid (Params.send_digits p) = on_call p.call_id (Params.send_digits p)
notification uuid (Params.refer p) = on_call p.call_id (Params.refer p)
