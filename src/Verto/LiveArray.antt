-- ===== src/Verto/LiveArray.antt =====
-- packages/common/src/webrtc/VertoHandler.ts: the private events by which a call joins and leaves the
-- live array of a conference, and the packets of the array (handleConferenceUpdate of BaseCall.ts).
pub mod Packets
pub mod Parting
use signalwire_node.Common.{
  ℕ, Bool, true, false, not, ◌&&◌, ◌||◌, Option, none, some, List, [], ◌∷◌, ◌++◌, String, ◌==◌,
  if◌then◌else◌, includes, keep,
}
use signalwire_node.Common.Dict.{Dict, lookup, insert, delete, has, is_some}
use signalwire_node.Common.Json.{Json, Fields, ℤ}
use signalwire_node.Handler.{Fn, Queue, or_empty, is_nil, fetch, de_register}
use signalwire_node.Session.Subscriptions.{Subscribed, exists_subscription}
use signalwire_node.Webrtc.{RtcCall, check_conference_serno}
use signalwire_node.Browser.{
  Browser, relay_key, subscribed_to, to_subscribe, to_unsubscribe, verto_subscribed,
  verto_unsubscribed, check_subscribe_response, verto_broadcast, keys,
}
use signalwire_node.Verto.{notification}

-- A text that is missing is empty.
pub record PvtData : Type 0 where
  pub la_channel : String
  pub la_name : String
  pub chat_channel : String
  pub info_channel : String
  pub mod_channel : String
  pub call_id : String

-- `boot` has the call ids of the data of a 'bootObj', and is `none` for any other action.
pub record Packet : Type 0 where
  pub boot : Option (List String)
  pub wire_serno : ℤ
  pub name : String

-- `conference-liveArray-join`: what is asked for, and then, when the server has answered, whether the
-- bootstrap is broadcast. `none` is the answer of a subscription that failed.
unfoldable pub join_request : PvtData → Browser → List String
unfolding to_subscribe
join_request pvt b = to_subscribe (pvt.la_channel ∷ []) b

unfoldable pub join_answered :
    PvtData → Fn → Option (Dict (List String)) → Browser → Browser × Option String
unfolding verto_subscribed check_subscribe_response verto_broadcast
join_answered pvt handler none b = (b, none)
join_answered pvt handler (some response) b = (
  verto_subscribed (some handler) response b,
  if check_subscribe_response (some response) pvt.la_channel
      then verto_broadcast pvt.la_channel
      else none,
)

abbrev pub first_in : List String → List String → Option String
first_in known [] = none
first_in known (id ∷ ids) = if includes known id then some id else first_in known ids

abbrev pub with_channel : String → Dict RtcCall → Option String
with_channel channel [] = none
with_channel channel ((id, c) ∷ calls) =
    if includes c.channels channel then some id else with_channel channel calls

-- `_retrieveCallId`
unfoldable pub retrieve_call_id : Packet → String → Browser → Option String
retrieve_call_id packet la_channel b = elim packet.boot [
  | none ↦ with_channel la_channel b.calls
  | some ids ↦ first_in (keys b.calls) ids
]

-- `{ ...subscription, callId: id }`
abbrev pub set_field : String → Json → Fields → Fields
set_field name given Fields.end = Fields.field name given Fields.end
set_field name given (Fields.field own held others) =
    if own == name
    then Fields.field own given others
    else Fields.field own held (set_field name given others)

abbrev pub with_call_id : String → Json → Json
with_call_id id (Json.obj others) = Json.obj (set_field "callId" (Json.str id) others)
with_call_id id other = Json.obj (Fields.field "callId" (Json.str id) Fields.end)

abbrev pub push_channel : String → List String → List String
push_channel channel channels =
    if includes channels channel then channels else channels ++ channel ∷ []

abbrev or_undefined : Option Json → Json
or_undefined none = Json.undefined
or_undefined (some j) = j

-- `_addChannel` of the call of an id.
unfoldable pub add_channel : String → RtcCall → String → Browser → Browser
unfolding exists_subscription lookup insert
add_channel id c channel b =
    let p = relay_key b in
    let own = or_empty (lookup p b.subscribed.subscriptions) in
    let b' = record b {
      calls = insert id (record c { channels = push_channel channel c.channels }) b.calls;
    } in
    if subscribed_to channel b
    then record b' {
      subscribed = record b.subscribed {
        subscriptions =
            insert p (insert channel (with_call_id id (or_undefined (lookup channel own))) own)
              b.subscribed.subscriptions;
      };
    }
    else b'

-- `handleConferenceUpdate`: whether the packet is valid, and the serial numbers afterwards.
unfoldable pub conference_update : Packet → String → RtcCall → Bool × RtcCall
unfolding check_conference_serno
conference_update packet la_name c =
    let (checked, c') = check_conference_serno packet.wire_serno c in
    if not checked && not (packet.name == la_name)
    then (false, c')
    else (true, if is_some packet.boot then record c' { last_serno = 0 } else c')

abbrev pub packet_call : PvtData → Packet → Browser → Option String
packet_call pvt packet b =
    if pvt.call_id == "" then retrieve_call_id packet pvt.la_channel b else some pvt.call_id

abbrev apply_packet : PvtData → Packet → String → Option RtcCall → Browser → Browser × Option String
apply_packet pvt packet id none b = (b, none)
apply_packet pvt packet id (some c) b =
    let c1 = record c { channels = push_channel pvt.la_channel c.channels } in
    let (valid, c') = conference_update packet pvt.la_name c1 in
    let b' = add_channel id c pvt.la_channel b in
    (
      record b' { calls = insert id c' b'.calls },
      if valid then none else verto_broadcast pvt.la_channel,
    )

-- The handler of the live array's packets: a packet that is not valid asks for another bootstrap.
unfoldable pub on_packet : PvtData → Packet → Browser → Browser × Option String
unfolding retrieve_call_id add_channel conference_update lookup insert
on_packet pvt packet b = elim (packet_call pvt packet b) [
  | none ↦ (b, none)
  | some id ↦ apply_packet pvt packet id (lookup id b.calls) b
]

-- The call id that a subscription keeps; `null` if it has none.
abbrev pub field_text : String → Fields → Option String
field_text name Fields.end = none
field_text name (Fields.field own (Json.str t) others) =
    if own == name then some t else field_text name others
field_text name (Fields.field own held others) = field_text name others

abbrev pub call_id_of : Option Json → Option String
call_id_of (some (Json.obj others)) = field_text "callId" others
call_id_of o = none

unfoldable pub subscription_call : String → Browser → Option String
unfolding lookup
subscription_call channel b =
    call_id_of (lookup channel (or_empty (lookup (relay_key b) b.subscribed.subscriptions)))

-- `conference-liveArray-part` up to the request: the unique id under which the notification is
-- triggered, if it is, the session without the callbacks of a call that is gone, and the channels that
-- are asked to be left.
abbrev is_there : Option (List Fn) → Bool
is_there none = false
is_there (some fns) = not (is_nil fns)

abbrev pub parted_from : Option String → Browser → Browser × Option String
parted_from none b = (b, none)
parted_from (some id) b =
    let target = if is_there (fetch notification id b.subscribed.handlers) then id else b.uuid in
    (
      elim (lookup id b.calls) [
        | none ↦ record b {
          subscribed = record b.subscribed {
            handlers = (de_register notification none id b.subscribed.handlers).0;
          };
        }
        | some c ↦ b
      ],
      some target,
    )

unfoldable pub part : PvtData → Browser → Browser × Option String × List String
unfolding subscription_call exists_subscription to_unsubscribe lookup fetch
part pvt b =
    let (b', target) =
      if not (pvt.la_channel == "") && subscribed_to pvt.la_channel b
      then parted_from (subscription_call pvt.la_channel b) b
      else (b, none) in
    (
      b',
      target,
      to_unsubscribe (pvt.la_channel ∷ pvt.chat_channel ∷ pvt.info_channel ∷ pvt.mod_channel ∷ [])
          b',
    )

-- The rest, when the server has answered: the call that the channel belonged to forgets what was left.
abbrev pub forget : List String → Option RtcCall → String → Dict RtcCall → Dict RtcCall
forget gone none id calls = calls
forget gone (some c) id calls =
    insert id (record c { channels = keep (λ ch. not (includes gone ch)) c.channels }) calls

unfoldable pub parted : Option String → Dict (List String) → Browser → Browser
unfolding verto_unsubscribed lookup insert
parted owner response b =
    let b' = verto_unsubscribed response b in
    elim owner [
      | none ↦ b'
      | some id ↦ record b' {
        calls =
            forget (or_empty (lookup "unsubscribedChannels" response)) (lookup id b'.calls) id
              b'.calls;
      }
    ]
