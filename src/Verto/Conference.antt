-- ===== src/Verto/Conference.antt =====
-- packages/common/src/webrtc/BaseCall.ts and webrtc/LayoutHandler.ts: what a call makes of the updates of
-- its conference, the channels that it joins for it, and the commands of a moderator. `M` is what
-- `mutateLiveArrayData` makes of a member. A channel that is missing is the empty text; the entry of
-- `_addChannel` in the subscriptions is that of add_channel in Verto/LiveArray.
pub mod Commands
pub mod Overriding
pub mod Moderating
use signalwire_node.Common.{
  ℕ, zero, suc, Bool, true, false, not, ◌&&◌, ◌||◌, Option, none, some, List, [], ◌∷◌, ◌++◌, String,
  ◌==◌, if◌then◌else◌,
}
use signalwire_node.Common.Dict.{Dict, lookup, delete}
use signalwire_node.Common.Json.{Json, ℤ}
use signalwire_node.Webrtc.{RtcCall, check_conference_serno}
use signalwire_node.Verto.LiveArray.{push_channel}

-- `hashKey` of a packet, or the serial number that stands for one that is missing.
pub data CallId : Type 0 where
  hash : String → CallId
  serno : ℕ → CallId

-- Where a notification goes: to the listeners of the call, or of the session.
pub data Target : Type 0 where
  call_listeners session_listeners : Target

-- `_dispatchNotification`; `heard` says that `trigger` has found a listener of the call.
unfoldable pub dispatch_notification : Bool → Bool → List Target
dispatch_notification screen_share heard =
    if screen_share then [] else call_listeners ∷ (if heard then [] else session_listeners ∷ [])

-- A call in a conference: beside the call itself its role, and the channels of the chat and of the
-- moderator's commands that have been defined on it.
pub record Member : Type 0 where
  pub call : RtcCall
  pub role : String
  pub chat : Option String
  pub commands : Option String

-- `initialPvtData`
pub record Conference : Type 0 where
  pub la_name : String
  pub chat_channel : String
  pub info_channel : String
  pub mod_channel : String
  pub member_id : ℕ
  pub role : String

abbrev pub moderator : String
moderator = "moderator"

abbrev with_channel : String → Member → Member
with_channel channel m = record m {
  call = record m.call { channels = push_channel channel m.call.channels };
}

-- `_subscribeConferenceChat`, `_subscribeConferenceInfo` and `_subscribeConferenceModerator`, when
-- `checkSubscribeResponse` has judged the answer.
unfoldable pub subscribe_chat : String → Bool → Member → Member
subscribe_chat channel ok m =
    if ok then record (with_channel channel m) { chat = some channel } else m

unfoldable pub subscribe_info : String → Bool → Member → Member
subscribe_info channel ok m = if ok then with_channel channel m else m

unfoldable pub subscribe_moderator : String → Bool → Member → Member
subscribe_moderator channel ok m =
    if ok then record (with_channel channel m) { role = moderator; commands = some channel } else m

-- The three, as a 'bootObj' makes them one after the other; `answers` says of each channel whether its
-- answer is good.
unfoldable pub join_channels : (String → Bool) → Conference → Member → Member
unfolding subscribe_chat subscribe_info subscribe_moderator
join_channels answers conf m0 =
    let m1 =
      if conf.chat_channel == ""
      then m0
      else subscribe_chat conf.chat_channel (answers conf.chat_channel) m0 in
    let m2 =
      if conf.info_channel == ""
      then m1
      else subscribe_info conf.info_channel (answers conf.info_channel) m1 in
    if not (conf.mod_channel == "") && (conf.role == moderator)
    then subscribe_moderator conf.mod_channel (answers conf.mod_channel) m2
    else m2

-- `switch (contentType)` of MCULayoutEventHandler: the canvas, where a canvas that is not personal
-- loses its member, before its keys are renamed; no content of another type is passed on.
unfoldable pub layout_event : String → String → Dict Json → Option (String × Dict Json)
unfolding delete
layout_event content_type canvas_type canvas_info =
    let canvas =
      if canvas_type == "mcu-personal-canvas" then canvas_info else delete "memberID" canvas_info in
    if content_type == "layer-info"
    then some ("layerInfo", canvas)
    else (if content_type == "layout-info" then some ("layoutInfo", canvas) else none)

-- `action` and `data` of a packet, and the other fields of those that carry a member.
pub data Action (M : Type 0) : Type 0 where
  boot : List (String × M) → Action M
  add modify del : Option String → ℕ → M → Action M
  clear : Action M
  other : String → Action M

-- What `_dispatchConferenceUpdate` is told.
pub data Update (M : Type 0) : Type 0 where
  join : String → ℕ → String → Update M
  bootstrap : List (String × ℕ × M) → Update M
  added modified deleted : CallId → ℕ → M → Update M
  cleared : Update M
  unknown : String → Update M

-- `for (const i in data)`, from an index on.
unfoldable pub participants : {M : Type 0} → ℕ → List (String × M) → List (String × ℕ × M)
participants i [] = []
participants i ((call_id, member) ∷ rest) = (call_id, i, member) ∷ participants (suc i) rest

abbrev pub call_id : Option String → RtcCall → CallId
call_id none c = serno c.last_serno
call_id (some key) c = hash key

-- The `switch` of `handleConferenceUpdate`.
unfoldable pub update :
    {M : Type 0} → Action M → Conference → (String → Bool) → Member → Member × List (Update M)
unfolding join_channels participants
update (boot ms) conf answers m = (
  join_channels answers conf (record m { call = record m.call { last_serno = 0 } }),
  join conf.la_name conf.member_id conf.role ∷ bootstrap (participants 0 ms) ∷ [],
)
update (add key index data') conf answers m = (m, added (call_id key m.call) index data' ∷ [])
update (modify key index data') conf answers m = (m, modified (call_id key m.call) index data' ∷ [])
update (del key index data') conf answers m = (m, deleted (call_id key m.call) index data' ∷ [])
update clear conf answers m = (m, cleared ∷ [])
update (other action) conf answers m = (m, unknown action ∷ [])

-- `handleConferenceUpdate`: `none` is 'INVALID_PACKET'.
unfoldable pub handle_conference_update :
    {M : Type 0}
    → ℤ
    → String
    → Action M
    → Conference
    → (String → Bool)
    → Member
    → Member × Option (List (Update M))
unfolding update check_conference_serno
handle_conference_update wire_serno name action conf answers m =
    let (checked, call) = check_conference_serno wire_serno m.call in
    let m' = record m { call = call } in
    if not checked && not (name == conf.la_name)
    then (m', none)
    else (let (after, updates) = update action conf answers m' in (after, some updates))
