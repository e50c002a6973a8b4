-- ===== src/Browser.antt =====
-- packages/common/src/BrowserSession.ts: the calls of a session in the browser and its Verto
-- subscriptions; with webrtc/helpers.ts, what an answer to a subscription says.
pub mod Calls
pub mod Subscribing
pub mod RoundTrip
pub mod Settings
use signalwire_node.Common.{
  ℕ, Bool, true, false, not, ◌&&◌, ◌||◌, Option, none, some, List, [], ◌∷◌, ◌++◌, String, ◌==◌,
  if◌then◌else◌, keep, includes,
}
use signalwire_node.Common.Dict.{Dict, lookup, insert, delete, has}
use signalwire_node.Handler.{Fn, or_empty}
use signalwire_node.Session as Session
use signalwire_node.Session.{Session}
use signalwire_node.Session.Subscriptions.{
  Subscribed, exists_subscription, remove_subscription, add_subscription, remove_all, add_all,
  subscribed,
}
use signalwire_node.Webrtc.{RtcCall, Step, Effect, set_state, purge}

-- `calls` holds the objects by their ids; a call's `registered` says that it is there. `node_id` is the
-- `nodeId` of the VertoHandler of the session.
pub record Browser : Type 0 where
  pub session : Session
  pub session_id : String
  pub uuid : String
  pub subscribed : Subscribed
  pub calls : Dict RtcCall
  pub auto_recover_calls : Bool
  pub node_id : Option String

-- `relayProtocol`, as the key of an object.
abbrev pub relay_key : Browser → String
relay_key b = elim b.session.relay_protocol [ none ↦ "null" | some p ↦ p ]

abbrev pub subscribed_to : String → Browser → Bool
subscribed_to channel b =
    exists_subscription (relay_key b) (some channel) b.subscribed.subscriptions

-- What an answer to a subscription lists.
pub record SubscribeResult : Type 0 where
  pub subscribed : List String
  pub already_subscribed : List String
  pub unauthorized : List String
  pub unsubscribed : List String
  pub not_subscribed : List String

-- `destructSubscribeResponse`: a list that is missing is empty.
unfoldable pub destruct_subscribe_response : Dict (List String) → SubscribeResult
unfolding lookup
destruct_subscribe_response response = record {
  subscribed = or_empty (lookup "subscribedChannels" response);
  already_subscribed = or_empty (lookup "alreadySubscribedChannels" response);
  unauthorized = or_empty (lookup "unauthorizedChannels" response);
  unsubscribed = or_empty (lookup "unsubscribedChannels" response);
  not_subscribed = or_empty (lookup "notSubscribedChannels" response);
}

-- `checkSubscribeResponse`; `none` is the answer of a subscription that failed.
unfoldable pub check_subscribe_response : Option (Dict (List String)) → String → Bool
unfolding destruct_subscribe_response
check_subscribe_response none channel = false
check_subscribe_response (some response) channel =
    let r = destruct_subscribe_response response in
    includes r.subscribed channel || includes r.already_subscribed channel

-- The channels that `vertoSubscribe` asks for; it sends nothing if there is none.
unfoldable pub to_subscribe : List String → Browser → List String
unfolding exists_subscription
to_subscribe channels b = keep (λ c. not (c == "") && not (subscribed_to c b)) channels

-- The rest of `vertoSubscribe`, when the server has answered.
unfoldable pub verto_subscribed : Option Fn → Dict (List String) → Browser → Browser
unfolding subscribed destruct_subscribe_response
verto_subscribed handler response b =
    let r = destruct_subscribe_response response in
    record b {
      subscribed = subscribed (relay_key b) handler r.unauthorized r.subscribed b.subscribed;
    }

-- The channels that `vertoUnsubscribe` asks to leave.
unfoldable pub to_unsubscribe : List String → Browser → List String
unfolding exists_subscription
to_unsubscribe channels b = keep (λ c. not (c == "") && subscribed_to c b) channels

-- The rest of `vertoUnsubscribe`.
unfoldable pub verto_unsubscribed : Dict (List String) → Browser → Browser
unfolding remove_subscription destruct_subscribe_response
verto_unsubscribed response b =
    let r = destruct_subscribe_response response in
    record b {
      subscribed =
          remove_all (relay_key b) r.not_subscribed
            (remove_all (relay_key b) r.unsubscribed b.subscribed);
    }

-- `vertoBroadcast` throws without a channel.
unfoldable pub verto_broadcast : String → Option String
verto_broadcast channel = if channel == "" then none else some channel

-- What an operation on a call does to the table, where the call forgets itself in `_finalize`.
abbrev pub put_call : String → RtcCall → Dict RtcCall → Dict RtcCall
put_call id c calls = if c.registered then insert id c calls else delete id calls

-- `this.calls[k].setState(State.Purge)` of each key that is there at the start; a key that is gone by
-- then would be a TypeError, which ends the walk; calls that share no screen do not have one.
unfoldable pub purge_each : List String → Dict RtcCall → Dict RtcCall × List (String × Step)
unfolding set_state
purge_each [] calls = (calls, [])
purge_each (k ∷ ks) calls = elim (lookup k calls) [
  | none ↦ (calls, [])
  | some c ↦
      let step = set_state purge c in
      let (calls', steps) = purge_each ks (put_call k step.call calls) in
      (calls', (k, step) ∷ steps)
]

abbrev pub keys {ℓ} : {V : Type ℓ} → Dict V → List String
keys [] = []
keys ((k, v) ∷ m) = k ∷ keys m

-- `disconnect`, with what it does to each call, if none shares its screen; BaseSession drops the subscriptions.
unfoldable pub disconnect : Browser → Browser × List (String × Step)
unfolding purge_each Session.disconnect
disconnect b =
    let (calls, steps) = purge_each (keys b.calls) b.calls in
    (
      record b {
        calls = [];
        session = Session.disconnect b.session;
        subscribed = record b.subscribed { subscriptions = [] };
      },
      steps,
    )

-- Which of the overrides are given to the session, in `validateOptions`; its last argument is what
-- BaseSession's own check says.
pub record Overrides : Type 0 where
  pub peer_connection : Bool
  pub get_display_media : Bool
  pub get_user_media : Bool
  pub attach_media_stream : Bool
  pub stream_is_valid : Bool

unfoldable pub validate_options : Overrides → Bool → Bool
validate_options o base =
    ((not o.peer_connection
        && not o.get_display_media
        && not o.get_user_media
        && not o.attach_media_stream
        && not o.stream_is_valid)
      || (o.peer_connection && o.get_display_media && o.get_user_media && o.attach_media_stream
          && o.stream_is_valid))
    && base
