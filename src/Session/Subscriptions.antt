-- ===== src/Session/Subscriptions.antt =====
-- BaseSession.ts: the subscriptions to protocols and channels, with their callbacks in Handler.
pub mod Links
use signalwire_node.Common.{
  Bool, true, false, not, ◌||◌, Option, none, some, List, [], ◌∷◌, String, ◌==◌, if◌then◌else◌,
}
use signalwire_node.Common.Dict.{Dict, lookup, insert, delete, has}
use signalwire_node.Common.Json.{Json, object}
use signalwire_node.Handler.{Fn, plain, Queue, register, de_register, de_register_all, or_empty}

-- `subscriptions` of the session and the table of Handler.
pub record Subscribed : Type 0 where
  pub subscriptions : Dict (Dict Json)
  pub handlers : Queue

-- `_existsSubscription`; the channel may be missing, and an empty one is as good as none.
unfoldable pub exists_subscription : String → Option String → Dict (Dict Json) → Bool
exists_subscription protocol channel subs = elim (lookup protocol subs) [
  | none ↦ false
  | some channels ↦ elim channel [ none ↦ true | some c ↦ (c == "") || has c channels ]
]

-- `delete this.subscriptions[protocol][channel]`
abbrev pub drop_from : String → String → Option (Dict Json) → Dict (Dict Json) → Dict (Dict Json)
drop_from protocol channel none subs = subs
drop_from protocol channel (some channels) subs = insert protocol (delete channel channels) subs

abbrev pub drop_channel : String → String → Subscribed → Subscribed
drop_channel protocol channel s = record {
  subscriptions = drop_from protocol channel (lookup protocol s.subscriptions) s.subscriptions;
  handlers = (de_register protocol none channel s.handlers).0;
}

abbrev pub drop_protocol : String → Subscribed → Subscribed
drop_protocol protocol s = record {
  subscriptions = delete protocol s.subscriptions;
  handlers = de_register_all protocol s.handlers;
}

abbrev pub drop_one : String → Option String → Subscribed → Subscribed
drop_one protocol none s = drop_protocol protocol s
drop_one protocol (some c) s =
    if c == "" then drop_protocol protocol s else drop_channel protocol c s

-- `_removeSubscription`
unfoldable pub remove_subscription : String → Option String → Subscribed → Subscribed
unfolding exists_subscription
remove_subscription protocol channel s =
    if not (exists_subscription protocol channel s.subscriptions)
    then s
    else drop_one protocol channel s

-- `_addSubscription`; `handler` is `none` where it is no function.
abbrev pub put_channel : String → String → Dict (Dict Json) → Dict (Dict Json)
put_channel protocol channel subs =
    insert protocol (insert channel (object []) (or_empty (lookup protocol subs))) subs

abbrev pub with_handler : String → Option Fn → String → Queue → Queue
with_handler protocol none channel q = q
with_handler protocol (some fn) channel q = register protocol fn channel q

unfoldable pub add_subscription : String → Option Fn → String → Subscribed → Subscribed
unfolding exists_subscription
add_subscription protocol handler channel s =
    if exists_subscription protocol (some channel) s.subscriptions then s else record {
      subscriptions = put_channel protocol channel s.subscriptions;
      handlers = with_handler protocol handler channel s.handlers;
    }

abbrev pub remove_all : String → List String → Subscribed → Subscribed
remove_all protocol [] s = s
remove_all protocol (c ∷ cs) s = remove_all protocol cs (remove_subscription protocol (some c) s)

abbrev pub add_all : String → Option Fn → List String → Subscribed → Subscribed
add_all protocol handler [] s = s
add_all protocol handler (c ∷ cs) s =
    add_all protocol handler cs (add_subscription protocol handler c s)

-- `subscribe`, when the server has answered with the channels that failed and those that did not.
unfoldable pub subscribed : String → Option Fn → List String → List String → Subscribed → Subscribed
unfolding remove_subscription add_subscription
subscribed protocol handler failed channels s =
    add_all protocol handler channels (remove_all protocol failed s)

-- `for (const sub in this.subscriptions) { deRegisterAll(sub) }`
abbrev pub de_register_each : Dict (Dict Json) → Queue → Queue
de_register_each [] q = q
de_register_each ((protocol, channels) ∷ rest) q =
    de_register_each rest (de_register_all protocol q)

-- What `_onSocketCloseOrError` does to them.
unfoldable pub close_subscriptions : Option String → Subscribed → Subscribed
close_subscriptions relay_protocol s = record {
  subscriptions = [];
  handlers = de_register_each s.subscriptions (elim relay_protocol [
    | none ↦ s.handlers
    | some p ↦ if p == "" then s.handlers else de_register_all p s.handlers
  ]);
}
