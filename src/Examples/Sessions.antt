-- ===== src/Examples/Sessions.antt =====
-- The session's queue, requests and subscriptions at concrete inputs.
use signalwire_node.Common.{◌≡◌, refl, true, false, none, some, List, [], ◌∷◌, ℕ}
use signalwire_node.Common.Dict.{lookup}
use signalwire_node.Handler.{plain, Queue, returned, fetch, trigger_at, global}
use signalwire_node.Handler.Contents.{subscribers}
use signalwire_node.Connection.{
  Reply, message, timed_out, Requests, send, on_message, time_out, opened,
}
use signalwire_node.Connection.Settling.{send-on_message}
use signalwire_node.Session.{Session, Queued, request, raw}
use signalwire_node.Session.Subscriptions.{Subscribed, subscribed}
use signalwire_node.Session.Subscriptions.Links.{IsLinked, subscribed-IsLinked}

abbrev pub resting : Session
resting = record {
  ws = some opened;
  idle = true;
  auto_reconnect = true;
  expires_at = 0;
  relay_protocol = none;
  contexts = [];
  execute_queue = [];
  pong = none;
  do_keep_alive = false;
  reconnect_timer = false;
  keep_alive_timer = false;
}

abbrev messages : List Queued
messages = request 1 ∷ raw "#SPU" ∷ []

abbrev keeps : ℕ → Reply ℕ → Queue → Queue
keeps n d q = q

abbrev none_yet : Requests ℕ
none_yet = record { handlers = record { queue = []; calls = [] }; timers = [] }

send-on_message_example :
    (after : Requests ℕ) × (on_message keeps "message" "u" "m1" 5
        (send keeps "message" "u" false "m1" 3 8 none_yet)
      ≡ some (after, true))
    × (after.handlers.calls ≡ (3, message 5) ∷ [])
    × (time_out keeps "message" "u" "m1" after ≡ some (after, false))
    × (trigger_at keeps "m1" timed_out global after.handlers ≡ returned after.handlers false)
unfolding fetch lookup
send-on_message_example =
    send-on_message keeps (λ n d q. refl) "message" "u" "m1" 3 8 5 timed_out none_yet refl

abbrev pub nothing : Subscribed
nothing = record { subscriptions = []; handlers = [] }

subscribed-IsLinked_example :
    IsLinked "p1" "chat"
      (subscribed "p1" (some (plain 4)) ("old" ∷ []) ("notifications" ∷ []) nothing)
unfolding subscribers fetch lookup
subscribed-IsLinked_example =
    subscribed-IsLinked "p1" "chat" "p1" (some (plain 4)) ("old" ∷ []) ("notifications" ∷ [])
      nothing (λ e. refl)
