-- ===== src/Examples/Browser.antt =====
-- A session in the browser.
use signalwire_node.Common.{differ, ◌≡◌, refl, true, some, [], ◌∷◌}
use signalwire_node.Common.Dict.{lookup}
use signalwire_node.Handler.{fetch, plain}
use signalwire_node.Handler.Contents.{subscribers}
use signalwire_node.Session.Subscriptions.{exists_subscription}
use signalwire_node.Session.Subscriptions.Links.{listed}
use signalwire_node.Browser.{Browser, verto_subscribed, verto_unsubscribed}
use signalwire_node.Browser.RoundTrip.{joined, left, verto_unsubscribed-verto_subscribed}
use signalwire_node.Examples.Webrtc.{rtc_call}
use signalwire_node.Examples.Sessions.{resting, nothing}

abbrev pub browser : Browser
browser = record {
  session = record resting { relay_protocol = some "p" };
  session_id = "s1";
  uuid = "u1";
  subscribed = nothing;
  calls = ("c1", rtc_call) ∷ ("c2", rtc_call) ∷ [];
  auto_recover_calls = true;
  node_id = some "node";
}

verto_unsubscribed-verto_subscribed_example :
    (listed "p" "chat"
        (verto_unsubscribed
          (left "chat")
          (verto_subscribed (some (plain 4)) (joined "chat") browser)).subscribed.subscriptions
      ≡ listed "p" "chat" browser.subscribed.subscriptions)
    × (subscribers "p" "chat"
          (verto_unsubscribed
            (left "chat")
            (verto_subscribed (some (plain 4)) (joined "chat") browser)).subscribed.handlers
        ≡ subscribers "p" "chat" browser.subscribed.handlers)
unfolding exists_subscription lookup subscribers fetch
verto_unsubscribed-verto_subscribed_example =
    verto_unsubscribed-verto_subscribed (some (plain 4)) "chat" browser (differ "chat" "" refl) refl
      refl "p" "chat"

abbrev following : Browser
following = verto_subscribed (some (plain 4)) (joined "chat") browser
