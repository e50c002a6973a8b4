-- ===== src/Examples/Verto.antt =====
-- Verto messages to a session with two calls.
use signalwire_node.Common.{
  differ, ◌≡◌, ◌≢◌, refl, true, false, not, ◌&&◌, none, some, [], ◌∷◌, String, arith, includes,
  ◌==◌, if◌then◌else◌,
}
use signalwire_node.Common.Dict.{lookup}
use signalwire_node.Webrtc.{RtcCall, destroy}
use signalwire_node.Browser.{Browser, subscribed_to, destruct_subscribe_response}
use signalwire_node.Verto.{Method, VertoMessage, handle_message, call_step}
use signalwire_node.Verto.Table.{handle_message-AllLive}
use signalwire_node.Verto.Open.{AllLive}
use signalwire_node.Verto.Answered.{replies, listed_call, handle_message-known}
use signalwire_node.Verto.LiveArray.{parted}
use signalwire_node.Verto.LiveArray.Parting.{left_channels, parted-forgets}
use signalwire_node.Examples.Webrtc.{rtc_call}
use signalwire_node.Examples.Browser.{browser}

abbrev message : Method → VertoMessage
message m = record {
  id = 7;
  method = m;
  call_id = some "c1";
  event_channel = none;
  content_type = "";
}

not_destroyed : rtc_call.state ≢ destroy
not_destroyed e = ground arith

browser-AllLive : AllLive browser
browser-AllLive = ((refl, not_destroyed), ((refl, not_destroyed), tt))

handle_message-AllLive_example :
    AllLive (handle_message (message (Method.bye none none)) "new" browser).browser
handle_message-AllLive_example =
    handle_message-AllLive (message (Method.bye none none)) "new" browser browser-AllLive

handle_message-known_example :
    ((handle_message (message Method.info) "new" browser).outputs
      ≡ replies (message Method.info) "c1" (call_step Method.info rtc_call))
    × ((handle_message (message Method.info) "new" browser).thrown
        ≡ (call_step Method.info rtc_call).thrown)
    × ((j : String)
        → lookup j (handle_message (message Method.info) "new" browser).browser.calls ≡ (
            if "c1" == j
            then listed_call (call_step Method.info rtc_call).call
            else lookup j browser.calls))
unfolding lookup
handle_message-known_example =
    handle_message-known (message Method.info) "new" "c1" rtc_call browser refl
      (differ "c1" "" refl) refl refl refl

abbrev member : RtcCall
member = record rtc_call { channels = "la" ∷ "chat" ∷ [] }

abbrev in_conference : Browser
in_conference = record browser { calls = ("c1", member) ∷ [] }

parted-forgets_example :
    (includes (left_channels (("unsubscribedChannels", "la" ∷ []) ∷ [])) "la" ≡ true
      → subscribed_to "la"
          (parted (some "c1") (("unsubscribedChannels", "la" ∷ []) ∷ []) in_conference)
        ≡ false)
    × ((after : RtcCall) × (lookup "c1"
            (parted (some "c1") (("unsubscribedChannels", "la" ∷ []) ∷ []) in_conference).calls
          ≡ some after)
        × (includes after.channels "la" ≡ (
            includes member.channels "la"
            && not (includes (left_channels (("unsubscribedChannels", "la" ∷ []) ∷ [])) "la"))))
unfolding lookup destruct_subscribe_response
parted-forgets_example =
    parted-forgets "c1" (("unsubscribedChannels", "la" ∷ []) ∷ []) member in_conference "la" refl
      (differ "la" "" refl, tt) tt (differ "la" "" refl)
