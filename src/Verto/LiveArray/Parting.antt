-- ===== src/Verto/LiveArray/Parting.antt =====
-- A call that has left a live array.
use signalwire_node.Common.{
  ◌≡◌, ◌≢◌, refl, ap, ◌∙◌, true, false, not, ◌&&◌, some, List, String, arith, eq_refl, includes,
  keep,
}
use signalwire_node.Common.Dict.{Dict, lookup, lookup-insert}
use signalwire_node.Handler.{or_empty}
use signalwire_node.Webrtc.{RtcCall}
use signalwire_node.Browser.{
  Browser, subscribed_to, verto_unsubscribed, destruct_subscribe_response,
}
use signalwire_node.Browser.Subscribing.{includes-keep, Named, verto_unsubscribed-subscribed_to}
use signalwire_node.Verto.LiveArray.{parted, forget}

-- The channels that an answer says were left.
abbrev pub left_channels : Dict (List String) → List String
left_channels response = or_empty (lookup "unsubscribedChannels" response)

unsubscribed-calls :
    (response : Dict (List String)) (b : Browser) → (verto_unsubscribed response b).calls ≡ b.calls
unfolding verto_unsubscribed
unsubscribed-calls response b = refl

lookup-forget :
    (gone : List String) (id : String) (c : RtcCall) (calls : Dict RtcCall)
    → lookup id calls ≡ some c
    → lookup id (forget gone (lookup id calls) id calls)
      ≡ some (record c { channels = keep (λ ch. not (includes gone ch)) c.channels })
lookup-forget gone id c calls h =
    let c' = record c { channels = keep (λ ch. not (includes gone ch)) c.channels } in
    rw h (lookup-insert id id c' calls ∙ rw (eq_refl id) refl)

parted-found :
    (id : String) (response : Dict (List String)) (c : RtcCall) (b : Browser)
    → lookup id b.calls ≡ some c
    → lookup id (parted (some id) response b).calls
      ≡ some (record c {
        channels = keep (λ ch. not (includes (left_channels response) ch)) c.channels;
      })
unfolding parted
parted-found id response c b h =
    lookup-forget (left_channels response) id c (verto_unsubscribed response b).calls
      (ap (lookup id) (unsubscribed-calls response b) ∙ h)

-- When the server has answered that a call has left channels of a conference, the session is
-- subscribed to none of them any more, and the call keeps exactly its other channels.
pub parted-forgets :
    (id : String) (response : Dict (List String)) (c : RtcCall) (b : Browser) (channel : String)
    → lookup id b.calls ≡ some c
    → Named (left_channels response)
    → Named (destruct_subscribe_response response).not_subscribed
    → channel ≢ ""
    → (includes (left_channels response) channel ≡ true
        → subscribed_to channel (parted (some id) response b) ≡ false)
      × ((after : RtcCall) × (lookup id (parted (some id) response b).calls ≡ some after)
          × (includes after.channels channel
              ≡ (includes c.channels channel && not (includes (left_channels response) channel))))
unfolding parted destruct_subscribe_response
parted-forgets id response c b channel h k m n = (
  (λ e. verto_unsubscribed-subscribed_to response b channel k m n ∙ ground (arith, e)),
  (
    _,
    parted-found id response c b h,
    includes-keep (λ ch. not (includes (left_channels response) ch)) c.channels channel,
  ),
)
