-- ===== src/Browser/RoundTrip.antt =====
-- A channel that is subscribed to and left again.
use signalwire_node.Common.{
  ◌≡◌, ◌≢◌, refl, ap, sym, ◌∙◌, true, false, Option, some, List, [], ◌∷◌, String, arith, eq_iff,
  eq_refl, eq-false,
}
use signalwire_node.Common.Dict.{Dict, lookup}
use signalwire_node.Handler.{Fn}
use signalwire_node.Handler.Contents.{subscribers, same}
use signalwire_node.Session.Subscriptions.{
  Subscribed, exists_subscription, remove_subscription, add_subscription, subscribed, drop_channel,
}
use signalwire_node.Session.Subscriptions.Links.{listed, exists-listed, added}
use signalwire_node.Browser.{
  Browser, relay_key, subscribed_to, verto_subscribed, verto_unsubscribed,
  destruct_subscribe_response,
}
use signalwire_node.Browser.Subscribing.{
  listed-add_subscription, listed-remove_subscription, added_dropped,
}

-- The answers of the server for one channel.
abbrev pub joined : String → Dict (List String)
joined c = ("subscribedChannels", c ∷ []) ∷ []

abbrev pub left : String → Dict (List String)
left c = ("unsubscribedChannels", c ∷ []) ∷ []

there_and_back : Option Fn → String → Browser → Browser
there_and_back handler c b = verto_unsubscribed (left c) (verto_subscribed handler (joined c) b)

there_and_back-subscribed :
    (handler : Option Fn) (c : String) (b : Browser)
    → (there_and_back handler c b).subscribed
      ≡ remove_subscription
          (relay_key b)
          (some c)
          (add_subscription (relay_key b) handler c b.subscribed)
unfolding there_and_back verto_unsubscribed verto_subscribed subscribed destruct_subscribe_response
    lookup
there_and_back-subscribed handler c b = refl

pub same_self : (p c : String) → same p c p c ≡ true
same_self p c = rw (eq_refl p, eq_refl c)

pub add-fresh :
    (p : String) (handler : Option Fn) (c : String) (s : Subscribed)
    → exists_subscription p (some c) s.subscriptions ≡ false
    → add_subscription p handler c s ≡ added p handler c s
unfolding add_subscription
add-fresh p handler c s h = rw h refl

remove-there :
    (p c : String) (s : Subscribed)
    → c ≢ ""
    → exists_subscription p (some c) s.subscriptions ≡ true
    → remove_subscription p (some c) s ≡ drop_channel p c s
unfolding remove_subscription
remove-there p c s n h = rw (h, eq-false c "" n) refl

-- A channel that the session was not subscribed to and that had no callbacks, joined and left again,
-- leaves neither a subscription nor a callback: every channel is listed as before, and every event has
-- its callbacks as before, in order.
pub verto_unsubscribed-verto_subscribed :
    (handler : Option Fn) (c : String) (b : Browser)
    → c ≢ ""
    → subscribed_to c b ≡ false
    → subscribers (relay_key b) c b.subscribed.handlers ≡ []
    → (p' c' : String)
    → (listed p' c'
          (verto_unsubscribed
            (left c)
            (verto_subscribed handler (joined c) b)).subscribed.subscriptions
        ≡ listed p' c' b.subscribed.subscriptions)
      × (subscribers p' c'
            (verto_unsubscribed
              (left c)
              (verto_subscribed handler (joined c) b)).subscribed.handlers
          ≡ subscribers p' c' b.subscribed.handlers)
unfolding there_and_back
verto_unsubscribed-verto_subscribed handler c b n h k p' c' =
    let p = relay_key b in
    let s = b.subscribed in
    let e = there_and_back-subscribed handler c b in
    let a = add-fresh p handler c s h in
    let was = sym (exists-listed p c s.subscriptions n) ∙ h in
    let is : exists_subscription p (some c) (added p handler c s).subscriptions ≡ true =
      exists-listed p c (added p handler c s).subscriptions n
      ∙ ap (λ x. listed p c x.subscriptions) (sym a)
      ∙ listed-add_subscription p handler c p c s n
      ∙ rw (same_self p c) refl in
    (
      ap (λ x. listed p' c' x.subscriptions) e
          ∙ listed-remove_subscription p c p' c' (add_subscription p handler c s) n
          ∙ ground
              (arith, eq_iff p p', eq_iff c c', was, listed-add_subscription p handler c p' c' s n),
      ap (λ x. subscribers p' c' x.handlers)
            (e
              ∙ ap (remove_subscription p (some c)) a
              ∙ remove-there p c (added p handler c s) n is)
          ∙ added_dropped p handler c p' c' s k,
    )
