-- ===== src/Browser/Subscribing.antt =====
-- What the session is subscribed to after the server has answered, and after it has left again.
use signalwire_node.Common.{
  All, ◌≡◌, ◌≢◌, refl, ap, sym, ◌∙◌, Bool, true, false, not, ◌&&◌, ◌||◌, Option, none, some, List,
  [], ◌∷◌, String, arith, ◌==◌, eq_iff, eq-false, if◌then◌else◌, keep, includes, Bool-cases, inl,
  inr,
}
use signalwire_node.Common.Dict.{Dict, lookup}
use signalwire_node.Handler.{Fn}
use signalwire_node.Handler.Contents.{
  subscribers, same, subscribers-register, subscribers-de_register_none,
}
use signalwire_node.Session.Subscriptions.{
  Subscribed, exists_subscription, remove_subscription, add_subscription, remove_all, add_all,
  subscribed, drop_channel,
}
use signalwire_node.Session.Subscriptions.Links.{
  listed, exists-listed, listed-drop_from, listed-put_channel, added,
}
use signalwire_node.Browser.{
  Browser, relay_key, subscribed_to, to_subscribe, verto_subscribed, verto_unsubscribed,
  destruct_subscribe_response,
}

pub includes-keep :
    (p : String → Bool) (xs : List String) (c : String)
    → includes (keep p xs) c ≡ (includes xs c && p c)
includes-keep p [] c = refl
includes-keep p (x ∷ xs) c = ground (arith, includes-keep p xs c, eq_iff x c)

-- Of the channels given, exactly those are asked for that are not empty and not subscribed to.
pub to_subscribe-asks :
    (channels : List String) (b : Browser) (c : String)
    → includes (to_subscribe channels b) c
      ≡ (includes channels c && (not (c == "") && not (subscribed_to c b)))
unfolding to_subscribe
to_subscribe-asks channels b c =
    includes-keep (λ x. not (x == "") && not (subscribed_to x b)) channels c

pub listed-remove_subscription :
    (p c p' c' : String) (s : Subscribed)
    → c ≢ ""
    → listed p' c' (remove_subscription p (some c) s).subscriptions
      ≡ (if same p c p' c' then false else listed p' c' s.subscriptions)
unfolding remove_subscription
listed-remove_subscription p c p' c' s h =
    elim (Bool-cases (exists_subscription p (some c) s.subscriptions)) [
      | inl e ↦
          rw (e, eq-false c "" h)
            (listed-drop_from p c p' c' (lookup p s.subscriptions) s.subscriptions refl)
      | inr e ↦
          rw e (
            ground (arith, eq_iff p p', eq_iff c c', sym (exists-listed p c s.subscriptions h) ∙ e))
    ]

pub listed-add_subscription :
    (p : String) (handler : Option Fn) (c p' c' : String) (s : Subscribed)
    → c ≢ ""
    → listed p' c' (add_subscription p handler c s).subscriptions
      ≡ (if same p c p' c' then true else listed p' c' s.subscriptions)
unfolding add_subscription
listed-add_subscription p handler c p' c' s h =
    elim (Bool-cases (exists_subscription p (some c) s.subscriptions)) [
      | inl e ↦
          rw e (
            ground (arith, eq_iff p p', eq_iff c c', sym (exists-listed p c s.subscriptions h) ∙ e))
      | inr e ↦ rw e (listed-put_channel p c p' c' s.subscriptions)
    ]

-- The channels of an answer have names.
abbrev pub Named : List String → Type 0
Named = All (λ c. c ≢ "")

listed-remove_all :
    (p : String) (cs : List String) (c : String) (s : Subscribed)
    → Named cs
    → listed p c (remove_all p cs s).subscriptions
      ≡ (not (includes cs c) && listed p c s.subscriptions)
listed-remove_all p [] c s h = refl
listed-remove_all p (x ∷ cs) c s (a, h) = ground (
  arith,
  eq_iff x c,
  eq_iff p p,
  listed-remove_subscription p x p c s a,
  listed-remove_all p cs c (remove_subscription p (some x) s) h,
)

listed-add_all :
    (p : String) (handler : Option Fn) (cs : List String) (c : String) (s : Subscribed)
    → Named cs
    → listed p c (add_all p handler cs s).subscriptions
      ≡ (includes cs c || listed p c s.subscriptions)
listed-add_all p handler [] c s h = refl
listed-add_all p handler (x ∷ cs) c s (a, h) = ground (
  arith,
  eq_iff x c,
  eq_iff p p,
  listed-add_subscription p handler x p c s a,
  listed-add_all p handler cs c (add_subscription p handler x s) h,
)

-- After the answer to a subscription the session is subscribed to what the answer lists as
-- subscribed, and to what it was subscribed to before and the answer does not refuse.
verto_subscribed-subscribed_to :
    (handler : Option Fn) (response : Dict (List String)) (b : Browser) (c : String)
    → Named (destruct_subscribe_response response).subscribed
    → Named (destruct_subscribe_response response).unauthorized
    → c ≢ ""
    → subscribed_to c (verto_subscribed handler response b) ≡ (
        includes (destruct_subscribe_response response).subscribed c
        || (not (includes (destruct_subscribe_response response).unauthorized c)
            && subscribed_to c b))
unfolding verto_subscribed subscribed
verto_subscribed-subscribed_to handler response b c h k n =
    let r = destruct_subscribe_response response in
    let p = relay_key b in
    let s = remove_all p r.unauthorized b.subscribed in
    exists-listed p c (add_all p handler r.subscribed s).subscriptions n
    ∙ listed-add_all p handler r.subscribed c s h
    ∙ ap (λ x. includes r.subscribed c || x)
        (listed-remove_all p r.unauthorized c b.subscribed k
          ∙ ap (λ x. not (includes r.unauthorized c) && x)
              (sym (exists-listed p c b.subscribed.subscriptions n)))

-- After the answer to an unsubscription the session is subscribed to what it was subscribed to and
-- the answer lists neither as left nor as never subscribed to.
pub verto_unsubscribed-subscribed_to :
    (response : Dict (List String)) (b : Browser) (c : String)
    → Named (destruct_subscribe_response response).unsubscribed
    → Named (destruct_subscribe_response response).not_subscribed
    → c ≢ ""
    → subscribed_to c (verto_unsubscribed response b) ≡ (
        not (includes (destruct_subscribe_response response).not_subscribed c)
        && (not (includes (destruct_subscribe_response response).unsubscribed c)
            && subscribed_to c b))
unfolding verto_unsubscribed
verto_unsubscribed-subscribed_to response b c h k n =
    let r = destruct_subscribe_response response in
    let p = relay_key b in
    let s = remove_all p r.unsubscribed b.subscribed in
    exists-listed p c (remove_all p r.not_subscribed s).subscriptions n
    ∙ listed-remove_all p r.not_subscribed c s k
    ∙ ap (λ x. not (includes r.not_subscribed c) && x)
        (listed-remove_all p r.unsubscribed c b.subscribed h
          ∙ ap (λ x. not (includes r.unsubscribed c) && x)
              (sym (exists-listed p c b.subscribed.subscriptions n)))

-- A subscription that is added and removed again leaves no trace in any channel.
subscribers-added :
    (p : String) (handler : Option Fn) (c p' c' : String) (s : Subscribed)
    → same p c p' c' ≡ false
    → subscribers p' c' (added p handler c s).handlers ≡ subscribers p' c' s.handlers
subscribers-added p none c p' c' s h = refl
subscribers-added p (some f) c p' c' s h = subscribers-register p f c s.handlers p' c' ∙ rw h refl

pub added_dropped :
    (p : String) (handler : Option Fn) (c p' c' : String) (s : Subscribed)
    → subscribers p c s.handlers ≡ []
    → subscribers p' c' (drop_channel p c (added p handler c s)).handlers
      ≡ subscribers p' c' s.handlers
added_dropped p handler c p' c' s k = elim (Bool-cases (same p c p' c')) [
  | inl e ↦ ground (
    arith,
    e,
    eq_iff p p',
    eq_iff c c',
    subscribers-de_register_none p c (added p handler c s).handlers p' c',
    k,
  )
  | inr e ↦
      subscribers-de_register_none p c (added p handler c s).handlers p' c'
      ∙ rw e (subscribers-added p handler c p' c' s e)
]
