-- ===== src/Session/Subscriptions/Links.antt =====
-- A channel's callbacks and its subscription go together.
use signalwire_node.Common.{
  ◌≡◌, ◌≢◌, refl, Bool, true, false, not, Option, none, some, List, [], ◌∷◌, String, arith, ◌==◌,
  eq_iff, if◌then◌else◌, if-both,
}
use signalwire_node.Common.Dict.{Dict, lookup, insert, delete, has, lookup-insert, lookup-delete}
use signalwire_node.Common.Json.{Json, object}
use signalwire_node.Handler.{Fn, or_empty}
use signalwire_node.Handler.Contents.{
  subscribers, same, subscribers-register, subscribers-de_register_none,
  subscribers-de_register_all,
}
use signalwire_node.Session.Subscriptions.{
  Subscribed, exists_subscription, remove_subscription, add_subscription, put_channel, drop_channel,
  drop_protocol, add_all, remove_all, subscribed, drop_one, drop_from, with_handler,
}

-- The channel is there.
abbrev pub listed : String → String → Dict (Dict Json) → Bool
listed p c subs = has c (or_empty (lookup p subs))

lookup-nil : (k : String) → lookup {V = Json} k [] ≡ none
unfolding lookup
lookup-nil k = refl

pub listed-put_channel :
    (p c p' c' : String) (subs : Dict (Dict Json))
    → listed p' c' (put_channel p c subs) ≡ (if same p c p' c' then true else listed p' c' subs)
listed-put_channel p c p' c' subs = ground (
  arith,
  eq_iff p p',
  lookup-insert p p' (insert c (object []) (or_empty (lookup p subs))) subs,
  lookup-insert c c' (object []) (or_empty (lookup p subs)),
)

pub listed-drop_from :
    (p c p' c' : String) (o : Option (Dict Json)) (subs : Dict (Dict Json))
    → lookup p subs ≡ o
    → listed p' c' (drop_from p c o subs) ≡ (if same p c p' c' then false else listed p' c' subs)
listed-drop_from p c p' c' none subs e = ground (arith, e, eq_iff p p', lookup-nil c')
listed-drop_from p c p' c' (some m) subs e =
    ground (
      arith,
      e,
      eq_iff p p',
      eq_iff c c',
      lookup-delete c c' m,
      lookup-insert p p' (delete c m) subs,
    )

listed-drop_protocol :
    (p p' c' : String) (s : Subscribed)
    → listed p' c' (drop_protocol p s).subscriptions
      ≡ (if p == p' then false else listed p' c' s.subscriptions)
listed-drop_protocol p p' c' s = ground (arith, lookup-delete p p' s.subscriptions, lookup-nil c')

pub exists-listed :
    (p c : String) (subs : Dict (Dict Json))
    → c ≢ ""
    → exists_subscription p (some c) subs ≡ listed p c subs
unfolding exists_subscription
exists-listed p c subs h = ground (arith, eq_iff c "", lookup-nil c)

-- The channel of a protocol has no callbacks if it is not subscribed to.
abbrev pub IsLinked : String → String → Subscribed → Type 0
IsLinked p c s = listed p c s.subscriptions ≡ false → subscribers p c s.handlers ≡ []

abbrev pub added : String → Option Fn → String → Subscribed → Subscribed
added p handler c s = record {
  subscriptions = put_channel p c s.subscriptions;
  handlers = with_handler p handler c s.handlers;
}

module _ (p' c' : String) where
  added-IsLinked :
      (p : String) (handler : Option Fn) (c : String) (s : Subscribed)
      → IsLinked p' c' s
      → IsLinked p' c' (added p handler c s)
  added-IsLinked p none c s h e = ground (arith, listed-put_channel p c p' c' s.subscriptions, h)
  added-IsLinked p (some f) c s h e = ground (
    arith,
    listed-put_channel p c p' c' s.subscriptions,
    subscribers-register p f c s.handlers p' c',
    h,
  )

  -- Adding a subscription keeps it so that a channel without subscription has no callbacks.
  pub add_subscription-IsLinked :
      (p : String) (handler : Option Fn) (c : String) (s : Subscribed)
      → IsLinked p' c' s
      → IsLinked p' c' (add_subscription p handler c s)
  unfolding add_subscription
  add_subscription-IsLinked p handler c s h =
      if-both (IsLinked p' c') (exists_subscription p (some c) s.subscriptions) s
        (added p handler c s) (λ there. h) (λ missing. added-IsLinked p handler c s h)

  drop_channel-IsLinked :
      (p c : String) (s : Subscribed) → IsLinked p' c' s → IsLinked p' c' (drop_channel p c s)
  drop_channel-IsLinked p c s h e = ground (
    arith,
    subscribers-de_register_none p c s.handlers p' c',
    listed-drop_from p c p' c' (lookup p s.subscriptions) s.subscriptions refl,
    h,
  )

  drop_protocol-IsLinked :
      (p : String) (s : Subscribed) → IsLinked p' c' s → IsLinked p' c' (drop_protocol p s)
  drop_protocol-IsLinked p s h e =
      ground
        (arith, subscribers-de_register_all p s.handlers p' c', listed-drop_protocol p p' c' s, h)

  drop_one-IsLinked :
      (p : String) (c : Option String) (s : Subscribed)
      → IsLinked p' c' s
      → IsLinked p' c' (drop_one p c s)
  drop_one-IsLinked p none s h = drop_protocol-IsLinked p s h
  drop_one-IsLinked p (some c) s h =
      if-both (IsLinked p' c') (c == "") (drop_protocol p s) (drop_channel p c s)
        (λ e. drop_protocol-IsLinked p s h) (λ e. drop_channel-IsLinked p c s h)

  -- Removing the subscription of a channel or of a whole protocol keeps it so that a channel without
  -- subscription has no callbacks.
  pub remove_subscription-IsLinked :
      (p : String) (c : Option String) (s : Subscribed)
      → IsLinked p' c' s
      → IsLinked p' c' (remove_subscription p c s)
  unfolding remove_subscription
  remove_subscription-IsLinked p c s h =
      if-both (IsLinked p' c') (not (exists_subscription p c s.subscriptions)) s (drop_one p c s)
        (λ missing. h) (λ there. drop_one-IsLinked p c s h)

  remove_all-IsLinked :
      (p : String) (cs : List String) (s : Subscribed)
      → IsLinked p' c' s
      → IsLinked p' c' (remove_all p cs s)
  remove_all-IsLinked p [] s h = h
  remove_all-IsLinked p (c ∷ cs) s h =
      remove_all-IsLinked p cs (remove_subscription p (some c) s)
        (remove_subscription-IsLinked p (some c) s h)

  add_all-IsLinked :
      (p : String) (handler : Option Fn) (cs : List String) (s : Subscribed)
      → IsLinked p' c' s
      → IsLinked p' c' (add_all p handler cs s)
  add_all-IsLinked p handler [] s h = h
  add_all-IsLinked p handler (c ∷ cs) s h =
      add_all-IsLinked p handler cs (add_subscription p handler c s)
        (add_subscription-IsLinked p handler c s h)

  -- Whatever the server answers to a subscription, of whatever protocol, a channel that is not
  -- subscribed to afterwards has no callbacks, if that was so of this channel before.
  pub subscribed-IsLinked :
      (p : String) (handler : Option Fn) (failed channels : List String) (s : Subscribed)
      → IsLinked p' c' s
      → IsLinked p' c' (subscribed p handler failed channels s)
  unfolding subscribed
  subscribed-IsLinked p handler failed channels s h =
      add_all-IsLinked p handler channels (remove_all p failed s) (remove_all-IsLinked p failed s h)
