-- ===== src/Relay/Consumer/Listening.antt =====
-- Whoever listens is called once, however often the session is lost and is ready again.
use mathlib.Core.List.{append-nil}
use signalwire_node.Common.{
  ◌≡◌, ◌≢◌, refl, ap, sym, ◌∙◌, true, false, ◌||◌, Option, none, some, List, [], ◌∷◌, ◌++◌, String,
  ◌==◌, arith, Bool-cases, inl, inr, eq_iff, eq_refl, eq-false, includes, differ, if-both, if-true,
}
use signalwire_node.Common.Dict.{Dict}
use signalwire_node.Common.Json.{Json}
use signalwire_node.Handler.{Fn, Queue, is_nil, de_register_all}
use signalwire_node.Handler.Contents.{subscribers, subscribers-de_register_all}
use signalwire_node.Session.Subscriptions.{Subscribed, close_subscriptions, de_register_each}
use signalwire_node.Webrtc.Devices.Listing.{IsDistinct}
use signalwire_node.Relay.Contexts.{
  given, missing, known, asks, receive, received, register_each, on_receive_contexts,
  on_state_change_contexts,
}
use signalwire_node.Relay.Consumer.{
  Consumer, Kind, calls, messages, states, tasks, handler_of, unique_id, listen, listen_with,
  listen_for, on_ready,
}
use signalwire_node.Relay.Consumer.Ids.{prefix, unique_id-apart, unique_id-injective}
use signalwire_node.Relay.Contexts.Registering.{register_each-other, register_each-once}

listen-register_each :
    (k : Kind) (p : String) (cs : List String) (h : Fn) (q : Queue)
    → listen k p true cs h q ≡ register_each p (unique_id k) h cs q
unfolding listen on_receive_contexts on_state_change_contexts
listen-register_each calls p cs h q = refl
listen-register_each messages p cs h q = refl
listen-register_each states p cs h q = refl
listen-register_each tasks p cs h q = refl

-- A `Receive` of some context succeeds, unless the server refuses.
receives :
    (held cs : List String)
    → is_nil (given cs) ≡ false
    → (received true (receive held cs) held).1 ≡ true
unfolding receive received
receives held cs f =
    let new = missing held (given cs) in
    rw f (
      if-both (λ r. (received true r held).1 ≡ true) (is_nil new) known (asks new) (λ t. refl)
        (λ f. refl))

abbrev pub listed : Option Fn → List Fn
listed none = []
listed (some h) = h ∷ []

given-filled :
    (cs : List String) (ctx : String)
    → includes cs ctx ≡ true
    → ctx ≢ ""
    → is_nil (given cs) ≡ false
given-filled [] ctx i n = ground arith
given-filled (d ∷ cs) ctx i n = elim (Bool-cases (d == "")) [
  | inl e ↦
      let other : (d == ctx) ≡ false = eq-false d ctx (λ same. n (sym same ∙ (eq_iff d "").0 e)) in
      rw e (given-filled cs ctx (sym (ap (λ b. b || includes cs ctx) other) ∙ i) n)
  | inr e ↦ rw e refl
]

module _ (p : String) (c : Consumer) (ctx : String) (filled : is_nil (given c.contexts) ≡ false)
    (distinct : IsDistinct c.contexts) (among : includes c.contexts ctx ≡ true) where
  abbrev heard : Kind → List String × Queue → List Fn
  heard k s = subscribers p (unique_id k ctx) s.1

  listen_with-register_each :
      (k : Kind) (h : Fn) (s : List String × Queue)
      → (listen_with k p true c (some h) s).1 ≡ register_each p (unique_id k) h c.contexts s.1
  listen_with-register_each k h (held, q) =
      ap (λ b. listen k p b c.contexts h q) (receives held c.contexts filled)
      ∙ listen-register_each k p c.contexts h q

  listen_with-own :
      (k : Kind) (o : Option Fn) (s : List String × Queue)
      → heard k (listen_with k p true c o s) ≡ heard k s ++ listed o
  listen_with-own k none s = sym (append-nil _)
  listen_with-own k (some h) s =
      ap (subscribers p (unique_id k ctx)) (listen_with-register_each k h s)
      ∙ register_each-once p (unique_id k) h (unique_id-injective k) c.contexts s.1 ctx distinct
          among

  listen_with-other :
      (k k' : Kind) (o : Option Fn) (s : List String × Queue)
      → prefix k ≢ prefix k'
      → heard k' (listen_with k p true c o s) ≡ heard k' s
  listen_with-other k k' none s n = refl
  listen_with-other k k' (some h) s n =
      ap (subscribers p (unique_id k' ctx)) (listen_with-register_each k h s)
      ∙ register_each-other p (unique_id k) h c.contexts s.1 (unique_id k' ctx)
          (λ d. unique_id-apart k k' d ctx n)

  abbrev other :
      (k k' : Kind) (s : List String × Queue)
      → (prefix k == prefix k') ≡ false
      → heard k' (listen_for k p true c s) ≡ heard k' s
  other k k' s e = listen_with-other k k' (handler_of k c) s (differ (prefix k) (prefix k') e)

  abbrev own :
      (k : Kind) (s : List String × Queue)
      → heard k (listen_for k p true c s) ≡ heard k s ++ listed (handler_of k c)
  own k s = listen_with-own k (handler_of k c) s

  -- What the callback of a session that is ready does, where `Receive` succeeds.
  abbrev all_listen : List String × Queue → List String × Queue
  all_listen s =
      listen_for tasks p true c
        (listen_for states p true c (listen_for messages p true c (listen_for calls p true c s)))

  all_listen-heard :
      (k : Kind) (s : List String × Queue)
      → heard k (all_listen s) ≡ heard k s ++ listed (handler_of k c)
  all_listen-heard k s =
      let s1 = listen_for calls p true c s in
      let s2 = listen_for messages p true c s1 in
      let s3 = listen_for states p true c s2 in
      elim k as (λ k. heard k (all_listen s) ≡ heard k s ++ listed (handler_of k c)) [
        | calls ↦
            other tasks calls s3 refl
            ∙ other states calls s2 refl
            ∙ other messages calls s1 refl
            ∙ own calls s
        | messages ↦
            other tasks messages s3 refl
            ∙ other states messages s2 refl
            ∙ own messages s1
            ∙ ap (λ fs. fs ++ listed c.on_incoming_message) (other calls messages s refl)
        | states ↦
            other tasks states s3 refl
            ∙ own states s2
            ∙ ap (λ fs. fs ++ listed c.on_message_state_change)
                (other messages states s1 refl ∙ other calls states s refl)
        | tasks ↦
            own tasks s3
            ∙ ap (λ fs. fs ++ listed c.on_task)
                (other states tasks s2 refl
                  ∙ other messages tasks s1 refl
                  ∙ other calls tasks s refl)
      ]

  on_ready-heard :
      (k : Kind) (held : List String) (q : Queue)
      → heard k (on_ready p true c (held, q)) ≡ heard k (held, q) ++ listed (handler_of k c)
  unfolding on_ready
  on_ready-heard k held q =
      let r = received true (receive held c.contexts) held in
      ap (heard k) (if-true (all_listen (r.0, q)) (r.0, q) (receives held c.contexts filled))
      ∙ all_listen-heard k (r.0, q)

-- Deregistering protocols leaves an empty entry empty.
de_register_each-nil :
    (subscriptions : Dict (Dict Json)) (q : Queue) (e u : String)
    → subscribers e u q ≡ []
    → subscribers e u (de_register_each subscriptions q) ≡ []
de_register_each-nil [] q e u h = h
de_register_each-nil ((protocol, channels) ∷ others) q e u h =
    de_register_each-nil others (de_register_all protocol q) e u (
      subscribers-de_register_all protocol q e u
      ∙ rw h (if-both (λ fs. fs ≡ []) (protocol == e) [] [] (λ t. refl) (λ f. refl)))

close_subscriptions-nil :
    (p u : String) (s : Subscribed)
    → p ≢ ""
    → subscribers p u (close_subscriptions (some p) s).handlers ≡ []
unfolding close_subscriptions
close_subscriptions-nil p u s n = rw (eq-false p "" n) (
    de_register_each-nil s.subscriptions (de_register_all p s.handlers) p u
      (subscribers-de_register_all p s.handlers p u ∙ rw (eq_refl p) refl))

-- When the session of a consumer has lost its connection and is ready again, under the same protocol,
-- and the server refuses no context, then each of the consumer's functions is subscribed
-- exactly once, and nobody else is, to what it is for in each of its contexts: calls, messages, states of
-- messages, and tasks. The contexts are distinct, and the context is not empty.
pub close_subscriptions-on_ready :
    (p : String) (c : Consumer) (s : Subscribed) (ctx : String) (k : Kind)
    → p ≢ ""
    → IsDistinct c.contexts
    → includes c.contexts ctx ≡ true
    → ctx ≢ ""
    → subscribers p
        (unique_id k ctx)
        (on_ready p true c ([], (close_subscriptions (some p) s).handlers)).1
      ≡ listed (handler_of k c)
close_subscriptions-on_ready p c s ctx k n distinct among e =
    let closed = (close_subscriptions (some p) s).handlers in
    on_ready-heard p c ctx (given-filled c.contexts ctx among e) distinct among k [] closed
    ∙ ap (λ fs. fs ++ listed (handler_of k c)) (close_subscriptions-nil p (unique_id k ctx) s n)
