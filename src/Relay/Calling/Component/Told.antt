-- ===== src/Relay/Calling/Component/Told.antt =====
-- What a notification does to whoever waits for the component, in every state that the protocol lists.
use signalwire_node.Common.{
  ◌≡◌, refl, Bool, true, false, not, includes, eq_iff, List, String, arith, ◌==◌, some,
}
use signalwire_node.Relay.Constants.{CallConnectState, call_connect_state_text}
use signalwire_node.Relay.Calling.Params.{Params, Payload}
use signalwire_node.Relay.Calling.Component.{
  Class, Component, connect, disconnect, has_blocker, resolve_on,
}
use signalwire_node.Relay.Calling.Component.Progress.{on_connect, on_disconnect, settle}
use signalwire_node.Relay.Calling.Component.Handlers.{notification_handler, handle_as}
use signalwire_node.Relay.Calling.Component.Waits.{
  required, IsSettled, IsExpected, connect_waits, disconnect_waits,
}
use signalwire_node.Relay.Calling.Component.Settled.{notification_handler-IsSettled}

-- The states that the protocol lists, for every class.
abbrev pub IsListed : Class → Params → Type 0
IsListed (connect _ _) (Params.connect p) =
    (x : CallConnectState) × (p.connect_state ≡ call_connect_state_text x)
IsListed disconnect (Params.connect p) =
    (x : CallConnectState) × (p.connect_state ≡ call_connect_state_text x)
IsListed k p = IsExpected k p

-- A connect that is told `disconnected`, or a disconnect that is told `connected`.
abbrev pub crossed : Class → Params → Bool
crossed (connect _ _) (Params.connect p) =
    p.connect_state == call_connect_state_text CallConnectState.disconnected
crossed disconnect (Params.connect p) =
    p.connect_state == call_connect_state_text CallConnectState.connected
crossed k p = false

-- Its waiter goes on if the component has completed, unless the notification is a crossed one.
abbrev pub IsTold : Bool → Component → Component → Type 0
IsTold true c c' = (c'.completed ≡ true) × (c'.blocker ≡ c.blocker)
IsTold false c c' = IsSettled c'

listed-IsExpected : (k : Class) (p : Params) → IsListed k p → crossed k p ≡ false → IsExpected k p
listed-IsExpected (connect a b) (Params.connect p) (x, e) f =
    (x, λ q. ground (arith, rw (e, q) at f), e)
listed-IsExpected disconnect (Params.connect p) (x, e) f =
    (x, λ q. ground (arith, rw (e, q) at f), e)
listed-IsExpected k p x f = x

resolve_on-unheard :
    (s : String) (c : Component)
    → (has_blocker c ≡ true → includes c.events_to_wait s ≡ false)
    → resolve_on s c ≡ c
resolve_on-unheard s c h = ground arith

settle-unheard :
    (good s : String) (payload : Payload) (c : Component)
    → not (s == call_connect_state_text CallConnectState.connecting) ≡ true
    → (has_blocker c ≡ true → includes c.events_to_wait s ≡ false)
    → IsTold true c (settle (call_connect_state_text CallConnectState.connecting) good s payload c)
settle-unheard good s payload c n h = ground arith

unheard :
    (s t : String) (es ws : List String)
    → (s == t) ≡ true
    → includes ws t ≡ false
    → es ≡ ws
    → includes es s ≡ false
unheard s t es ws q n e = rw (e, (eq_iff s t).0 q) n

handle_as-crossed :
    (k : Class) (p : Params) (c : Component)
    → crossed k p ≡ true
    → ((ws : List String) → required k ≡ some ws → has_blocker c ≡ true → c.events_to_wait ≡ ws)
    → IsTold true c (handle_as k p c)
unfolding handle_as on_connect on_disconnect
handle_as-crossed (connect a b) (Params.connect p) c x f =
    let e = (eq_iff p.connect_state (call_connect_state_text CallConnectState.disconnected)).0 x in
    settle-unheard _ p.connect_state _ c (rw e refl)
      (λ pending. unheard p.connect_state _ _ _ x refl (f connect_waits refl pending))
handle_as-crossed disconnect (Params.connect p) c x f =
    let e = (eq_iff p.connect_state (call_connect_state_text CallConnectState.connected)).0 x in
    settle-unheard _ p.connect_state _ c (rw e refl)
      (λ pending. unheard p.connect_state _ _ _ x refl (f disconnect_waits refl pending))
handle_as-crossed k p c x f = ground arith

told :
    (b : Bool) (p : Params) (c : Component)
    → crossed c.class p ≡ b
    → c.completed ≡ false
    → IsListed c.class p
    → IsSettled c
    → IsTold b c (notification_handler p c)
unfolding notification_handler
told true p c f open' x h = handle_as-crossed c.class p c f (λ ws r b. h.fits ws b r)
told false p c f open' x h =
    notification_handler-IsSettled p c open' (listed-IsExpected c.class p x f) h

-- A component of any class that has not completed and is settled, told a state that the protocol
-- lists for it, is settled afterwards: if the notification completes it, nobody waits for it any
-- more. But a connect that is told `disconnected` and a disconnect that is told `connected` are
-- completed and keep whoever waits for them waiting.
pub notification_handler-IsTold :
    (p : Params) (c : Component)
    → c.completed ≡ false
    → IsListed c.class p
    → IsSettled c
    → IsTold (crossed c.class p) c (notification_handler p c)
notification_handler-IsTold p c open' x h = told (crossed c.class p) p c refl open' x h
