-- ===== src/Relay/Calling/Component/Settled.antt =====
-- A component that has completed keeps nobody waiting: which notifications settle its blocker.
use signalwire_node.Common.{
  ◌≡◌, ◌≢◌, refl, true, false, Option, some, List, String, arith, ◌∙◌, sym,
}
use signalwire_node.Relay.Calling.Params.{StateParams, Params}
use signalwire_node.Relay.Calling.Component.{
  Class, Component, answer, await, connect, detect, dial, fax_receive, fax_send, hangup, play,
  prompt, recording, send_digits, tap, disconnect, refer, has_blocker, terminate,
}
use signalwire_node.Relay.Calling.Component.Handlers.{notification_handler, handle_as}
use signalwire_node.Relay.Calling.Component.Waits.{required, IsSettled, IsExpected}
use signalwire_node.Relay.Calling.Component.Released.{
  IsReleased, answer-IsReleased, await-IsReleased, hangup-IsReleased, dial-IsReleased,
  tap-IsReleased, send_digits-IsReleased, play-IsReleased, record-IsReleased, fax-IsReleased,
  refer-IsReleased, connect-IsReleased, disconnect-IsReleased, prompt-IsReleased, detect-IsReleased,
}

-- What a notification leaves as it was.
abbrev Keeps : Component → Component → Type 0
Keeps c c' =
    (required c'.class ≡ required c.class)
    × (c'.events_to_wait ≡ c.events_to_wait)
    × (has_blocker c' ≡ has_blocker c)

handle_as-Keeps :
    (k : Class) (p : Params) (c : Component)
    → required c.class ≡ required k
    → Keeps c (handle_as k p c)
unfolding handle_as
handle_as-Keeps answer (Params.state p) c e = ground arith
handle_as-Keeps await (Params.state p) c e = ground arith
handle_as-Keeps (hangup reason) (Params.state p) c e = ground arith
handle_as-Keeps (connect a b) (Params.connect p) c e = ground arith
handle_as-Keeps disconnect (Params.connect p) c e = ground arith
handle_as-Keeps dial (Params.dial p) c e = ground arith
handle_as-Keeps (detect arg timeout f) (Params.detect p) c e = ground arith
handle_as-Keeps (fax_receive f) (Params.fax p) c e = ground arith
handle_as-Keeps (fax_send document identity header f) (Params.fax p) c e = ground arith
handle_as-Keeps (play a b) (Params.play p) c e = ground arith
handle_as-Keeps (prompt collect media volume f) (Params.collect p) c e = ground arith
handle_as-Keeps (recording arg f) (Params.recording p) c e = ground arith
handle_as-Keeps (send_digits a) (Params.send_digits p) c e = ground arith
handle_as-Keeps (tap a b) (Params.tap p) c e = ground arith
handle_as-Keeps (refer arg a) (Params.refer p) c e = ground arith
handle_as-Keeps k p c e = (refl, refl, refl)

handle_as-IsReleased :
    (k : Class) (p : Params) (c : Component)
    → c.completed ≡ false
    → IsExpected k p
    → ((ws : List String) → required k ≡ some ws → has_blocker c ≡ true → c.events_to_wait ≡ ws)
    → IsReleased (handle_as k p c)
unfolding handle_as
handle_as-IsReleased answer (Params.state p) c o x f = answer-IsReleased c p o (f _ refl)
handle_as-IsReleased await (Params.state p) c o x f = await-IsReleased c p o
handle_as-IsReleased (hangup reason) (Params.state p) c o x f =
    hangup-IsReleased c p reason (f _ refl)
handle_as-IsReleased (connect a b) (Params.connect p) c o (x, n, e) f =
    connect-IsReleased c p x n e (f _ refl)
handle_as-IsReleased disconnect (Params.connect p) c o (x, n, e) f =
    disconnect-IsReleased c p x n e (f _ refl)
handle_as-IsReleased dial (Params.dial p) c o x f = dial-IsReleased c p
handle_as-IsReleased (detect arg timeout old) (Params.detect p) c o x f =
    detect-IsReleased c p arg timeout old o
handle_as-IsReleased (fax_receive old) (Params.fax p) c o (x, e) f =
    fax-IsReleased c p fax_receive old x e (f _ refl)
handle_as-IsReleased (fax_send document identity header old) (Params.fax p) c o (x, e) f =
    fax-IsReleased c p (fax_send document identity header) old x e (f _ refl)
handle_as-IsReleased (play a b) (Params.play p) c o (x, e) f = play-IsReleased c p x e (f _ refl)
handle_as-IsReleased (prompt collect media volume old) (Params.collect p) c o (x, e) f =
    prompt-IsReleased c p (prompt collect media volume) old x e (f _ refl)
handle_as-IsReleased (recording arg old) (Params.recording p) c o (x, e) f =
    record-IsReleased c p old arg x e (f _ refl)
handle_as-IsReleased (send_digits a) (Params.send_digits p) c o x f =
    send_digits-IsReleased c p (f _ refl)
handle_as-IsReleased (tap a b) (Params.tap p) c o x f = tap-IsReleased c p (f _ refl)
handle_as-IsReleased (refer arg old) (Params.refer p) c o (x, e) f =
    refer-IsReleased c p arg x e (f _ refl)
handle_as-IsReleased k p c o x f = λ done. cc

-- A component that has not completed and is settled, told a state that is expected of its class, is
-- settled afterwards.
pub notification_handler-IsSettled :
    (p : Params) (c : Component)
    → c.completed ≡ false
    → IsExpected c.class p
    → IsSettled c
    → IsSettled (notification_handler p c)
unfolding notification_handler
notification_handler-IsSettled p c open' x h =
    let (k, e, b) = handle_as-Keeps c.class p c refl in
    record {
      settled = handle_as-IsReleased c.class p c open' x (λ ws r b'. h.fits ws b' r);
      fits = λ ws b' r. e ∙ h.fits ws (sym b ∙ b') (sym k ∙ r);
    }

-- Ending a settled component leaves it settled: its waiter goes on.
pub terminate-IsSettled :
    (p : Option StateParams) (c : Component) → IsSettled c → IsSettled (terminate p c)
unfolding terminate
terminate-IsSettled p c h = record {
  settled = λ done pending. ground arith;
  fits = λ ws b r. h.fits ws (ground arith) r;
}

pub terminate-done :
    (p : Option StateParams) (c : Component)
    → ((terminate p c).completed ≡ true)
      × ((terminate p c).successful ≡ false)
      × ((terminate p c).blocker ≢ some false)
unfolding terminate
terminate-done p c = (refl, refl, ground arith)
