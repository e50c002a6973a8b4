-- ===== src/Session.antt =====
-- packages/common/src/BaseSession.ts: the session's connection, its queue of requests and its life.
-- What goes out on the socket is recorded as effects, in order. `now` is the clock in milliseconds;
-- `authenticated` is the sequel of `blade.connect` when the server has answered it.
pub mod Sending
pub mod Subscriptions
pub mod Token
pub mod Setup
use signalwire_node.Common.{
  ℕ, ◌*◌, Bool, true, false, not, ◌&&◌, Option, none, some, List, [], ◌∷◌, ◌++◌, String, eqb, leb,
  if◌then◌else◌,
}
use signalwire_node.Connection.{WsState, connecting, is_connected, is_alive}

-- A message of `execute`, by its identity, or a text of `executeRaw`.
pub data Queued : Type 0 where
  request : ℕ → Queued
  raw : String → Queued

pub record Session : Type 0 where
  pub ws : Option WsState
  pub idle : Bool
  pub auto_reconnect : Bool
  pub expires_at : ℕ
  pub relay_protocol : Option String
  pub contexts : List String
  pub execute_queue : List Queued
  pub pong : Option Bool
  pub do_keep_alive : Bool
  pub reconnect_timer : Bool
  pub keep_alive_timer : Bool

-- `this.expiresAt && this.expiresAt <= (Date.now() / 1000)`
abbrev pub expired : ℕ → Session → Bool
expired now s = not (eqb s.expires_at 0) && leb (1000 * s.expires_at) now

-- `connect`: a connection that is alive is left. The listeners of the socket, which it registers
-- anew, are not part of this record.
unfoldable pub connect : Session → Session
connect s = if is_alive s.ws then s else record s { ws = some connecting }

abbrev is_false : Option Bool → Bool
is_false (some false) = true
is_false _ = false

abbrev pub enqueue : Queued → Session → Session
enqueue m s = record s { execute_queue = s.execute_queue ++ m ∷ [] }

-- `execute`, up to the answer.
unfoldable pub execute : ℕ → Session → Session × List Queued
unfolding connect
execute m s =
    if s.idle
    then (enqueue (request m) s, [])
    else (if not (is_connected s.ws)
        then (connect (enqueue (request m) s), [])
        else (s, request m ∷ []))

-- `executeRaw`: `none` is the TypeError of a connection without a client.
unfoldable pub execute_raw : String → Session → Option (Session × List Queued)
execute_raw text s =
    if s.idle
    then some (enqueue (raw text) s, [])
    else elim s.ws [ none ↦ none | some ws ↦ some (s, raw text ∷ []) ]

abbrev pub perform : Queued → Session → Option (Session × List Queued)
perform (request m) s = some (execute m s)
perform (raw text) s = execute_raw text s

abbrev pub sent_before :
    List Queued → Option (Session × List Queued) → Option (Session × List Queued)
sent_before sent none = none
sent_before sent (some (s, sent')) = some (s, sent ++ sent')

unfoldable pub perform_all : List Queued → Session → Option (Session × List Queued)
perform_all [] s = some (s, [])
perform_all (m ∷ ms) s = elim (perform m s) [
  | none ↦ none
  | some (s', sent) ↦ sent_before sent (perform_all ms s')
]

-- `_emptyExecuteQueues`: `forEach` visits the messages that are there when it starts.
unfoldable pub empty_execute_queues : Session → Option (Session × List Queued)
unfolding perform_all execute execute_raw
empty_execute_queues s = perform_all s.execute_queue s

-- `_closeConnection`
unfoldable pub close_connection : Session → Session
close_connection s = record s { idle = true; keep_alive_timer = false; ws = none }

-- `disconnect`; the subscriptions are another module's.
unfoldable pub disconnect : Session → Session
unfolding close_connection
disconnect s =
    record (close_connection
      (record s { reconnect_timer = false; auto_reconnect = false; relay_protocol = none })) {
        execute_queue = [];
      }

-- `_keepAlive`; `ping` is the new message.
unfoldable pub keep_alive : ℕ → Session → Session × List Queued
unfolding execute close_connection
keep_alive ping s =
    if not s.do_keep_alive
    then (s, [])
    else (if is_false s.pong
        then (close_connection s, [])
        else (let (s', sent) = execute ping (record s { pong = some false }) in
            (record s' { keep_alive_timer = true }, sent)))

-- `_onSocketOpen` up to the answer of `blade.connect`.
unfoldable pub on_socket_open : ℕ → Session → Session × List Queued
unfolding execute
on_socket_open connect_message s = execute connect_message (record s { idle = false })

-- The rest of `_onSocketOpen`: the answer's expiry and the protocol that `Setup` returned.
unfoldable pub authenticated : ℕ → Option String → ℕ → Session → Option (Session × List Queued)
unfolding empty_execute_queues keep_alive
authenticated expires_at protocol ping s0 =
    let s1 = record s0 {
      auto_reconnect = true;
      expires_at = expires_at;
      relay_protocol = protocol;
    } in
    elim (empty_execute_queues s1) [
      | none ↦ none
      | some (s2, sent) ↦ sent_before sent (some (keep_alive ping (record s2 { pong = none })))
    ]

-- `_onSocketCloseOrError`; the client of the connection is `ws'` then.
unfoldable pub on_socket_close_or_error : ℕ → Option WsState → Session → Session
on_socket_close_or_error now ws' s0 =
    let s1 = record s0 { contexts = []; ws = ws' } in
    let s2 =
      if expired now s1
      then record s1 { idle = true; auto_reconnect = false; expires_at = 0 }
      else s1 in
    if s2.auto_reconnect then record s2 { reconnect_timer = true } else s2

-- The timer of a reconnection goes off.
unfoldable pub reconnect : Session → Session
unfolding connect
reconnect s = if s.reconnect_timer then connect (record s { reconnect_timer = false }) else s

-- `_onSocketMessage` of `blade.disconnect`.
unfoldable pub on_blade_disconnect : Session → Session
on_blade_disconnect s = record s { idle = true }
