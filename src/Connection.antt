-- ===== src/Connection.antt =====
-- packages/common/src/services/Connection.ts: the WebSocket and the requests that wait for an
-- answer. Every request registers its callback once, under its id, with `Handler`, and runs a
-- timer; `timers` holds the ids of the timers that run.
pub mod Settling
use signalwire_node.Common.{
  ℕ, Bool, true, false, not, ◌||◌, Option, none, some, List, [], ◌∷◌, ◌++◌, String, ◌==◌, includes,
  keep, if◌then◌else◌,
}
use signalwire_node.Handler.{
  Queue, global, Registry, Outcome, returned, thrown, register_once, trigger,
}

pub data WsState : Type 0 where
  connecting : WsState
  opened : WsState
  closing : WsState
  closed : WsState

-- The getters of the state; without a client they are falsy.
abbrev pub is_connected : Option WsState → Bool
is_connected (some opened) = true
is_connected _ = false

abbrev pub is_connecting : Option WsState → Bool
is_connecting (some connecting) = true
is_connecting _ = false

abbrev pub is_closing : Option WsState → Bool
is_closing (some closing) = true
is_closing _ = false

abbrev pub is_closed : Option WsState → Bool
is_closed (some closed) = true
is_closed _ = false

abbrev pub is_alive : Option WsState → Bool
is_alive ws = is_connecting ws || is_connected ws

abbrev pub is_dead : Option WsState → Bool
is_dead ws = is_closing ws || is_closed ws

-- What a callback of a request is given: the answer of the server, or the timeout's error.
pub data Reply (D : Type 0) : Type 0 where
  message : D → Reply D
  timed_out : Reply D

pub record Requests (D : Type 0) : Type 0 where
  pub handlers : Registry (Reply D)
  pub timers : List String

-- `_setTimer` and `_unsetTimer`
abbrev pub set_timer : String → List String → List String
set_timer id ts = id ∷ ts

abbrev pub unset_timer : String → List String → List String
unset_timer id ts = keep (λ t. not (t == id)) ts

-- `body` is what a callback does to the registry; `socket_message` the event of other messages.
module _ {D : Type 0} (body : ℕ → Reply D → Queue → Queue) (socket_message uuid : String) where
  -- `send`: `callback` settles the promise, `w` is its wrapper. A result waits for no answer.
  unfoldable pub send : Bool → String → ℕ → ℕ → Requests D → Requests D
  send true id callback w c = c
  send false id callback w c = record {
    handlers = record (c.handlers) { queue = register_once id callback global w c.handlers.queue };
    timers = set_timer id c.timers;
  }

  abbrev settle : List String → Outcome (Reply D) → Option (Requests D × Bool)
  settle ts (returned r answer) = some (record { handlers = r; timers = ts }, answer)
  settle ts (thrown r) = none

  abbrev unhandled : D → Option (Requests D × Bool) → Option (Requests D × Bool)
  unhandled d none = none
  unhandled d (some (c, true)) = some (c, true)
  unhandled d (some (c, false)) =
      settle c.timers (trigger body socket_message (message d) uuid true c.handlers)

  -- `onmessage` of an object with this id; `none` is an error that a callback's walk throws.
  unfoldable pub on_message : String → D → Requests D → Option (Requests D × Bool)
  on_message id d c =
      unhandled d
        (settle (unset_timer id c.timers) (trigger body id (message d) global true c.handlers))

  -- The timer of a request goes off, if it runs.
  unfoldable pub time_out : String → Requests D → Option (Requests D × Bool)
  time_out id c =
      if includes c.timers id
      then settle (unset_timer id c.timers) (trigger body id timed_out global true c.handlers)
      else some (c, false)
