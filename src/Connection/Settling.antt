-- ===== src/Connection/Settling.antt =====
-- A request is settled once, by its answer or by its timer.
use signalwire_node.Common.{
  ℕ, ◌≡◌, refl, Bool, true, false, none, some, List, [], ◌∷◌, ◌++◌, String, ◌==◌, eq_refl, includes,
  Bool-cases, inl, inr,
}
use signalwire_node.Handler.{Queue, global, fetch, Registry, returned, trigger, trigger_at}
use signalwire_node.Handler.Dispatch.{register_once-trigger_at}
use signalwire_node.Handler.Walk.{IsPassive}
use signalwire_node.Connection.{
  Reply, message, timed_out, Requests, send, on_message, time_out, unset_timer,
}

-- A timer that was unset does not run.
unset_timer-includes : (id : String) (ts : List String) → includes (unset_timer id ts) id ≡ false
unset_timer-includes id [] = refl
unset_timer-includes id (t ∷ ts) = elim (Bool-cases (t == id)) [
  | inl same ↦ rw same (unset_timer-includes id ts)
  | inr other ↦ rw other (rw other (unset_timer-includes id ts))
]

module _ {D : Type 0} (body : ℕ → Reply D → Queue → Queue) (passive : IsPassive body)
    (socket_message uuid : String) where
  trigger-global :
      (id : String) (e : Reply D) (r after : Registry (Reply D)) (answer : Bool)
      → trigger_at body id e global r ≡ returned after answer
      → trigger body id e global true r ≡ returned after answer
  unfolding trigger
  trigger-global id e r after answer h = rw (h, trigger) refl

  -- A request under an id that is not in use, when it is answered: its callback has been called
  -- once, with the answer, its timer no longer does anything, and a later reply is not handed to
  -- the callback. The callbacks leave the registry alone.
  pub send-on_message :
      (id : String) (callback w : ℕ) (d : D) (late : Reply D) (c : Requests D)
      → fetch id global c.handlers.queue ≡ none
      → (after : Requests D) × (on_message body socket_message uuid id d
            (send body socket_message uuid false id callback w c)
          ≡ some (after, true))
        × (after.handlers.calls ≡ c.handlers.calls ++ (callback, message d) ∷ [])
        × (time_out body socket_message uuid id after ≡ some (after, false))
        × (trigger_at body id late global after.handlers ≡ returned after.handlers false)
  unfolding on_message send time_out
  send-on_message id callback w d late c h =
      let (r, ends, calls, gone) =
        register_once-trigger_at body passive id callback global w c.handlers.queue c.handlers.calls
          (message d) late h in
      (
        record { handlers = r; timers = unset_timer id (id ∷ c.timers) },
        rw (trigger-global id (message d) _ r true ends) refl,
        calls,
        rw (unset_timer-includes id (id ∷ c.timers)) refl,
        gone,
      )

  -- A request under an id that is not in use, when its timer goes off: its callback has been
  -- called once, with the timeout, the timer does nothing more, and a late reply is not handed to
  -- the callback. The callbacks leave the registry alone.
  pub send-time_out :
      (id : String) (callback w : ℕ) (late : Reply D) (c : Requests D)
      → fetch id global c.handlers.queue ≡ none
      → (after : Requests D) × (time_out body socket_message uuid id
            (send body socket_message uuid false id callback w c)
          ≡ some (after, true))
        × (after.handlers.calls ≡ c.handlers.calls ++ (callback, timed_out) ∷ [])
        × (time_out body socket_message uuid id after ≡ some (after, false))
        × (trigger_at body id late global after.handlers ≡ returned after.handlers false)
  unfolding send time_out
  send-time_out id callback w late c h =
      let (r, ends, calls, gone) =
        register_once-trigger_at body passive id callback global w c.handlers.queue c.handlers.calls
          timed_out late h in
      (
        record { handlers = r; timers = unset_timer id (id ∷ c.timers) },
        rw (eq_refl id) (rw (trigger-global id timed_out _ r true ends) refl),
        calls,
        rw (unset_timer-includes id (id ∷ c.timers)) refl,
        gone,
      )
