-- ===== src/Session/Sending.antt =====
-- What becomes of the messages that are sent while the session is idle.
use signalwire_node.Common.{◌≡◌, refl, sym, ◌∙◌, ap, true, false, some, List, [], ◌∷◌, ◌++◌, arith}
use mathlib.Core.List.{append_assoc, append-nil}
use signalwire_node.Connection.{opened}
use signalwire_node.Session.{
  Queued, request, raw, Session, perform, perform_all, execute, execute_raw, empty_execute_queues,
  enqueue,
}

after : List Queued → Session → Session
after ms s = record s { execute_queue = s.execute_queue ++ ms }

perform-idle : (m : Queued) (s : Session) → s.idle ≡ true → perform m s ≡ some (enqueue m s, [])
unfolding execute execute_raw
perform-idle (request m) s h = ground arith
perform-idle (raw t) s h = ground arith

perform-opened :
    (m : Queued) (s : Session)
    → s.idle ≡ false
    → s.ws ≡ some opened
    → perform m s ≡ some (s, m ∷ [])
unfolding execute execute_raw
perform-opened (request m) s h o = ground arith
perform-opened (raw t) s h o = ground arith

-- While the session is idle, messages are kept in the order in which they are sent, and nothing
-- goes out.
pub perform_all-idle :
    (ms : List Queued) (s : Session)
    → s.idle ≡ true
    → perform_all ms s ≡ some (record s { execute_queue = s.execute_queue ++ ms }, [])
unfolding perform_all
perform_all-idle [] s h =
    ap (λ q. some (record s { execute_queue = q }, [])) (sym (append-nil s.execute_queue))
perform_all-idle (m ∷ ms) s h =
    rw (perform-idle m s h, perform_all)
      (rw (perform_all-idle ms (enqueue m s) h) (
        ap (λ q. some (record s { execute_queue = q }, []))
          (append_assoc s.execute_queue (m ∷ []) ms)))

-- Messages of a session whose socket is open go out in order, and change nothing.
perform_all-opened :
    (ms : List Queued) (s : Session)
    → s.idle ≡ false
    → s.ws ≡ some opened
    → perform_all ms s ≡ some (s, ms)
unfolding perform_all
perform_all-opened [] s h o = refl
perform_all-opened (m ∷ ms) s h o =
    rw (perform-opened m s h o, perform_all) (rw (perform_all-opened ms s h o) refl)

-- What is sent while the session is idle, with an empty queue, goes out exactly once and in order
-- when the socket has opened and the queue is emptied.
idle-empty_execute_queues :
    (ms : List Queued) (s : Session)
    → s.idle ≡ true
    → s.execute_queue ≡ []
    → (s' : Session) × (perform_all ms s ≡ some (s', []))
      × ((after : Session) × (empty_execute_queues (record s' { idle = false; ws = some opened })
            ≡ some (after, ms)))
unfolding empty_execute_queues
idle-empty_execute_queues ms s h e =
    let s' : Session = record s { execute_queue = s.execute_queue ++ ms } in
    let now : Session = record s' { idle = false; ws = some opened } in
    (
      s',
      perform_all-idle ms s h,
      (
        now,
        perform_all-opened (s.execute_queue ++ ms) now refl refl ∙ ap (λ q. some (now, q ++ ms)) e,
      ),
    )

-- Emptying the queue of a session that is open sends every message in it and leaves the queue as
-- it was.
empty_execute_queues-again :
    (s : Session)
    → s.idle ≡ false
    → s.ws ≡ some opened
    → empty_execute_queues s ≡ some (s, s.execute_queue)
unfolding empty_execute_queues
empty_execute_queues-again s h o = perform_all-opened s.execute_queue s h o
