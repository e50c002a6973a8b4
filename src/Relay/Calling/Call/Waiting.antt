-- ===== src/Relay/Calling/Call/Waiting.antt =====
-- `Call.waitFor`: which waits are over at once.
use signalwire_node.Common.{
  ℕ, ◌≡◌, refl, Bool, true, false, ◌||◌, List, [], ◌∷◌, map, String, arith, leb,
}
use signalwire_node.Relay.Constants.{CallState, call_state_text, call_states}
use signalwire_node.Relay.Calling.Call.Operations.{position, has_passed}

-- How far a call is in the life that Relay gives it.
abbrev pub rank : CallState → ℕ
rank CallState.none = 1
rank CallState.created = 2
rank CallState.ringing = 3
rank CallState.answered = 4
rank CallState.ending = 5
rank CallState.ended = 6

abbrev pub any_reached : CallState → List CallState → Bool
any_reached now [] = false
any_reached now (e ∷ es) = leb (rank e) (rank now) || any_reached now es

position-rank : (x : CallState) → position call_states (call_state_text x) ≡ rank x
unfolding position
position-rank CallState.none = refl
position-rank _ = refl

-- Of states that the protocol lists, a wait is over at once exactly if the call has reached one of
-- them in the order none, created, ringing, answered, ending, ended.
has_passed-any_reached :
    (now : CallState) (es : List CallState)
    → has_passed (position call_states (call_state_text now)) (map call_state_text es)
      ≡ any_reached now es
unfolding has_passed
has_passed-any_reached now [] = refl
has_passed-any_reached now (e ∷ es) =
    rw (has_passed-any_reached now es, position-rank now, position-rank e)

-- A wait for a name that is no call state is over at once, in whatever state the call is.
pub has_passed-unknown :
    (now : ℕ) (name : String) (es : List String)
    → position call_states name ≡ 0
    → has_passed now (name ∷ es) ≡ true
unfolding has_passed
has_passed-unknown now name es h = rw h (ground arith)
