-- ===== src/Session/Token.antt =====
-- BaseSession.ts: the token of a session, its refresh and the checks of its expiry. Times are in
-- milliseconds, the expiry in seconds.
pub mod Warnings
use signalwire_node.Common.{
  ℕ, zero, suc, ◌+◌, ◌*◌, Bool, true, false, not, Option, none, some, List, [], ◌∷◌, leb, eqb,
  if◌then◌else◌,
}
use signalwire_node.Session.{Session, expired, connect}

-- What the server answers to a reauthentication: an expiry, if it gives one, or an error.
pub data Reauthenticated : Type 0 where
  accepted : Option ℕ → Reauthenticated
  refused : Reauthenticated

abbrev or_never : Option ℕ → ℕ
or_never none = 0
or_never (some at) = at

-- `refreshToken`; an expired session connects with the new token instead.
unfoldable pub refresh_token : ℕ → Reauthenticated → Session → Session
unfolding connect
refresh_token now answer s =
    if expired now s
    then connect s
    else (elim answer [ refused ↦ s | accepted at ↦ record s { expires_at = or_never at } ])

-- `_checkTokenExpiration`: whether it warns, and whether it sets a timer for another check.
unfoldable pub check_token_expiration : ℕ → Session → Bool × Bool
check_token_expiration now s =
    if eqb s.expires_at 0
    then (false, false)
    else (leb (1000 * s.expires_at) (now + 60000), not (expired now s))

-- At most `fuel` checks, each by the timer of the one before, 30 seconds later: the times at which
-- they warn.
unfoldable pub token_checks : ℕ → ℕ → Session → List ℕ
unfolding check_token_expiration
token_checks zero now s = []
token_checks (suc fuel) now s =
    let (warns, again) = check_token_expiration now s in
    let later = token_checks fuel (now + 30000) s in
    let rest = if again then later else [] in if warns then now ∷ rest else rest
