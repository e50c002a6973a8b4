-- ===== src/Examples/Params.antt =====
-- Tokens, setups, and the params of plays.
use signalwire_node.Common.{◌≡◌, ◌<◌, ◌≤◌, ◌+◌, ◌*◌, ℕ, some, arith, get_elem?}
use signalwire_node.Session.{Session}
use signalwire_node.Session.Token.{token_checks}
use signalwire_node.Session.Token.Warnings.{token_checks-in_time}
use signalwire_node.Examples.Sessions.{resting}

-- The token expires two minutes after the first check.
abbrev with_token : Session
with_token = record resting { expires_at = 120 }

token_checks-in_time_example :
    (t : ℕ) × (get_elem? (token_checks 3 0 with_token) 0 ≡ some t)
    × (t < 1000 * 120)
    × (1000 * 120 ≤ t + 60000)
token_checks-in_time_example =
    token_checks-in_time 2 0 with_token (λ e. omega (arith, e)) (omega arith) (omega arith)
