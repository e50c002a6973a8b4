-- ===== src/Session/Setup.antt =====
-- packages/common/src/services/Setup.ts: the protocol of a session, which the storage remembers under
-- the session's signature.
use Prim.Native.Char.{Char, code}
use signalwire_node.Common.{
  Bool, true, false, Option, none, some, List, String, ◌==◌, eqb, if◌then◌else◌,
}
use signalwire_node.Common.Dict.{Dict, lookup, insert}
use signalwire_node.Session.Subscriptions.{Subscribed, subscribed}

-- `text.split('_')`, the part at 1.
abbrev pub up_to : Char → String → String
up_to c rest = if eqb (code c) b'_' then String.[] else String.◌∷◌ c rest

unfoldable first_word : String → String
first_word String.[] = String.[]
first_word (String.◌∷◌ c s) = up_to c (first_word s)

unfoldable pub second_word : String → Option String
unfolding first_word
second_word String.[] = none
second_word (String.◌∷◌ c s) = elim (eqb (code c) b'_') [
  | true ↦ some (first_word s)
  | false ↦ second_word s
]

abbrev pub matches_signature : String → Option String → Bool
matches_signature signature none = false
matches_signature signature (some protocol) =
    if protocol == ""
    then false
    else (elim (second_word protocol) [ none ↦ false | some w ↦ w == signature ])

abbrev pub unless_empty : Option String → Option String
unless_empty none = none
unless_empty (some s) = if s == "" then none else some s

-- `params.protocol` of the request, of the session's own protocol or of the one that is stored.
unfoldable pub setup_protocol : String → Option String → Dict String → Option String
unfolding second_word lookup
setup_protocol signature relay_protocol storage =
    if matches_signature signature relay_protocol
    then relay_protocol
    else unless_empty (lookup signature storage)

-- The answer of the server, and that of the subscription to the channel of notifications.
unfoldable pub set_up :
    String
    → Option String
    → List String
    → List String
    → Subscribed × Dict String
    → Subscribed × Dict String
unfolding subscribed insert
set_up signature answer failed channels (s, storage) = elim (unless_empty answer) [
  | none ↦ (s, storage)
  | some protocol ↦ (subscribed protocol none failed channels s, insert signature protocol storage)
]
