-- ===== src/Relay/Messaging/Sending.antt =====
-- What the server is told of a message that is sent, also when its object is sent again.
use signalwire_node.Common.{
  ◌≡◌, refl, ap, ◌∙◌, Option, none, some, String, ◌==◌, ◌||◌, eq_iff, arith, subst, Bool-cases, inl,
  inr, if◌then◌else◌,
}
use signalwire_node.Common.Dict.{Dict, lookup, insert, delete, lookup-insert, lookup-delete}
use signalwire_node.Common.Json.{Json}
use signalwire_node.Relay.Messaging.{or_empty_text, send_params, send}

-- A property of the object afterwards.
abbrev pub sent : String → Dict Json → Option Json
sent name params =
    if "to" == name
    then none
    else (if "from" == name
        then none
        else (if "to_number" == name
            then some (or_empty_text (lookup "to" params))
            else (if "from_number" == name
                then some (or_empty_text (lookup "from" params))
                else lookup name params)))

lookup-send_params :
    (name : String) (params : Dict Json) → lookup name (send_params params) ≡ sent name params
unfolding send_params
lookup-send_params name params =
    let from = or_empty_text (lookup "from" params) in
    let to = or_empty_text (lookup "to" params) in
    let numbered = insert "from_number" from params in
    let addressed = insert "to_number" to numbered in
    lookup-delete "to" name (delete "from" addressed)
    ∙ ap (λ o. if "to" == name then none else o)
        (lookup-delete "from" name addressed
          ∙ ap (λ o. if "from" == name then none else o)
              (lookup-insert "to_number" name to numbered
                ∙ ap (λ o. if "to_number" == name then some to else o)
                    (lookup-insert "from_number" name from params)))

-- A property of the object when it has been sent once more.
abbrev pub resent : String → Dict Json → Option Json
resent name params =
    if ("to_number" == name) || ("from_number" == name)
    then some (Json.str "")
    else lookup name params

abbrev IsResent : String → Dict Json → Type 0
IsResent name params =
    (if "to" == name
      then none
      else (if "from" == name
          then none
          else (if "to_number" == name
              then some (Json.str "")
              else (if "from_number" == name then some (Json.str "") else sent name params))))
    ≡ (if ("to_number" == name) || ("from_number" == name)
        then some (Json.str "")
        else sent name params)

sent-resent :
    (name : String) (params : Dict Json)
    → sent name (send_params params) ≡ resent name (send_params params)
sent-resent name params =
    let first = send_params params in
    let from : lookup "from" first ≡ none = lookup-send_params "from" params in
    let to : lookup "to" first ≡ none = lookup-send_params "to" params in
    let same : lookup name first ≡ sent name params = lookup-send_params name params in
    rw (from, to, same)
      (elim (Bool-cases ("to" == name)) [
        | inl e ↦ subst (λ n. IsResent n params) ((eq_iff "to" name).0 e) refl
        | inr e ↦ elim (Bool-cases ("from" == name)) [
          | inl f ↦ subst (λ n. IsResent n params) ((eq_iff "from" name).0 f) refl
          | inr f ↦ rw (e, f) (ground arith)
        ]
      ])

-- The object of a message that is sent keeps all that the user has put into it, but has its `from` and
-- `to`, or empty texts where they are missing, as its two numbers instead. If it is sent again, both
-- numbers are empty.
pub send-again :
    (id id' : String) (relay_protocol : Option String) (params : Dict Json) (name : String)
    → let first = (send id relay_protocol params).1 in
      (lookup name first ≡ sent name params)
      × (lookup name (send id' relay_protocol first).1 ≡ resent name first)
unfolding send
send-again id id' relay_protocol params name = (
  lookup-send_params name params,
  lookup-send_params name (send_params params) ∙ sent-resent name params,
)
