-- ===== src/Messages.antt =====
-- packages/common/src/messages: the requests that go out. An object is a `Dict Json`, and the `id` of a
-- request is an argument.
pub mod Renaming
pub mod Dialog
use signalwire_node.Common.{
  ℕ, Bool, true, false, not, ◌&&◌, Option, none, some, List, [], ◌∷◌, String, ◌==◌, if◌then◌else◌,
}
use signalwire_node.Common.Dict.{Dict, lookup, insert, delete, has}
use signalwire_node.Common.Json.{Json, Fields, ℤ}
use signalwire_node.Relay.Media.{spread, to_json, entries, is_truthy}

-- `buildRequest` of BaseMessage.
unfoldable pub build_request : String → Dict Json → Dict Json
unfolding spread
build_request id params = spread (("jsonrpc", Json.str "2.0") ∷ ("id", Json.str id) ∷ []) params

-- `tmpMap` of BaseRequest, in its order.
abbrev pub renamings : List (String × String)
renamings =
    ("id", "callID")
    ∷ ("destinationNumber", "destination_number")
    ∷ ("remoteCallerName", "remote_caller_id_name")
    ∷ ("remoteCallerNumber", "remote_caller_id_number")
    ∷ ("callerName", "caller_id_name")
    ∷ ("callerNumber", "caller_id_number")
    ∷ []

-- What the client keeps to itself.
abbrev pub private_names : List String
private_names =
    "remoteSdp" ∷ "localStream" ∷ "remoteStream" ∷ "onNotification" ∷ "camId" ∷ "micId"
    ∷ "speakerId" ∷ []

unfoldable pub without_names : List String → Dict Json → Dict Json
unfolding delete
without_names [] o = o
without_names (n ∷ ns) o = without_names ns (delete n o)

abbrev pub moved : String → String → Option Json → Dict Json → Dict Json
moved from to none o = o
moved from to (some j) o = delete from (insert to j o)

abbrev pub rename : String → String → Dict Json → Dict Json
rename from to o = moved from to (lookup from o) o

unfoldable pub rename_all : List (String × String) → Dict Json → Dict Json
unfolding lookup insert delete
rename_all [] o = o
rename_all ((from, to) ∷ rs) o = rename_all rs (rename from to o)

-- The `dialogParams` of a request, from the options of the call.
unfoldable pub dialog_params : Dict Json → Dict Json
unfolding without_names rename_all
dialog_params options = rename_all renamings (without_names private_names options)

-- The properties of a value that is an object.
abbrev pub properties : Json → Dict Json
properties (Json.obj fields) = entries fields
properties j = []

-- The constructor of BaseRequest, for the method that `toString` says.
unfoldable pub base_request : String → String → Dict Json → Dict Json
unfolding build_request dialog_params lookup insert
base_request id method params =
    let params' : Dict Json = elim (lookup "dialogParams" params) [
      | none ↦ params
      | some o ↦ insert "dialogParams" (to_json (dialog_params (properties o))) params
    ] in
    build_request id (("method", Json.str method) ∷ ("params", to_json params') ∷ [])

-- Login, and Result, whose id is that of the message that it answers.
unfoldable pub login : String → Json → Json → String → Json → Dict Json
unfolding build_request
login id user passwd session_id user_variables =
    let params : Dict Json =
      ("login", user)
      ∷ ("passwd", passwd)
      ∷ ("userVariables", user_variables)
      ∷ ("loginParams", Json.obj Fields.end)
      ∷ [] in
    build_request id (
      ("method", Json.str "login")
      ∷ (
        "params",
        to_json (
            if session_id == ""
            then params
            else spread params (("sessid", Json.str session_id) ∷ [])),
      )
      ∷ [])

unfoldable pub result : String → ℕ → String → Dict Json
unfolding build_request
result id answered method = build_request id (
    ("id", Json.num (ℤ.pos answered)) ∷ ("result", to_json (("method", Json.str method) ∷ [])) ∷ [])

-- Connect of Blade; an agent or a session id that is empty is left out.
abbrev pub given_text : String → String → Dict Json → Dict Json
given_text name text o = if text == "" then o else insert name (Json.str text) o

unfoldable pub connect : String → Json → String → String → Dict Json
unfolding build_request insert
connect id authentication session_id agent = build_request id (
    ("method", Json.str "blade.connect")
    ∷ (
      "params",
      to_json (
          given_text "agent" agent (
            given_text "sessionid" session_id (
              (
                "version",
                to_json (
                    ("major", Json.num (ℤ.pos 2))
                    ∷ ("minor", Json.num (ℤ.pos 1))
                    ∷ ("revision", Json.num (ℤ.pos 0))
                    ∷ []),
              )
              ∷ ("authentication", authentication)
              ∷ []))),
    )
    ∷ [])

-- Execute: an answer where the params have a result, else a request; an id that is given replaces the
-- new one.
unfoldable pub execute : String → Dict Json → String → Dict Json
unfolding build_request lookup
execute id params own_id =
    let body : Dict Json =
      if has "result" params
      then ("result", to_json params) ∷ []
      else ("method", Json.str "blade.execute") ∷ ("params", to_json params) ∷ [] in
    build_request id (given_text "id" own_id body)

unfoldable pub ping : String → Dict Json
unfolding build_request
ping id =
    build_request id (("method", Json.str "blade.ping") ∷ ("params", Json.obj Fields.end) ∷ [])

unfoldable pub reauthenticate : String → Json → Json → Json → Dict Json
unfolding build_request
reauthenticate id project jwt_token session_id = build_request id (
    ("method", Json.str "blade.reauthenticate")
    ∷ (
      "params",
      to_json (
          ("sessionid", session_id)
          ∷ ("authentication", to_json (("project", project) ∷ ("jwt_token", jwt_token) ∷ []))
          ∷ []),
    )
    ∷ [])

-- Subscription: a flag that is there and counts as false is left out.
abbrev pub without_false : String → Dict Json → Dict Json
without_false name params =
    if has name params && not (is_truthy (lookup name params)) then delete name params else params

unfoldable pub subscription : String → Dict Json → Dict Json
unfolding build_request lookup delete
subscription id params = build_request id (
    ("method", Json.str "blade.subscription")
    ∷ ("params", to_json (without_false "downstream" (without_false "auto_create" params)))
    ∷ [])

-- `execute` of packages/js/src/SignalWire.ts: a Verto request travels in an Execute of Blade.
unfoldable pub verto_execute : String → Option String → String → Dict Json → Dict Json
unfolding execute insert
verto_execute id relay_protocol target_node_id request =
    execute id
      (("protocol", elim relay_protocol [ none ↦ Json.null | some p ↦ Json.str p ])
        ∷ ("method", Json.str "message")
        ∷ (
          "params",
          to_json (given_text "node_id" target_node_id (("message", to_json request) ∷ [])),
        )
        ∷ [])
      ""
