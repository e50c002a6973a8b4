-- ===== src/Relay/Messaging.antt =====
-- packages/common/src/relay/messaging: a message that a notification carries, the request that sends
-- one, and what comes of it; and packages/common/src/relay/tasking/Task.ts. An object is a `Dict Json`.
pub mod Sending
use Prim.Native.String.{◌++◌ as concat}
use signalwire_node.Common.{
  ℕ, Bool, true, false, not, ◌&&◌, ◌||◌, Option, none, some, [], ◌∷◌, String, ◌==◌, eqb,
  if◌then◌else◌,
}
use signalwire_node.Common.Dict.{Dict, lookup, insert, delete}
use signalwire_node.Common.Json.{Json, array}
use signalwire_node.Relay.Media.{is_truthy, is_defined, or_undefined, to_json}
use signalwire_node.Messages.{execute}

-- The properties that the constructor reads; one that is missing is `undefined`.
pub record Message : Type 0 where
  pub id : Json
  pub state : Json
  pub context : Json
  pub from : Json
  pub to : Json
  pub body : Json
  pub direction : Json
  pub media : Json
  pub segments : Json
  pub tags : Json
  pub reason : Json

abbrev property : String → Dict Json → Json
property name o = or_undefined (lookup name o)

-- `options[name] || []`
abbrev or_empty : String → Dict Json → Json
or_empty name o = if is_truthy (lookup name o) then property name o else array []

unfoldable pub new_message : Dict Json → Message
unfolding lookup
new_message options = record {
  id = property "message_id" options;
  state = property "message_state" options;
  context = property "context" options;
  from = property "from_number" options;
  to = property "to_number" options;
  body = property "body" options;
  direction = property "direction" options;
  media = or_empty "media" options;
  segments = property "segments" options;
  tags = or_empty "tags" options;
  reason = property "reason" options;
}

-- `const { from = '' } = params`
abbrev pub or_empty_text : Option Json → Json
or_empty_text o = if is_defined o then or_undefined o else Json.str ""

-- What `send` makes of the object that the user passes: it is the user's own object, and it is changed.
unfoldable pub send_params : Dict Json → Dict Json
unfolding lookup insert delete
send_params params =
    let from = or_empty_text (lookup "from" params) in
    let to = or_empty_text (lookup "to" params) in
    delete "to" (delete "from" (insert "to_number" to (insert "from_number" from params)))

-- `send`: the request, and the object as the user has it afterwards.
unfoldable pub send : String → Option String → Dict Json → Dict Json × Dict Json
unfolding execute send_params
send id relay_protocol params =
    let changed = send_params params in
    (
      execute id
          (("protocol", elim relay_protocol [ none ↦ Json.null | some p ↦ Json.str p ])
            ∷ ("method", Json.str "messaging.send")
            ∷ ("params", to_json changed)
            ∷ [])
          "",
      changed,
    )

pub record SendResult : Type 0 where
  pub successful : Bool
  pub message_id : Json

abbrev is_text : String → Option Json → Bool
is_text wanted (some (Json.str s)) = s == wanted
is_text wanted o = false

-- The truth of `result.code && result.code === '200'`.
unfoldable pub send_result : Dict Json → SendResult
unfolding lookup
send_result result = record {
  successful = is_truthy (lookup "code" result) && is_text "200" (lookup "code" result);
  message_id = property "message_id" result;
}

pub record Task : Type 0 where
  pub host : String
  pub project : String
  pub token : String

-- `none` is the error of the constructor.
unfoldable pub new_task : String → String → Option Task
new_task project token =
    if (project == "") || (token == "")
    then none
    else some (record { host = "relay.signalwire.com"; project = project; token = token })

pub record HttpRequest : Type 0 where
  pub host : String
  pub port : ℕ
  pub method : String
  pub path : String
  pub authorization : String
  pub content_type : String
  pub content_length : ℕ
  pub body : String

-- `JSON.stringify`, the base64 text of a `Buffer`, and the `length` of a text are not this code's.
module _ (stringify : Json → String) (base64 : String → String) (length : String → ℕ) where
  unfoldable pub deliver : Task → String → Json → HttpRequest
  deliver task context message =
      let written =
        stringify (to_json (("context", Json.str context) ∷ ("message", message) ∷ [])) in
      record {
        host = task.host;
        port = 443;
        method = "POST";
        path = "/api/relay/rest/tasks";
        authorization = concat "Basic " (base64 (concat task.project (concat ":" task.token)));
        content_type = "application/json";
        content_length = length written;
        body = written;
      }

-- Whether the promise of `deliver` is resolved: `none` is an error of the request.
unfoldable pub is_delivered : Option ℕ → Bool
is_delivered none = false
is_delivered (some status_code) = eqb status_code 204
