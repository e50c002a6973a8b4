-- ===== src/Util.antt =====
-- packages/common/src/util/helpers.ts: what an answer of the socket comes down to.
pub mod Unwrapping
use signalwire_node.Common.{Bool, true, false, not, ◌&&◌, Option, none, some, String, ◌==◌}
use signalwire_node.Common.Json.{Json}

-- An answer: with an `error`; with a `result` that has no further `result`; with one that has; and
-- with one whose `result` is a Verto answer of its own. The nested ones have a `code` and a `node_id`,
-- and the object itself.
pub data Response : Type 0 where
  failed : Json → Response
  flat : Json → Response
  nested : Option String → Option String → Json → Response
  verto : Option String → Option String → Json → Response → Response

-- What comes of it: an error, or a result, with the `node_id` that is written into it.
pub data Settled : Type 0 where
  error : Json → Settled
  result : Json → Option String → Settled

-- `code && code !== '200'`
abbrev pub is_bad : Option String → Bool
is_bad none = false
is_bad (some code) = not (code == "") && not (code == "200")

-- `destructResponse`
unfoldable pub destruct_response : Response → Option String → Settled
destruct_response (failed e) node_id = error e
destruct_response (flat object) node_id = result object node_id
destruct_response (nested code inner object) node_id = elim (is_bad code) [
  | true ↦ error object
  | false ↦ result object none
]
destruct_response (verto code inner object response) node_id = elim (is_bad code) [
  | true ↦ error object
  | false ↦ destruct_response response inner
]
