-- ===== src/Util/Unwrapping.antt =====
-- Which error of a nested answer is reported, and whose node id is written into a result.
use signalwire_node.Common.{
  ◌≡◌, refl, Option, none, List, [], ◌∷◌, String, Bool-cases, inl, inr, if◌then◌else◌,
}
use signalwire_node.Common.Json.{Json}
use signalwire_node.Util.{
  Response, failed, flat, nested, verto, Settled, error, result, is_bad, destruct_response,
}

-- The errors of all levels, the outermost first.
abbrev pub errors : Response → List Json
errors (failed e) = e ∷ []
errors (flat object) = []
errors (nested code inner object) = if is_bad code then object ∷ [] else []
errors (verto code inner object response) =
    if is_bad code then object ∷ errors response else errors response

-- The object of the innermost level.
abbrev pub innermost : Response → Json
innermost (failed e) = e
innermost (flat object) = object
innermost (nested code inner object) = object
innermost (verto code inner object response) = innermost response

-- The node id of the level around a flat result, `outer` if there is none; a nested result gets none.
abbrev pub node_of : Option String → Response → Option String
node_of outer (failed e) = none
node_of outer (flat object) = outer
node_of outer (nested code inner object) = none
node_of outer (verto code inner object response) = node_of inner response

-- The first error, or else a result.
abbrev pub first_error : List Json → Settled → Settled
first_error [] otherwise = otherwise
first_error (e ∷ es) otherwise = error e

-- An answer is an error exactly if one of its levels has one, and then the outermost is reported;
-- else it is the object of the innermost level, and has the node id of the level around it, or the given
-- one if there is none around it, where this level has no code of its own, and no node id where it has.
pub destruct_response-outermost :
    (response : Response) (node_id : Option String)
    → destruct_response response node_id
      ≡ first_error (errors response) (result (innermost response) (node_of node_id response))
unfolding destruct_response
destruct_response-outermost (failed e) node_id = refl
destruct_response-outermost (flat object) node_id = refl
destruct_response-outermost (nested code inner object) node_id = elim (Bool-cases (is_bad code)) [
  | inl e ↦ rw (e, destruct_response) refl
  | inr e ↦ rw (e, destruct_response) refl
]
destruct_response-outermost (verto code inner object response) node_id =
    elim (Bool-cases (is_bad code)) [
      | inl e ↦ rw (e, destruct_response) refl
      | inr e ↦ rw (e, destruct_response) (destruct_response-outermost response inner)
    ]
