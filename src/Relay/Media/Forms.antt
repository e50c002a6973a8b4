-- ===== src/Relay/Media/Forms.antt =====
-- The flat and the nested form of what the user passes come to the same.
use signalwire_node.Common.{
  ◌≡◌, ◌≢◌, refl, ap, sym, ◌∙◌, subst, Bool, true, false, ◌||◌, Option, none, some, [], ◌∷◌, String,
  arith, ◌==◌, eq_iff, eq-false, if◌then◌else◌, Bool-cases, inl, inr, All,
}
use signalwire_node.Common.Dict.{Dict, lookup, insert, delete, lookup-insert, lookup-delete}
use signalwire_node.Common.Json.{Json}
use signalwire_node.Browser.{keys}
use signalwire_node.Browser.Calls.{IsDict, delete-absent}
use signalwire_node.Relay.Media.{
  entries, properties, to_fields, to_json, spread, prepare_record_params, destruct_calling_play,
}

-- The first value that is there.
abbrev pub prefer : Option Json → Option Json → Option Json
prefer none other = other
prefer (some j) other = some j

lookup-absent : (k : String) (m : Dict Json) → All (λ j. j ≢ k) (keys m) → lookup k m ≡ none
unfolding lookup
lookup-absent k [] h = refl
lookup-absent k ((j, v) ∷ m) (a, h) = rw (eq-false j k a) (lookup-absent k m h)

lookup-cons :
    (k name : String) (held : Json) (m : Dict Json)
    → lookup k ((name, held) ∷ m) ≡ (if name == k then some held else lookup k m)
unfolding lookup
lookup-cons k name held m = refl

prefer-cons :
    (k name : String) (held : Json) (first others : Dict Json)
    → All (λ j. j ≢ name) (keys others)
    → (t : Bool) → (name == k) ≡ t
    → prefer (lookup k others) (if t then some held else lookup k first)
      ≡ prefer (if t then some held else lookup k others) (lookup k first)
prefer-cons k name held first others a false e = refl
prefer-cons k name held first others a true e =
    let absent = subst (λ x. All (λ j. j ≢ x) (keys others)) ((eq_iff name k).0 e) a in
    ap (λ o. prefer o (some held)) (lookup-absent k others absent)

pub lookup-spread :
    (k : String) (first second : Dict Json)
    → IsDict second
    → lookup k (spread first second) ≡ prefer (lookup k second) (lookup k first)
unfolding spread
lookup-spread k first [] h = sym (ap (λ o. prefer o (lookup k first)) (lookup-absent k [] tt))
lookup-spread k first ((name, held) ∷ others) (a, h) =
    lookup-spread k (insert name held first) others h
    ∙ ap (prefer (lookup k others)) (lookup-insert name k held first)
    ∙ prefer-cons k name held first others a (name == k) refl
    ∙ ap (λ o. prefer o (lookup k first)) (sym (lookup-cons k name held others))

delete-keys :
    (gone : String) (P : String → Type 0) (m : Dict Json)
    → All P (keys m)
    → All P (keys (delete gone m))
unfolding delete
delete-keys gone P [] h = tt
delete-keys gone P ((j, v) ∷ m) (a, h) = elim (Bool-cases (j == gone)) [
  | inl e ↦ rw e (delete-keys gone P m h)
  | inr e ↦ rw e (a, delete-keys gone P m h)
]

delete-IsDict : (gone : String) (m : Dict Json) → IsDict m → IsDict (delete gone m)
unfolding delete
delete-IsDict gone [] h = tt
delete-IsDict gone ((j, v) ∷ m) (a, h) = elim (Bool-cases (j == gone)) [
  | inl e ↦ rw e (delete-IsDict gone m h)
  | inr e ↦ rw e (delete-keys gone (λ i. i ≢ j) m a, delete-IsDict gone m h)
]

-- A property of the prepared record is the one that the user passes flat, if there is one, and else
-- the one in the `audio` that the user passes; `audio` and `type` themselves are not passed on flat.
pub prepare_record_params-lookup :
    (params : Dict Json) (k : String)
    → IsDict params
    → lookup k (prepare_record_params params)
      ≡ prefer
          (if ("audio" == k) || ("type" == k) then none else lookup k params)
          (lookup k (properties (lookup "audio" params)))
unfolding prepare_record_params
prepare_record_params-lookup params k h =
    lookup-spread k (properties (lookup "audio" params)) (delete "type" (delete "audio" params))
      (delete-IsDict "type" (delete "audio" params) (delete-IsDict "audio" params h))
    ∙ ap (λ o. prefer o (lookup k (properties (lookup "audio" params))))
        (lookup-delete "type" k (delete "audio" params)
          ∙ ap (λ o. if "type" == k then none else o) (lookup-delete "audio" k params)
          ∙ ground arith)

entries-to_fields : (o : Dict Json) → entries (to_fields o) ≡ o
entries-to_fields [] = refl
entries-to_fields ((k, v) ∷ o) = ap (◌∷◌ (k, v)) (entries-to_fields o)

-- A media of a play in the two forms.
abbrev pub flat_media : Json → Dict Json → Dict Json
flat_media type params = ("type", type) ∷ params

abbrev pub nested_media : Json → Dict Json → Dict Json
nested_media type params = ("type", type) ∷ ("params", to_json params) ∷ []

nested-result :
    (type : Json) (params : Dict Json)
    → destruct_calling_play (nested_media type params) ≡ record { type = type; params = params }
unfolding destruct_calling_play spread lookup delete
nested-result type params = ap (λ o. record { type = type; params = o }) (entries-to_fields params)

flat-result :
    (type : Json) (params : Dict Json)
    → All (λ j. j ≢ "type") (keys params)
    → All (λ j. j ≢ "params") (keys params)
    → destruct_calling_play (flat_media type params) ≡ record { type = type; params = params }
unfolding destruct_calling_play
flat-result type params h k =
    rw (lookup-absent "params" params k, delete-absent "type" params h) refl

-- A media of a play comes to the same, its type and its params, whether the user nests the params or
-- passes them flat, if none of them is called type or params.
pub destruct_calling_play-forms :
    (type : Json) (params : Dict Json)
    → All (λ j. j ≢ "type") (keys params)
    → All (λ j. j ≢ "params") (keys params)
    → (destruct_calling_play (flat_media type params) ≡ record { type = type; params = params })
      × (destruct_calling_play (flat_media type params)
          ≡ destruct_calling_play (nested_media type params))
destruct_calling_play-forms type params h k =
    (flat-result type params h k, flat-result type params h k ∙ sym (nested-result type params))
