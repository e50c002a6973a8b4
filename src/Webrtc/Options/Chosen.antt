-- ===== src/Webrtc/Options/Chosen.antt =====
-- Which options a new call has, and what of them the server is told.
use mathlib.Core.Path.{fun_ext}
use signalwire_node.Common.{
  List, none, [], ◌∷◌, ◌&&◌, includes, All, differ, ◌≢◌, arith, ◌≡◌, refl, ap, ◌∙◌, Bool, true,
  false, Option, some, String, ◌==◌, if◌then◌else◌, Bool-cases, inl, inr, eq_iff, subst, if-both,
  not,
}
use signalwire_node.Common.Dict.{Dict, lookup, insert, lookup-insert}
use signalwire_node.Common.Json.{Json}
use signalwire_node.Browser.{keys}
use signalwire_node.Browser.Calls.{IsDict}
use signalwire_node.Relay.Media.{spread, is_truthy, or_undefined}
use signalwire_node.Relay.Media.Forms.{prefer, lookup-spread}
use signalwire_node.Messages.{dialog_params}
use signalwire_node.Messages.Dialog.{dialog_params-told}
use signalwire_node.Messages.Renaming.{or_else}
use signalwire_node.Webrtc.Options.{
  SessionDefaults, session_options, default_call_options, call_defaults, assigned, is_blank,
  or_object, init_options, call_options,
}

-- The user's options come first, then the session's, then the defaults.
abbrev pub chosen : SessionDefaults → Dict Json → String → Option Json
chosen s opts name =
    prefer (lookup name opts)
      (prefer (lookup name (session_options s)) (lookup name default_call_options))

abbrev pub unless : Bool → Json → Option Json → Option Json
unless b other o = if b then o else some other

-- Three options never stay blank.
abbrev pub decided : SessionDefaults → String → (String → Option Json) → String → Option Json
decided s uuid o name =
    if "remoteCallerNumber" == name
    then unless (is_truthy (o "remoteCallerNumber")) (or_undefined (o "destinationNumber")) (o name)
    else (if "userVariables" == name
        then unless (not (is_blank (o "userVariables"))) (or_object s.user_variables) (o name)
        else (if "id" == name
            then unless (is_truthy (o "id")) (Json.str uuid) (o name)
            else o name))

-- A conditional write.
abbrev kept : Bool → String → Json → Dict Json → Dict Json
kept b set given o = if b then o else insert set given o

lookup-kept :
    (b : Bool) (set name : String) (given : Json) (o : Dict Json)
    → lookup name (kept b set given o)
      ≡ (if set == name then unless b given (lookup name o) else lookup name o)
lookup-kept true set name given o =
    if-both (λ x. lookup name o ≡ x) (set == name) (lookup name o) (lookup name o) (λ t. refl)
      (λ f. refl)
lookup-kept false set name given o = lookup-insert set name given o

filled-kept :
    (b : Bool) (set : String) (given : Json) (o : Dict Json)
    → (if b then insert set given o else o) ≡ kept (not b) set given o
filled-kept true set given o = refl
filled-kept false set given o = refl

abbrev IsDecided : SessionDefaults → String → Dict Json → Dict Json → String → Type 0
IsDecided s uuid o written name =
    (if "remoteCallerNumber" == name
      then unless (is_truthy (lookup "remoteCallerNumber" o))
          (or_undefined (lookup "destinationNumber" written)) (lookup name written)
      else lookup name written)
    ≡ decided s uuid (λ n. lookup n o) name

abbrev IsFilled : Json → String → Dict Json → String → Type 0
IsFilled object uuid o name =
    lookup name (
      kept (not (is_blank (lookup "userVariables" o))) "userVariables" object
        (kept (is_truthy (lookup "id" o)) "id" (Json.str uuid) o))
    ≡ (if "userVariables" == name
        then unless (not (is_blank (lookup "userVariables" o))) object (lookup name o)
        else (if "id" == name
            then unless (is_truthy (lookup "id" o)) (Json.str uuid) (lookup name o)
            else lookup name o))

kept-IsFilled :
    (object : Json) (uuid : String) (o : Dict Json) (name : String) → IsFilled object uuid o name
kept-IsFilled object uuid o name =
    let with_id = kept (is_truthy (lookup "id" o)) "id" (Json.str uuid) o in
    let blank = is_blank (lookup "userVariables" o) in
    let at = λ (n : String).
      lookup-kept (not blank) "userVariables" n object with_id
      ∙ ap (λ x. if "userVariables" == n then unless (not blank) object x else x)
          (lookup-kept (is_truthy (lookup "id" o)) "id" n (Json.str uuid) o) in
    elim (Bool-cases ("userVariables" == name)) [
      | inl e ↦
          subst (IsFilled object uuid o) ((eq_iff "userVariables" name).0 e) (at "userVariables")
      | inr e ↦ rw e (rw e at (at name))
    ]

lookup-init_options :
    (s : SessionDefaults) (uuid : String) (o : Dict Json) (name : String)
    → lookup name (init_options s uuid o) ≡ decided s uuid (λ n. lookup n o) name
unfolding init_options
lookup-init_options s uuid o name =
    let with_id = kept (is_truthy (lookup "id" o)) "id" (Json.str uuid) o in
    let blank = is_blank (lookup "userVariables" o) in
    let object = or_object s.user_variables in
    let with_variables = kept (not blank) "userVariables" object with_id in
    let at = kept-IsFilled object uuid o in
    let at_number : lookup "remoteCallerNumber" with_variables ≡ lookup "remoteCallerNumber" o =
      at "remoteCallerNumber" in
    let at_destination : lookup "destinationNumber" with_variables ≡ lookup "destinationNumber" o =
      at "destinationNumber" in
    let number = is_truthy (lookup "remoteCallerNumber" o) in
    let last = λ (w : Dict Json).
      kept number "remoteCallerNumber" (or_undefined (lookup "destinationNumber" w)) w in
    ap (λ w. lookup name (last w)) (filled-kept blank "userVariables" object with_id)
    ∙ lookup-kept number "remoteCallerNumber" name
        (or_undefined (lookup "destinationNumber" with_variables)) with_variables
    ∙ elim (Bool-cases ("remoteCallerNumber" == name)) [
      | inl e ↦
          subst (λ n. IsDecided s uuid o with_variables n) ((eq_iff "remoteCallerNumber" name).0 e)
            (ap (unless number (or_undefined (lookup "destinationNumber" with_variables))) at_number
              ∙ ap (λ d. unless number (or_undefined d) (lookup "remoteCallerNumber" o))
                  at_destination)
      | inr e ↦ rw e (at name)
    ]

-- The names of an object are told apart by computation.
abbrev are_distinct : List String → Bool
are_distinct [] = true
are_distinct (n ∷ ns) = not (includes ns n) && are_distinct ns

absent : (n : String) (ns : List String) → includes ns n ≡ false → All (λ j. j ≢ n) ns
absent n [] h = tt
absent n (k ∷ ns) h = (differ k n (ground arith), absent n ns (ground arith))

are_distinct-IsDict : (o : Dict Json) → are_distinct (keys o) ≡ true → IsDict o
are_distinct-IsDict [] h = tt
are_distinct-IsDict ((n, v) ∷ o) h =
    (absent n (keys o) (ground arith), are_distinct-IsDict o (ground arith))

prefer_none : (o : Option Json) → prefer o none ≡ o
prefer_none none = refl
prefer_none (some j) = refl

lookup-call_defaults :
    (s : SessionDefaults) (n : String)
    → lookup n (call_defaults s)
      ≡ prefer (lookup n (session_options s)) (lookup n default_call_options)
unfolding call_defaults default_call_options lookup
lookup-call_defaults s n =
    lookup-spread n (spread [] default_call_options) (session_options s)
      (are_distinct-IsDict (session_options s) refl)
    ∙ ap (prefer (lookup n (session_options s))) (
        lookup-spread n [] default_call_options (are_distinct-IsDict default_call_options refl)
        ∙ prefer_none (lookup n default_call_options))

lookup-assigned :
    (s : SessionDefaults) (opts : Dict Json) (n : String)
    → IsDict opts
    → lookup n (assigned s opts) ≡ chosen s opts n
unfolding assigned
lookup-assigned s opts n h =
    lookup-spread n (call_defaults s) opts h
    ∙ ap (prefer (lookup n opts)) (lookup-call_defaults s n)

-- A new call has each option as the user has given it, else as the session has it, else by default. A
-- blank id is replaced by the new one, blank user variables by those of the session, and a blank number
-- of the remote caller by the number that is called. The server is told that id as the call's, and that
-- number as the remote caller's.
pub call_options-decided :
    (s : SessionDefaults) (uuid : String) (opts : Dict Json) (name : String)
    → IsDict opts
    → let options = call_options s uuid opts in
      let settled = decided s uuid (chosen s opts) in
      (lookup name options ≡ settled name)
      × (lookup "callID" (dialog_params options) ≡ or_else (settled "id") (settled "callID"))
      × (lookup "remote_caller_id_number" (dialog_params options)
          ≡ or_else (settled "remoteCallerNumber") (settled "remote_caller_id_number"))
unfolding call_options
call_options-decided s uuid opts name h =
    let options = call_options s uuid opts in
    let has : (n : String) → lookup n options ≡ decided s uuid (chosen s opts) n = λ n.
      lookup-init_options s uuid (assigned s opts) n
      ∙ ap (λ o. decided s uuid o n) (fun_ext (λ k. lookup-assigned s opts k h)) in
    (
      has name,
      dialog_params-told options "callID"
          ∙ ap (λ o. or_else o (lookup "callID" options)) (has "id")
          ∙ ap (or_else (decided s uuid (chosen s opts) "id")) (has "callID"),
      dialog_params-told options "remote_caller_id_number"
          ∙ ap (λ o. or_else o (lookup "remote_caller_id_number" options))
              (has "remoteCallerNumber")
          ∙ ap (or_else (decided s uuid (chosen s opts) "remoteCallerNumber"))
              (has "remote_caller_id_number"),
    )
