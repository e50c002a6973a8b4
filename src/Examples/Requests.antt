-- ===== src/Examples/Requests.antt =====
-- The requests of a call at concrete inputs.
use signalwire_node.Common.{◌≡◌, [], ◌∷◌, true}
use signalwire_node.Common.Dict.{Dict, lookup}
use signalwire_node.Common.Json.{Json}
use signalwire_node.Messages.{dialog_params}
use signalwire_node.Messages.Dialog.{told, dialog_params-told}

abbrev options : Dict Json
options =
    ("id", Json.str "c1")
    ∷ ("micId", Json.str "m1")
    ∷ ("callerName", Json.str "Ann")
    ∷ ("audio", Json.bool true)
    ∷ []

dialog_params-told_example : lookup "callID" (dialog_params options) ≡ told "callID" options
dialog_params-told_example = dialog_params-told options "callID"
