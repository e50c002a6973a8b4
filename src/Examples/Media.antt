-- ===== src/Examples/Media.antt =====
-- Devices of the browser, and answers of the socket.
use signalwire_node.Common.{◌≡◌, refl, true, none, some, List, [], ◌∷◌, ◌++◌, String}
use signalwire_node.Common.Json.{Json}
use signalwire_node.Webrtc.Devices.{Device, Round, found, of_kind, get_devices}
use signalwire_node.Webrtc.Devices.Listing.{IsListing, get_devices-ends}
use signalwire_node.Util.{Response, failed, verto, error, destruct_response}
use signalwire_node.Util.Unwrapping.{destruct_response-outermost}

abbrev mic : String → String → Device
mic id label = record { kind = "audioinput"; device_id = id; label = label; group_id = "g" }

abbrev hidden : Round
hidden = record { enumerated = mic "" "" ∷ []; granted = true }

abbrev shown : Round
shown = record { enumerated = mic "default" "Default" ∷ mic "m1" "Microphone" ∷ []; granted = true }

-- The full list is asked for, and one of the two microphones is listed.
get_devices-ends_example :
    (listed : List Device) × (get_devices (some "audioinput") true ((hidden ∷ []) ++ shown ∷ [])
      ≡ found listed)
    × IsListing true (hidden ∷ []) listed (of_kind (some "audioinput") shown.enumerated)
get_devices-ends_example =
    get_devices-ends (some "audioinput") true (hidden ∷ []) shown [] ((refl, refl), tt) refl

abbrev wrapped : Response
wrapped = verto (some "200") (some "node") Json.null (failed (Json.str "CALL DOES NOT EXIST"))

destruct_response-outermost_example :
    destruct_response wrapped none ≡ error (Json.str "CALL DOES NOT EXIST")
destruct_response-outermost_example = destruct_response-outermost wrapped none
