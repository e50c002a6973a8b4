-- ===== src/Webrtc/Devices.antt =====
-- packages/common/src/webrtc/helpers.ts: the devices of the browser, constraints for them, the tracks
-- of a stream and the ICE servers. What the browser answers is a parameter.
pub mod Listing
pub mod Media
use Prim.Native.String.{◌++◌ as ◌<>◌}
use signalwire_node.Common.{
  ℕ, Bool, true, false, not, ◌&&◌, ◌||◌, Option, none, some, List, [], ◌∷◌, String, ◌==◌,
  if◌then◌else◌, keep, includes,
}
use signalwire_node.Common.Dict.{Dict, lookup, insert, has}
use signalwire_node.Common.Json.{Json, object}
use signalwire_node.Common.Text.{contains}

pub record Device : Type 0 where
  pub kind : String
  pub device_id : String
  pub label : String
  pub group_id : String

-- One round of `getDevices`: what `enumerateDevices` lists, which is nothing if it fails, and whether
-- `getUserMedia` is granted if the round asks for it.
pub record Round : Type 0 where
  pub enumerated : List Device
  pub granted : Bool

-- `pending` stands for a promise that the rounds so far have not settled.
pub data Devices : Type 0 where
  found : List Device → Devices
  refused : Devices
  pending : Devices

abbrev pub of_kind : Option String → List Device → List Device
of_kind none ds = ds
of_kind (some kind) ds = if kind == "" then ds else keep (λ d. d.kind == kind) ds

abbrev pub each_named : List Device → Bool
each_named [] = true
each_named (d ∷ ds) = (not (d.device_id == "") && not (d.label == "")) && each_named ds

abbrev pub is_valid : List Device → Bool
is_valid [] = false
is_valid (d ∷ ds) = each_named (d ∷ ds)

abbrev pub group_key : Device → String
group_key d = d.kind <> "-" <> d.group_id

-- The filter over the devices; `seen` are the keys found so far.
unfoldable pub one_per_group : List String → List Device → List Device
one_per_group seen [] = []
one_per_group seen (d ∷ ds) = elim (d.group_id == "") [
  | true ↦ d ∷ one_per_group seen ds
  | false ↦ elim (includes seen (group_key d)) [
    | true ↦ one_per_group seen ds
    | false ↦ d ∷ one_per_group (group_key d ∷ seen) ds
  ]
]

-- `getDevices`, over the rounds that come: it calls itself without `fullList`.
unfoldable pub get_devices : Option String → Bool → List Round → Devices
unfolding one_per_group
get_devices kind full_list [] = pending
get_devices kind full_list (r ∷ rounds) =
    let devices = of_kind kind r.enumerated in
    elim (is_valid devices) [
      | true ↦ found (if full_list then devices else one_per_group [] devices)
      | false ↦ elim r.granted [ true ↦ get_devices kind false rounds | false ↦ refused ]
    ]

abbrev pub first_match : String → String → List Device → Option String
first_match id label [] = none
first_match id label (d ∷ ds) =
    if (id == d.device_id) || (label == d.label) then some d.device_id else first_match id label ds

-- `assureDeviceId`, where the devices are found.
unfoldable pub assure_device_id : String → String → List Device → Option String
assure_device_id id label devices = first_match id label devices

-- The constraints of one kind of media: a flag or an object.
pub data Constraint : Type 0 where
  flag : Bool → Constraint
  set : Dict Json → Constraint

abbrev exactly : String → Json
exactly id = object (("exact", Json.str id) ∷ [])

abbrev pub with_device : Option String → Constraint → Constraint
with_device none c = c
with_device (some id) (flag b) = set (insert "deviceId" (exactly id) [])
with_device (some id) (set o) = set (insert "deviceId" (exactly id) o)

-- A device of `getMediaConstraints`: `assured` is what `assureDeviceId` gives, where an id is wanted.
abbrev pub wanted_device : Option String → Option String → Option String
wanted_device none assured = none
wanted_device (some id) none = none
wanted_device (some id) (some device) = if (id == "") || (device == "") then none else some device

-- `getMediaConstraints`: audio and video, each with the device that is asked for and its answer.
unfoldable pub get_media_constraints :
    Option Constraint
    → Option String
    → Option String
    → Option Constraint
    → Option String
    → Option String
    → Constraint × Constraint
unfolding insert
get_media_constraints audio mic_id mic video cam_id cam = (
  with_device (wanted_device mic_id mic) (elim audio [ none ↦ flag true | some a ↦ a ]),
  with_device (wanted_device cam_id cam) (elim video [ none ↦ flag false | some v ↦ v ]),
)

-- A constraint that is `null` or `undefined`.
abbrev pub is_missing : Json → Bool
is_missing Json.undefined = true
is_missing Json.null = true
is_missing j = false

-- `removeUnsupportedConstraints`
unfoldable pub remove_unsupported_constraints : (String → Bool) → Dict Json → Dict Json
remove_unsupported_constraints supported constraints =
    keep (λ entry. supported entry.0 && not (is_missing entry.1)) constraints

-- `isDefined` of a property.
abbrev pub is_defined : Option Json → Bool
is_defined none = false
is_defined (some Json.undefined) = false
is_defined (some j) = true

-- `checkDeviceIdConstraints`; `assured` is what `assureDeviceId` gives.
unfoldable pub check_device_id_constraints : String → String → Option String → Dict Json → Dict Json
unfolding lookup insert
check_device_id_constraints id label assured constraints =
    if is_defined (lookup "deviceId" constraints) || ((id == "") && (label == ""))
    then constraints
    else (elim assured [
      | none ↦ constraints
      | some device ↦
          if device == "" then constraints else insert "deviceId" (exactly device) constraints
    ])

pub record Track : Type 0 where
  pub is_audio : Bool
  pub enabled : Bool

-- `enabled` of `_updateMediaStreamTracks`: set, or turned over.
pub data Change : Type 0 where
  on off toggle : Change

abbrev pub changed : Change → Track → Track
changed on t = record t { enabled = true }
changed off t = record t { enabled = false }
changed toggle t = record t { enabled = not t.enabled }

abbrev pub is_same : Bool → Bool → Bool
is_same true b = b
is_same false b = not b

-- `kind` is `none` for the tracks of both kinds.
abbrev pub update_track : Option Bool → Change → Track → Track
update_track none change t = changed change t
update_track (some audio) change t = if is_same audio t.is_audio then changed change t else t

-- `_updateMediaStreamTracks`, of the tracks of a valid stream.
unfoldable pub update_media_stream_tracks : Option Bool → Change → List Track → List Track
update_media_stream_tracks kind change [] = []
update_media_stream_tracks kind change (t ∷ ts) =
    update_track kind change t ∷ update_media_stream_tracks kind change ts

-- `urls` of an ICE server.
pub data Urls : Type 0 where
  one : String → Urls
  many : List String → Urls

pub record IceServer : Type 0 where
  pub urls : Urls
  pub username : Option String
  pub credential : Option String

abbrev pub tcp_only : Urls → Urls
tcp_only (many urls) = many (keep (contains "transport=tcp") urls)
tcp_only (one url) = one (if contains "transport=tcp" url then url else "")

-- `filterIceServers`
unfoldable pub filter_ice_servers : List IceServer → Bool → List IceServer
unfolding contains
filter_ice_servers [] disable_udp = []
filter_ice_servers (s ∷ servers) disable_udp =
    record s { urls = if disable_udp then tcp_only s.urls else s.urls }
    ∷ filter_ice_servers servers disable_udp
