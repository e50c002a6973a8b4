-- ===== src/Relay/Devices.antt =====
-- packages/common/src/relay/helpers.ts: the devices of a dial or a connect, from what the user
-- passes. `Deep A` is `DeepArray<A>`: lists nested to any depth.
pub mod Described
pub mod Shape
pub mod Connecting
use signalwire_node.Common.{
  ℕ, Bool, true, false, not, ◌&&◌, ◌||◌, Option, none, some, List, [], ◌∷◌, ◌++◌, String, ◌==◌, eqb,
  if◌then◌else◌,
}

mutual
  pub data Deep (A : Type 0) : Type 0 where
    one : A → Deep A
    many : Deeps A → Deep A

  pub data Deeps (A : Type 0) : Type 0 where
    nil : Deeps A
    cons : Deep A → Deeps A → Deeps A

pub record SipHeader : Type 0 where
  pub name : String
  pub value : String

-- IMakeCallParams, both kinds; a property that may be missing is an `Option`.
pub record MakeCallParams : Type 0 where
  pub type : Option String
  pub from : Option String
  pub to : Option String
  pub timeout : Option ℕ
  pub headers : Option (List SipHeader)
  pub codecs : Option (List String)
  pub webrtc_media : Option Bool
  pub from_name : Option String

-- `params` of an ICallDevice, phone and sip.
pub record DeviceParams : Type 0 where
  pub from_number : Option String
  pub to_number : Option String
  pub from : Option String
  pub to : Option String
  pub timeout : Option ℕ
  pub headers : Option (List SipHeader)
  pub codecs : Option (List String)
  pub webrtc_media : Option Bool
  pub from_name : Option String

pub record Device : Type 0 where
  pub type : String
  pub params : DeviceParams

abbrev pub no_params : DeviceParams
no_params = record {
  from_number = none;
  to_number = none;
  from = none;
  to = none;
  timeout = none;
  headers = none;
  codecs = none;
  webrtc_media = none;
  from_name = none;
}

-- Truth of a text, a number or a flag that may be missing.
abbrev pub text_truthy : Option String → Bool
text_truthy none = false
text_truthy (some s) = not (s == "")

abbrev pub number_truthy : Option ℕ → Bool
number_truthy none = false
number_truthy (some n) = not (eqb n 0)

abbrev pub flag_truthy : Option Bool → Bool
flag_truthy none = false
flag_truthy (some b) = b

abbrev pub or_else {ℓ} : {A : Type ℓ} → Option A → Option A → Option A
or_else none d = d
or_else (some a) d = some a

abbrev pub when_true {ℓ} : {A : Type ℓ} → Bool → Option A → Option A
when_true true a = a
when_true false a = none

abbrev pub default_call_timeout : ℕ
default_call_timeout = 30

-- The `options` of the accumulator.
pub record PrepareOptions : Type 0 where
  pub default_from_number : Option String
  pub default_timeout : Option ℕ
  pub validate : Bool

abbrev pub is_type : String → Option String → Bool
is_type s none = false
is_type s (some t) = t == s

abbrev pub is_filled : Option (List SipHeader) → Bool
is_filled none = false
is_filled (some []) = false
is_filled (some (h ∷ hs)) = true

-- `none` is the TypeError of the validation, `some none` is `undefined`.
unfoldable pub prepare_device : PrepareOptions → MakeCallParams → Option (Option Device)
prepare_device o p =
    let from = or_else p.from o.default_from_number in
    let timeout = or_else p.timeout (or_else o.default_timeout (some default_call_timeout)) in
    if o.validate
      && (not (text_truthy p.type)
          || (not (text_truthy p.to) || (not (number_truthy timeout) || not (text_truthy from))))
    then none
    else (if is_type "phone" p.type
        then some (
            some (record {
              type = "phone";
              params = record no_params { from_number = from; to_number = p.to; timeout = timeout };
            }))
        else (if is_type "sip" p.type
            then some (
                some (record {
                  type = "sip";
                  params = record no_params {
                    from = from;
                    to = p.to;
                    timeout = when_true (number_truthy timeout) timeout;
                    codecs = p.codecs;
                    webrtc_media = when_true (flag_truthy p.webrtc_media) p.webrtc_media;
                    headers = when_true (is_filled p.headers) p.headers;
                    from_name = when_true (text_truthy p.from_name) p.from_name;
                  };
                }))
            else some none))

-- What `_reducer` pushes for a device that is not nested already.
abbrev cast_array : Bool → Device → Deep Device
cast_array true d = one d
cast_array false d = many (cons (one d) nil)

abbrev push_device : Bool → Option Device → Deeps Device → Deeps Device
push_device nested none rest = rest
push_device nested (some d) rest = cons (cast_array nested d) rest

infixl 5 ◌>>=◌
abbrev ◌>>=◌ {ℓ κ} : {A : Type ℓ} {B : Type κ} → Option A → (A → Option B) → Option B
none >>= f = none
some a >>= f = f a

-- `peers.reduce(_reducer, …).devices`, with `nested` of the accumulator. Peers are objects or
-- arrays. The first TypeError leaves the whole reduction.
unfoldable mutual
  pub reduce_peers : PrepareOptions → Bool → Deeps MakeCallParams → Option (Deeps Device)
  reduce_peers o nested nil = some nil
  reduce_peers o nested (cons p rest) = reduce_peer o nested p (reduce_peers o nested rest)

  pub reduce_peer :
      PrepareOptions → Bool → Deep MakeCallParams → Option (Deeps Device) → Option (Deeps Device)
  reduce_peer o nested (one p) rest = do
    d ← prepare_device o p
    ds ← rest
    some (push_device nested d ds)
  reduce_peer o nested (many ps) rest = do
    inner ← reduce_peers o true ps
    ds ← rest
    some (cons (many inner) ds)

abbrev pub dial_options : PrepareOptions
dial_options = record { default_from_number = none; default_timeout = none; validate = true }

unfoldable pub prepare_dial_devices : Deeps MakeCallParams → Option (Deeps Device)
prepare_dial_devices = reduce_peers dial_options false

-- The defaults come from the device of the call that is connected.
abbrev pub connect_options : Device → PrepareOptions
connect_options call_device =
    let is_phone = call_device.type == "phone" in
    let is_sip = call_device.type == "sip" in
    record {
      default_from_number =
          if is_phone
          then call_device.params.from_number
          else (if is_sip then call_device.params.from else none);
      default_timeout = if is_phone then call_device.params.timeout else none;
      validate = false;
    }

unfoldable pub reduce_connect_params : Deeps MakeCallParams → Device → Option (Deeps Device)
reduce_connect_params peers call_device = reduce_peers (connect_options call_device) false peers

-- `flat(Infinity)`
unfoldable mutual
  pub flat : {A : Type 0} → Deeps A → List A
  flat nil = []
  flat (cons d rest) = flat_one d ++ flat rest

  pub flat_one : {A : Type 0} → Deep A → List A
  flat_one (one a) = a ∷ []
  flat_one (many ds) = flat ds
