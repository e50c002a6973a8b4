-- ===== src/Relay/Devices/Described.antt =====
-- What a prepared device has of its peer, in the words of the protocol.
use signalwire_node.Common.{
  ◌≡◌, refl, ap, Bool, true, Option, none, some, List, [], ◌∷◌, arith, false, ◌||◌, ◌==◌, eq_iff,
  String, ℕ, eqb, if◌then◌else◌, inl, inr, ◌⊎◌, subst,
}
use mathlib.Core.Option.{some-injective, none-ne-some}
use signalwire_node.Relay.Devices.{
  or_else, when_true, flag_truthy, is_filled, is_type, no_params, default_call_timeout, text_truthy,
  number_truthy, MakeCallParams, SipHeader, Device, DeviceParams, PrepareOptions, prepare_device,
}

-- A phone or a sip peer.
abbrev pub is_known : Option String → Bool
is_known none = false
is_known (some t) = (t == "phone") || (t == "sip")

abbrev pub wanted_timeout : Option ℕ → Option ℕ → ℕ
wanted_timeout (some t) d = t
wanted_timeout none (some d) = d
wanted_timeout none none = 30

abbrev pub wanted_number : Option String → Option String → Option String
wanted_number (some from) d = some from
wanted_number none d = d

abbrev pub filled_text : Option String → Option String
filled_text none = none
filled_text (some s) = if s == "" then none else some s

abbrev pub filled_headers : Option (List SipHeader) → Option (List SipHeader)
filled_headers (some (h ∷ hs)) = some (h ∷ hs)
filled_headers o = none

abbrev pub only_true : Option Bool → Option Bool
only_true (some true) = some true
only_true o = none

-- What a device has of its peer, of which `o` says the defaults: it dials the peer's number, from the
-- peer's own number or the default, for the peer's timeout, the default, or 30 seconds. A sip device has
-- no timeout of 0, and the rest of what the peer says, if that is not blank.
abbrev IsPhone : PrepareOptions → MakeCallParams → DeviceParams → Type 0
IsPhone o p d =
    (d.from_number ≡ wanted_number p.from o.default_from_number)
    × (d.to_number ≡ p.to)
    × (d.timeout ≡ some (wanted_timeout p.timeout o.default_timeout))
    × (d.from ≡ none)
    × (d.to ≡ none)

abbrev IsSip : PrepareOptions → MakeCallParams → DeviceParams → Type 0
IsSip o p d =
    (d.from ≡ wanted_number p.from o.default_from_number)
    × (d.to ≡ p.to)
    × (d.timeout
        ≡ (let t = wanted_timeout p.timeout o.default_timeout in if eqb t 0 then none else some t))
    × (d.codecs ≡ p.codecs)
    × (d.headers ≡ filled_headers p.headers)
    × (d.webrtc_media ≡ only_true p.webrtc_media)
    × (d.from_name ≡ filled_text p.from_name)
    × (d.from_number ≡ none)
    × (d.to_number ≡ none)

abbrev pub IsDeviceOf : PrepareOptions → MakeCallParams → Device → Type 0
IsDeviceOf o p d =
    (p.type ≡ some d.type)
    × (((d.type ≡ "phone") × IsPhone o p d.params) ⊎ ((d.type ≡ "sip") × IsSip o p d.params))

-- The devices of the phone and sip peers, in order.
abbrev pub AreDevicesOf : PrepareOptions → List MakeCallParams → List Device → Type 0
AreDevicesOf o [] ds = ds ≡ []
AreDevicesOf o (p ∷ ps) ds =
    (is_known p.type ≡ true
      × ((d : Device) × (es : List Device) × (ds ≡ d ∷ es)
          × IsDeviceOf o p d
          × AreDevicesOf o ps es))
    ⊎ (is_known p.type ≡ false × AreDevicesOf o ps ds)

wanted_number-or_else : (a d : Option String) → or_else a d ≡ wanted_number a d
wanted_number-or_else none d = refl
wanted_number-or_else (some x) d = refl

wanted_timeout-or_else :
    (a d : Option ℕ) → or_else a (or_else d (some default_call_timeout)) ≡ some (wanted_timeout a d)
wanted_timeout-or_else (some n) d = refl
wanted_timeout-or_else none (some n) = refl
wanted_timeout-or_else none none = refl

when_true-headers : (o : Option (List SipHeader)) → when_true (is_filled o) o ≡ filled_headers o
when_true-headers none = refl
when_true-headers (some []) = refl
when_true-headers (some (h ∷ hs)) = refl

when_true-flag : (o : Option Bool) → when_true (flag_truthy o) o ≡ only_true o
when_true-flag none = refl
when_true-flag (some true) = refl
when_true-flag (some false) = refl

when_true-text : (o : Option String) → when_true (text_truthy o) o ≡ filled_text o
when_true-text none = refl
when_true-text (some s) = ground arith

when_true-number :
    (n : ℕ) → when_true (number_truthy (some n)) (some n) ≡ (if eqb n 0 then none else some n)
when_true-number n = ground arith

-- The two devices that a peer may become.
abbrev phone_device : PrepareOptions → MakeCallParams → Device
phone_device o p = record {
  type = "phone";
  params = record no_params {
    from_number = or_else p.from o.default_from_number;
    to_number = p.to;
    timeout = or_else p.timeout (or_else o.default_timeout (some default_call_timeout));
  };
}

abbrev sip_device : PrepareOptions → MakeCallParams → Device
sip_device o p =
    let timeout = or_else p.timeout (or_else o.default_timeout (some default_call_timeout)) in
    record {
      type = "sip";
      params = record no_params {
        from = or_else p.from o.default_from_number;
        to = p.to;
        timeout = when_true (number_truthy timeout) timeout;
        codecs = p.codecs;
        webrtc_media = when_true (flag_truthy p.webrtc_media) p.webrtc_media;
        headers = when_true (is_filled p.headers) p.headers;
        from_name = when_true (text_truthy p.from_name) p.from_name;
      };
    }

-- The choice between them.
picked :
    (bad phone sip : Bool) (a b d : Device)
    → (if bad
        then none
        else (if phone then some (some a) else (if sip then some (some b) else some none)))
      ≡ some (some d)
    → ((phone ≡ true) × (a ≡ d)) ⊎ ((sip ≡ true) × (b ≡ d))
picked true phone sip a b d h = cc
picked false true sip a b d h = inl (refl, some-injective _ _ (some-injective _ _ h))
picked false false true a b d h = inr (refl, some-injective _ _ (some-injective _ _ h))
picked false false false a b d h = absurd (none-ne-some d (some-injective _ _ h))

is_type-eq : (s : String) (o : Option String) → is_type s o ≡ true → o ≡ some s
is_type-eq s none h = ground arith
is_type-eq s (some t) h = ap some ((eq_iff t s).0 h)

sip_timeout :
    (t : Option ℕ) (n : ℕ)
    → t ≡ some n
    → when_true (number_truthy t) t ≡ (if eqb n 0 then none else some n)
sip_timeout t n e = rw e (when_true-number n)

phone-IsDeviceOf :
    (o : PrepareOptions) (p : MakeCallParams)
    → is_type "phone" p.type ≡ true
    → (is_known p.type ≡ true) × IsDeviceOf o p (phone_device o p)
phone-IsDeviceOf o p h =
    let e = is_type-eq "phone" p.type h in
    (
      ap is_known e,
      (
        e,
        inl (
          refl,
          (
            wanted_number-or_else p.from o.default_from_number,
            refl,
            wanted_timeout-or_else p.timeout o.default_timeout,
            refl,
            refl,
          ),
        ),
      ),
    )

sip-IsDeviceOf :
    (o : PrepareOptions) (p : MakeCallParams)
    → is_type "sip" p.type ≡ true
    → (is_known p.type ≡ true) × IsDeviceOf o p (sip_device o p)
sip-IsDeviceOf o p h =
    let e = is_type-eq "sip" p.type h in
    (
      ap is_known e,
      (
        e,
        inr (
          refl,
          (
            wanted_number-or_else p.from o.default_from_number,
            refl,
            sip_timeout (or_else p.timeout (or_else o.default_timeout (some default_call_timeout)))
                (wanted_timeout p.timeout o.default_timeout)
                (wanted_timeout-or_else p.timeout o.default_timeout),
            refl,
            when_true-headers p.headers,
            when_true-flag p.webrtc_media,
            when_true-text p.from_name,
            refl,
            refl,
          ),
        ),
      ),
    )

pub prepare_device-IsDeviceOf :
    (o : PrepareOptions) (p : MakeCallParams) (d : Device)
    → prepare_device o p ≡ some (some d)
    → (is_known p.type ≡ true) × IsDeviceOf o p d
unfolding prepare_device
prepare_device-IsDeviceOf o p d h =
    let goal = λ (x : Device). (is_known p.type ≡ true) × IsDeviceOf o p x in
    elim (picked _ (is_type "phone" p.type) (is_type "sip" p.type) (phone_device o p)
      (sip_device o p) d h) [
        | inl (t, e) ↦ subst goal e (phone-IsDeviceOf o p t)
        | inr (t, e) ↦ subst goal e (sip-IsDeviceOf o p t)
      ]

pub prepare_device-unknown :
    (o : PrepareOptions) (p : MakeCallParams)
    → prepare_device o p ≡ some none
    → is_known p.type ≡ false
unfolding prepare_device
prepare_device-unknown o p h = ground arith
