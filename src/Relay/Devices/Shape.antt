-- ===== src/Relay/Devices/Shape.antt =====
-- The shape of prepared devices against the shape of the peers.
use signalwire_node.Common.{
  ◌≡◌, refl, ap, ◌∙◌, sym, Bool, true, Option, none, some, List, [], ◌∷◌, ◌++◌, arith, false, All,
  inl, inr, ◌⊎◌, subst, ◌↔◌,
}
use mathlib.Core.Option.{some-injective}
use signalwire_node.Relay.Devices.{
  text_truthy, number_truthy, dial_options, Deep, one, many, Deeps, nil, cons, MakeCallParams,
  Device, PrepareOptions, prepare_device, reduce_peers, reduce_peer, flat, flat_one,
  prepare_dial_devices,
}
use signalwire_node.Relay.Devices.Described.{
  AreDevicesOf, prepare_device-IsDeviceOf, prepare_device-unknown,
}

-- The same on a list: prepare every peer in order, drop those of another type, and fail
-- if one of them is invalid.
abbrev pub next_device : Option (Option Device) → Option (List Device) → Option (List Device)
next_device none ds = none
next_device (some none) ds = ds
next_device (some (some d)) none = none
next_device (some (some d)) (some ds) = some (d ∷ ds)

unfoldable pub prepare_all : PrepareOptions → List MakeCallParams → Option (List Device)
prepare_all o [] = some []
prepare_all o (p ∷ ps) = next_device (prepare_device o p) (prepare_all o ps)

abbrev pub flat_option : Option (Deeps Device) → Option (List Device)
flat_option none = none
flat_option (some ds) = some (flat ds)

abbrev append_option : Option (List Device) → Option (List Device) → Option (List Device)
append_option none b = none
append_option (some a) none = none
append_option (some a) (some b) = some (a ++ b)

prepare_all-append :
    (o : PrepareOptions) (ps qs : List MakeCallParams)
    → prepare_all o (ps ++ qs) ≡ append_option (prepare_all o ps) (prepare_all o qs)
unfolding prepare_all
prepare_all-append o [] qs = ground arith
prepare_all-append o (p ∷ ps) qs = ground (arith, prepare_all-append o ps qs)

mutual
  unfolding reduce_peers reduce_peer flat flat_one prepare_all

  pub flat-reduce_peers :
      (o : PrepareOptions) (nested : Bool) (ps : Deeps MakeCallParams)
      → flat_option (reduce_peers o nested ps) ≡ prepare_all o (flat ps)
  flat-reduce_peers o nested nil = refl
  flat-reduce_peers o nested (cons p rest) =
      flat-reduce_peer o nested p (reduce_peers o nested rest)
      ∙ ap (append_option (prepare_all o (flat_one p))) (flat-reduce_peers o nested rest)
      ∙ sym (prepare_all-append o (flat_one p) (flat rest))

  flat-reduce_peer :
      (o : PrepareOptions) (nested : Bool) (p : Deep MakeCallParams) (rest : Option (Deeps Device))
      → flat_option (reduce_peer o nested p rest)
        ≡ append_option (prepare_all o (flat_one p)) (flat_option rest)
  flat-reduce_peer o nested (one p) rest = ground arith
  flat-reduce_peer o nested (many ps) rest = ground (arith, flat-reduce_peers o true ps)

-- Every entry of the outer array is an array.
abbrev pub IsNested : Deeps Device → Type 0
IsNested nil = Unit {0}
IsNested (cons (many ds) rest) = IsNested rest
IsNested (cons (one d) rest) = ⊥

abbrev pub IsNestedOption : Option (Deeps Device) → Type 0
IsNestedOption none = Unit {0}
IsNestedOption (some ds) = IsNested ds

reduce_peer-IsNested :
    (o : PrepareOptions) (p : Deep MakeCallParams) (rest : Option (Deeps Device))
    → IsNestedOption rest
    → IsNestedOption (reduce_peer o false p rest)
unfolding reduce_peer
reduce_peer-IsNested o (one p) rest h = ground arith
reduce_peer-IsNested o (many ps) rest h = ground arith

pub reduce_peers-IsNested :
    (o : PrepareOptions) (ps : Deeps MakeCallParams) → IsNestedOption (reduce_peers o false ps)
unfolding reduce_peers
reduce_peers-IsNested o nil = tt
reduce_peers-IsNested o (cons p rest) =
    reduce_peer-IsNested o p (reduce_peers o false rest) (reduce_peers-IsNested o rest)

-- A device that a dial may carry: the kind is known and both numbers and the timeout are given.
abbrev pub IsDialable : Device → Type 0
IsDialable d =
    ((d.type ≡ "phone")
      × (text_truthy d.params.from_number ≡ true)
      × (text_truthy d.params.to_number ≡ true)
      × (number_truthy d.params.timeout ≡ true))
    ⊎ ((d.type ≡ "sip")
        × (text_truthy d.params.from ≡ true)
        × (text_truthy d.params.to ≡ true)
        × (number_truthy d.params.timeout ≡ true))

prepare_device-IsDialable :
    (p : MakeCallParams) (d : Device) → prepare_device dial_options p ≡ some (some d) → IsDialable d
unfolding prepare_device
prepare_device-IsDialable p d h = ground arith

next_device-IsDialable :
    (r : Option (Option Device)) (rest : Option (List Device)) (ds : List Device)
    → ((d : Device) → r ≡ some (some d) → IsDialable d)
    → ((es : List Device) → rest ≡ some es → All IsDialable es)
    → next_device r rest ≡ some ds
    → All IsDialable ds
next_device-IsDialable none rest ds f g h = cc
next_device-IsDialable (some none) rest ds f g h = g ds h
next_device-IsDialable (some (some d)) none ds f g h = cc
next_device-IsDialable (some (some d)) (some es) ds f g h =
    subst (All IsDialable) (some-injective _ _ h) (f d refl, g es refl)

prepare_all-IsDialable :
    (ps : List MakeCallParams) (ds : List Device)
    → prepare_all dial_options ps ≡ some ds
    → All IsDialable ds
unfolding prepare_all
prepare_all-IsDialable [] ds h = subst (All IsDialable) (some-injective _ _ h) tt
prepare_all-IsDialable (p ∷ ps) ds h =
    next_device-IsDialable (prepare_device dial_options p) (prepare_all dial_options ps) ds
      (prepare_device-IsDialable p) (prepare_all-IsDialable ps) h

next_device-AreDevicesOf :
    (o : PrepareOptions) (p : MakeCallParams) (ps : List MakeCallParams)
    (r : Option (Option Device)) (rest : Option (List Device)) (ds : List Device)
    → prepare_device o p ≡ r
    → ((es : List Device) → rest ≡ some es → AreDevicesOf o ps es)
    → next_device r rest ≡ some ds
    → AreDevicesOf o (p ∷ ps) ds
next_device-AreDevicesOf o p ps none rest ds e f h = cc
next_device-AreDevicesOf o p ps (some none) rest ds e f h =
    inr (prepare_device-unknown o p e, f ds h)
next_device-AreDevicesOf o p ps (some (some d)) none ds e f h = cc
next_device-AreDevicesOf o p ps (some (some d)) (some es) ds e f h =
    let (k, s) = prepare_device-IsDeviceOf o p d e in
    inl (k, (d, es, sym (some-injective _ _ h), s, f es refl))

pub prepare_all-AreDevicesOf :
    (o : PrepareOptions) (ps : List MakeCallParams) (ds : List Device)
    → prepare_all o ps ≡ some ds
    → AreDevicesOf o ps ds
unfolding prepare_all
prepare_all-AreDevicesOf o [] ds h = sym (some-injective _ _ h)
prepare_all-AreDevicesOf o (p ∷ ps) ds h =
    next_device-AreDevicesOf o p ps (prepare_device o p) (prepare_all o ps) ds refl
      (prepare_all-AreDevicesOf o ps) h

-- What a dial sends, if it is not refused: a device for every phone and sip peer, in order, that dials
-- the peer's number from the peer's own, with the peer's timeout or 30 seconds, nested as lists of
-- alternatives, and each of them dialable.
pub prepare_dial_devices-shape :
    (ps : Deeps MakeCallParams) (ds : Deeps Device)
    → prepare_dial_devices ps ≡ some ds
    → IsNested ds × AreDevicesOf dial_options (flat ps) (flat ds) × All IsDialable (flat ds)
unfolding prepare_dial_devices
prepare_dial_devices-shape ps ds h =
    let same : prepare_all dial_options (flat ps) ≡ some (flat ds) =
      sym (flat-reduce_peers dial_options false ps) ∙ ap flat_option h in
    (
      subst IsNestedOption h (reduce_peers-IsNested dial_options ps),
      prepare_all-AreDevicesOf dial_options (flat ps) (flat ds) same,
      prepare_all-IsDialable (flat ps) (flat ds) same,
    )

-- A dial is refused exactly when preparing its peers one after the other fails.
pub prepare_dial_devices-refuses :
    (ps : Deeps MakeCallParams)
    → (prepare_dial_devices ps ≡ none) ↔ (prepare_all dial_options (flat ps) ≡ none)
unfolding prepare_dial_devices
prepare_dial_devices-refuses ps = ground (arith, flat-reduce_peers dial_options false ps)
