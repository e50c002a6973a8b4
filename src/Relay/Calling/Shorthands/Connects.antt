-- ===== src/Relay/Calling/Shorthands/Connects.antt =====
-- A connect goes out whatever its peers are, in either of its two forms.
use mathlib.Core.Option.{none-ne-some}
use signalwire_node.Common.{
  ◌⊎◌, ◌||◌, ◌==◌, Bool-cases, eq_iff, ◌≡◌, refl, ap, sym, ◌∙◌, Option, none, some, List, [], ◌∷◌,
  String, arith, inl, inr, Option-cases, ◌≢◌, subst, false,
}
use signalwire_node.Common.Dict.{Dict}
use signalwire_node.Common.Json.{Json}
use signalwire_node.Relay.Devices.{
  Deeps, nil, cons, MakeCallParams, Device, connect_options, PrepareOptions, reduce_connect_params,
  prepare_device, reduce_peers, flat,
}
use signalwire_node.Relay.Devices.Described.{AreDevicesOf}
use signalwire_node.Relay.Devices.Shape.{
  prepare_all-AreDevicesOf, IsNested, IsNestedOption, prepare_all, next_device, flat_option,
  flat-reduce_peers, reduce_peers-IsNested,
}
use signalwire_node.Relay.Devices.Connecting.{
  ConnectArgument, whole, peer, peers, paired, ringback_media, prepare_connect_params,
}
use signalwire_node.Relay.Media.{destruct_calling_play}
use signalwire_node.Relay.Calling.Call.{Call}
use signalwire_node.Relay.Calling.Shorthands.{
  Mode, run_connect, run_connect_devices, connected_with, connect_from,
}

-- Each peer as an argument of its own.
unfoldable pub as_arguments : Deeps MakeCallParams → List ConnectArgument
as_arguments nil = []
as_arguments (cons p ps) = peer p ∷ as_arguments ps

peers-as_arguments : (ps : Deeps MakeCallParams) → peers (as_arguments ps) ≡ ps
unfolding peers as_arguments
peers-as_arguments nil = refl
peers-as_arguments (cons p ps) = ap (cons p) (peers-as_arguments ps)

prepare_connect_params-as_arguments :
    (ps : Deeps MakeCallParams) (d : Device)
    → prepare_connect_params (as_arguments ps) d ≡ paired none (reduce_connect_params ps d)
unfolding prepare_connect_params as_arguments
prepare_connect_params-as_arguments nil d =
    ap (λ x. paired none (reduce_connect_params x d)) (peers-as_arguments nil)
prepare_connect_params-as_arguments (cons p ps) d =
    ap (λ x. paired none (reduce_connect_params x d)) (peers-as_arguments (cons p ps))

-- Without validation no peer is refused.
prepare_device-some :
    (d : Device) (p : MakeCallParams) → prepare_device (connect_options d) p ≢ none
unfolding prepare_device
prepare_device-some d p e = ground arith

next_device-some :
    (r : Option (Option Device)) (ds : List Device)
    → r ≢ none
    → (es : List Device) × (next_device r (some ds) ≡ some es)
next_device-some none ds h = absurd (h refl)
next_device-some (some none) ds h = (ds, refl)
next_device-some (some (some d)) ds h = (d ∷ ds, refl)

prepare_all-some :
    (d : Device) (ps : List MakeCallParams)
    → (ds : List Device) × (prepare_all (connect_options d) ps ≡ some ds)
unfolding prepare_all
prepare_all-some d [] = ([], refl)
prepare_all-some d (p ∷ ps) =
    let (ds, e) = prepare_all-some d ps in
    rw e (next_device-some (prepare_device (connect_options d) p) ds (prepare_device-some d p))

reduced :
    (d : Device) (ps : Deeps MakeCallParams)
    → (ds : Deeps Device) × (reduce_connect_params ps d ≡ some ds)
      × IsNested ds
      × (prepare_all (connect_options d) (flat ps) ≡ some (flat ds))
unfolding reduce_connect_params
reduced d ps =
    let o = connect_options d in
    let same = flat-reduce_peers o false ps in
    elim (Option-cases (reduce_peers o false ps)) [
      | inl e ↦
          let (ds, f) = prepare_all-some d (flat ps) in
          absurd (none-ne-some _ (sym (ap flat_option e) ∙ same ∙ f))
      | inr (ds, e) ↦
          (ds, e, subst IsNestedOption e (reduce_peers-IsNested o ps), sym same ∙ ap flat_option e)
    ]

-- The number and the timeout that a connected peer has by default: those of a phone, the number of a sip
-- device, and none of any other.
abbrev pub HasDefaults : Device → PrepareOptions → Type 0
HasDefaults d o =
    ((d.type ≡ "phone")
      × (o.default_from_number ≡ d.params.from_number)
      × (o.default_timeout ≡ d.params.timeout))
    ⊎ (((d.type ≡ "sip") × (o.default_from_number ≡ d.params.from) × (o.default_timeout ≡ none))
        ⊎ ((((d.type == "phone") || (d.type == "sip")) ≡ false)
            × (o.default_from_number ≡ none)
            × (o.default_timeout ≡ none)))

connect_options-HasDefaults : (d : Device) → HasDefaults d (connect_options d)
connect_options-HasDefaults d = elim (Bool-cases (d.type == "phone")) [
  | inl e ↦ inl ((eq_iff d.type "phone").0 e, rw e refl, rw e refl)
  | inr e ↦ elim (Bool-cases (d.type == "sip")) [
    | inl f ↦ inr (inl ((eq_iff d.type "sip").0 f, rw (e, f) refl, rw e refl))
    | inr f ↦ inr (inr (rw (e, f) refl, rw (e, f) refl, rw e refl))
  ]
]

-- A call that has a device of its own connects to any peers, without refusing one: it starts the same
-- operation, whether it waits or not, if each peer is an argument of its own and if they are the devices
-- of one object, with the ringback of that object as the protocol has it. The operation has a device for
-- every phone and sip peer, in order, that dials the peer's number, with the number and the
-- timeout of the call's device where the peer has none of its own, nested as lists of alternatives.
pub run_connect-forms :
    (mode : Mode) (ps : Deeps MakeCallParams) (d : Device) (uuid : String) (c : Call)
    → c.options.device ≡ some d
    → (ds : Deeps Device) × (run_connect mode (as_arguments ps) uuid c
        ≡ some (run_connect_devices mode ds none uuid c))
      × ((ringback : Dict Json)
          → run_connect mode (whole ps (some ringback) ∷ []) uuid c
            ≡ some (run_connect_devices mode ds (some (destruct_calling_play ringback)) uuid c))
      × IsNested ds
      × ((o : PrepareOptions) × HasDefaults d o × AreDevicesOf o (flat ps) (flat ds))
unfolding run_connect prepare_connect_params
run_connect-forms mode ps d uuid c h =
    let (ds, e, nested, prepared) = reduced d ps in
    let as_list = prepare_connect_params-as_arguments ps d ∙ ap (paired none) e in
    (
      ds,
      ap (connect_from mode (as_arguments ps) uuid c) h ∙ ap (connected_with mode uuid c) as_list,
      λ ringback.
          ap (connect_from mode (whole ps (some ringback) ∷ []) uuid c) h
          ∙ ap (λ r. connected_with mode uuid c (paired (ringback_media (some ringback)) r)) e,
      nested,
      (
        connect_options d,
        connect_options-HasDefaults d,
        prepare_all-AreDevicesOf (connect_options d) (flat ps) (flat ds) prepared,
      ),
    )
