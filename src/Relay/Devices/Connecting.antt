-- ===== src/Relay/Devices/Connecting.antt =====
-- packages/common/src/relay/helpers.ts: what the arguments of a connect come down to.
use signalwire_node.Common.{Option, none, some, List, [], ◌∷◌}
use signalwire_node.Common.Dict.{Dict}
use signalwire_node.Common.Json.{Json}
use signalwire_node.Relay.Media.{Media, destruct_calling_play}
use signalwire_node.Relay.Devices.{
  Deep, Deeps, nil, cons, MakeCallParams, Device, reduce_connect_params,
}

-- An argument: an object with `devices`, and the ringback that it may have; or a peer, or an array of
-- them.
pub data ConnectArgument : Type 0 where
  whole : Deeps MakeCallParams → Option (Dict Json) → ConnectArgument
  peer : Deep MakeCallParams → ConnectArgument

-- `devices.push(p)` of those that are peers.
unfoldable pub peers : List ConnectArgument → Deeps MakeCallParams
peers [] = nil
peers (whole devices ringback ∷ args) = peers args
peers (peer p ∷ args) = cons p (peers args)

abbrev pub ringback_media : Option (Dict Json) → Option Media
ringback_media none = none
ringback_media (some ringback) = some (destruct_calling_play ringback)

abbrev pub paired : Option Media → Option (Deeps Device) → Option (Deeps Device × Option Media)
paired ringback none = none
paired ringback (some devices) = some (devices, ringback)

-- `prepareConnectParams`
unfoldable pub prepare_connect_params :
    List ConnectArgument → Device → Option (Deeps Device × Option Media)
unfolding peers reduce_connect_params destruct_calling_play
prepare_connect_params (whole devices ringback ∷ []) call_device =
    paired (ringback_media ringback) (reduce_connect_params devices call_device)
prepare_connect_params args call_device =
    paired none (reduce_connect_params (peers args) call_device)
