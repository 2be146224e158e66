-- ===== src/Discovery/Udp.antt =====
-- The worker of crates/bridge-discovery/src/udp.rs: what each branch of its `select!` does with the
-- shared state, and what it sends. The socket and the timers are the caller's.
pub mod Presence
use bridgeos.Prelude.{
  if◌then◌else◌, replicate, Bytes, bytes_eq, Str, ℕ, ◌+◌, ◌%◌, ◌^◌, Bool, false, Option, none, some,
  List, [], ◌∷◌, ◌++◌,
}
use bridgeos.Prelude.Result.{ok, err}
use bridgeos.Core.{current, NodeId, DeviceType, Capabilities}
use bridgeos.Protocol.Codec.{Postcard}
use bridgeos.Discovery.Beacon.{
  Announcement, BeaconMessage, announcement, goodbye, query, beacon_node_id, encode_beacon,
  decode_beacon,
}
use bridgeos.Discovery.Directory.{
  DiscoveredPeer, new_peer, PeerDirectory, insert_or_update, remove_peer, prune_expired,
}

pub record LocalAdvertisement : Type 0 where
  pub node_id : NodeId
  pub device_name : Str
  pub device_type : DeviceType
  pub port : ℕ
  pub capabilities : Capabilities
  pub seq : ℕ

pub data DiscoveryEvent : Type 0 where
  peer_discovered peer_updated : DiscoveredPeer → DiscoveryEvent
  peer_lost peer_expired : NodeId → DiscoveryEvent

pub record UdpDiscovery : Type 0 where
  pub directory : PeerDirectory
  pub local_node_id : Option NodeId
  pub advertising_info : Option LocalAdvertisement
  pub events : List DiscoveryEvent

unfoldable pub advertise :
    NodeId → Str → DeviceType → ℕ → Capabilities → UdpDiscovery → UdpDiscovery
advertise node_id device_name device_type port capabilities u = record u {
  local_node_id = some node_id;
  advertising_info = some (record {
    node_id = node_id;
    device_name = device_name;
    device_type = device_type;
    port = port;
    capabilities = capabilities;
    seq = 1;
  });
}

unfoldable pub stop_advertising : UdpDiscovery → UdpDiscovery
stop_advertising u = record u { advertising_info = none }

-- The announcement of an advertisement.
unfoldable pub announce : LocalAdvertisement → BeaconMessage
announce adv = announcement (record {
  version = current;
  node_id = adv.node_id;
  device_name = adv.device_name;
  device_type = adv.device_type;
  port = adv.port;
  capabilities = adv.capabilities;
  seq = adv.seq;
})

unfoldable pub expired_events : List DiscoveredPeer → List DiscoveryEvent
expired_events [] = []
expired_events (peer ∷ peers) = peer_expired peer.node_id ∷ expired_events peers

unfoldable pub on_prune : ℕ → ℕ → UdpDiscovery → UdpDiscovery
unfolding prune_expired expired_events
on_prune ttl now u =
    let r = prune_expired ttl now u.directory in
    record u { directory = r.1; events = u.events ++ expired_events r.0 }

-- `beacon.node_id() == self_id`, if there is a local id
unfoldable pub is_own : Option NodeId → NodeId → Bool
is_own none node_id = false
is_own (some self_id) node_id = bytes_eq node_id self_id

unfoldable pub on_announcement : Announcement → Bytes → ℕ → UdpDiscovery → UdpDiscovery
unfolding new_peer insert_or_update
on_announcement a src_ip now u =
    let discovered =
      new_peer a.node_id a.device_name a.device_type ((src_ip, a.port) ∷ []) a.capabilities now in
    let r = insert_or_update discovered now u.directory in
    let event = if r.0.1 then peer_discovered r.0.0 else peer_updated r.0.0 in
    record u { directory = r.1; events = u.events ++ event ∷ [] }

unfoldable pub on_goodbye : NodeId → UdpDiscovery → UdpDiscovery
unfolding remove_peer
on_goodbye node_id u =
    let r = remove_peer node_id u.directory in
    elim r.0 [
      | none ↦ record u { directory = r.1 }
      | some peer ↦ record u { directory = r.1; events = u.events ++ peer_lost node_id ∷ [] }
    ]

module _ (p : Postcard BeaconMessage) where
  -- `if let Ok(encoded) = encode_beacon(…)`
  unfoldable pub encoded : BeaconMessage → Option Bytes
  unfolding encode_beacon
  encoded m = elim (encode_beacon p m) [ err e ↦ none | ok b ↦ some b ]

  -- What is broadcast at a tick, if anything.
  unfoldable pub on_beacon_tick : UdpDiscovery → Option Bytes × UdpDiscovery
  unfolding announce encoded
  on_beacon_tick u = elim u.advertising_info [
    | none ↦ (none, u)
    | some adv ↦
        let next = record adv { seq = (adv.seq + 1) % 2 ^ 64 } in
        (encoded (announce next), record u { advertising_info = some next })
  ]

  unfoldable pub on_beacon : BeaconMessage → Bytes → ℕ → UdpDiscovery → Option Bytes × UdpDiscovery
  unfolding on_announcement on_goodbye announce encoded
  on_beacon (announcement a) src_ip now u = (none, on_announcement a src_ip now u)
  on_beacon (goodbye node_id seq) src_ip now u = (none, on_goodbye node_id u)
  on_beacon (query sender_id seq) src_ip now u = elim u.advertising_info [
    | none ↦ (none, u)
    | some adv ↦ (encoded (announce adv), u)
  ]

  -- A datagram from an address, with what is sent back.
  unfoldable pub on_datagram : Bytes → Bytes → ℕ → UdpDiscovery → Option Bytes × UdpDiscovery
  unfolding decode_beacon is_own beacon_node_id on_beacon
  on_datagram bytes src_ip now u = elim (decode_beacon p bytes) [
    | err e ↦ (none, u)
    | ok beacon ↦
        if is_own u.local_node_id (beacon_node_id beacon)
        then (none, u)
        else on_beacon beacon src_ip now u
  ]

  -- The probe that is broadcast when the worker starts.
  unfoldable pub initial_query : UdpDiscovery → Option Bytes
  unfolding encoded
  initial_query u = elim u.local_node_id [
    | none ↦ encoded (query (replicate 32 0) 1)
    | some sender_id ↦ encoded (query sender_id 1)
  ]

  -- The goodbye that is broadcast at the end, if there is one, and the state that is left.
  unfoldable pub shutdown : Bool → UdpDiscovery → Option Bytes × UdpDiscovery
  unfolding stop_advertising encoded
  shutdown goodbye_on_shutdown u =
      let left = stop_advertising u in
      if goodbye_on_shutdown
      then elim u.advertising_info [
        | none ↦ (none, left)
        | some adv ↦ (encoded (goodbye adv.node_id ((adv.seq + 1) % 2 ^ 64)), left)
      ]
      else (none, left)
