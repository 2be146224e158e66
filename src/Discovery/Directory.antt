-- ===== src/Discovery/Directory.antt =====
-- crates/bridge-discovery/src/peer.rs. A socket address is its IP address with its port; times are
-- counted from a common start, and the clock's reading is an argument.
pub mod Kept
use bridgeos.Prelude.{
  ltb, leb, ◌==◌, if◌then◌else◌, length, Bytes, bytes_eq, Str, lookup, insert, remove, ℕ, ◌-◌, Bool,
  true, false, ◌&&◌, ◌||◌, Option, none, some, List, [], ◌∷◌, ◌++◌, bytes_key,
}
use bridgeos.Prelude.Maps.{contains_key}
use bridgeos.Core.{NodeId, DeviceType, Capabilities}

abbrev pub SocketAddr : Type 0
SocketAddr = Bytes × ℕ

pub record DiscoveredPeer : Type 0 where
  pub node_id : NodeId
  pub device_name : Str
  pub device_type : DeviceType
  pub addresses : List SocketAddr
  pub capabilities : Capabilities
  pub last_seen : ℕ

unfoldable pub new_peer :
    NodeId → Str → DeviceType → List SocketAddr → Capabilities → ℕ → DiscoveredPeer
new_peer node_id device_name device_type addresses capabilities now = record {
  node_id = node_id;
  device_name = device_name;
  device_type = device_type;
  addresses = addresses;
  capabilities = capabilities;
  last_seen = now;
}

-- `duration_since` fails for a time that is still to come.
unfoldable pub is_expired : ℕ → ℕ → DiscoveredPeer → Bool
is_expired max_age now peer =
    if leb peer.last_seen now then ltb max_age (now - peer.last_seen) else false

unfoldable pub touch : ℕ → DiscoveredPeer → DiscoveredPeer
touch now peer = record peer { last_seen = now }

abbrev pub PeerDirectory : Type 0
PeerDirectory = List (NodeId × DiscoveredPeer)

unfoldable pub has_address : SocketAddr → List SocketAddr → Bool
has_address a [] = false
has_address a (b ∷ bs) = (bytes_eq b.0 a.0 && b.1 == a.1) || has_address a bs

-- The loop over the addresses of an update.
unfoldable pub add_addresses : List SocketAddr → List SocketAddr → List SocketAddr
unfolding has_address
add_addresses known [] = known
add_addresses known (a ∷ more) =
    add_addresses (if has_address a known then known else known ++ a ∷ []) more

unfoldable pub merge : DiscoveredPeer → DiscoveredPeer → ℕ → DiscoveredPeer
unfolding add_addresses
merge existing peer now = record existing {
  device_name = peer.device_name;
  device_type = peer.device_type;
  capabilities = peer.capabilities;
  addresses = add_addresses existing.addresses peer.addresses;
  last_seen = now;
}

-- The peer as it is stored, and whether it is new.
unfoldable pub updated : Option DiscoveredPeer → DiscoveredPeer → ℕ → DiscoveredPeer × Bool
unfolding merge
updated none peer now = (record peer { last_seen = now }, true)
updated (some existing) peer now = (merge existing peer now, false)

unfoldable pub insert_or_update :
    DiscoveredPeer → ℕ → PeerDirectory → (DiscoveredPeer × Bool) × PeerDirectory
unfolding updated
insert_or_update peer now d =
    let r = updated (lookup peer.node_id d) peer now in (r, insert peer.node_id r.0 d)

unfoldable pub get : NodeId → PeerDirectory → Option DiscoveredPeer
get node_id d = lookup node_id d

unfoldable pub remove_peer : NodeId → PeerDirectory → Option DiscoveredPeer × PeerDirectory
remove_peer node_id d = (lookup node_id d, remove node_id d)

unfoldable pub list_of : PeerDirectory → List DiscoveredPeer
list_of [] = []
list_of ((k, peer) ∷ d) = peer ∷ list_of d

unfoldable pub directory_contains : NodeId → PeerDirectory → Bool
directory_contains node_id d = contains_key node_id d

unfoldable pub directory_len : PeerDirectory → ℕ
directory_len d = length d

unfoldable pub directory_is_empty : PeerDirectory → Bool
unfolding directory_len
directory_is_empty d = directory_len d == 0

unfoldable pub clear_directory : PeerDirectory → PeerDirectory
clear_directory d = []

-- The peers that are pruned, and what stays.
unfoldable pub prune_expired : ℕ → ℕ → PeerDirectory → List DiscoveredPeer × PeerDirectory
unfolding is_expired
prune_expired max_age now [] = ([], [])
prune_expired max_age now ((k, peer) ∷ d) =
    let (expired, rest) = prune_expired max_age now d in
    if is_expired max_age now peer then (peer ∷ expired, rest) else (expired, (k, peer) ∷ rest)
