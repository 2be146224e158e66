-- ===== src/Discovery/Beacon.antt =====
-- crates/bridge-discovery/src/beacon.rs and error.rs. The serializer is a parameter; the texts of an
-- error are not modelled.
pub mod RoundTrip
use bridgeos.Prelude.{
  ltb, ◌==◌, if◌then◌else◌, length, get_or, take, drop, Bytes, bytes_eq, Str, str_len, ℕ, ◌+◌, not,
  [], ◌∷◌, ◌++◌,
}
use bridgeos.Prelude.Result.{Result, ok, err, ◌>>=◌, ◌>>◌, reject_if, ok_or}
use bridgeos.Core.{ProtocolVersion, NodeId, DeviceType, Capabilities}
use bridgeos.Protocol.Codec.{Postcard}
use bridgeos.Notifications.Types.{truncate, walk_back}

pub data DiscoveryError : Type 0 where
  mdns invalid_txt_record invalid_node_id invalid_packet io_failure : DiscoveryError
  internal_error already_running not_running : DiscoveryError

-- "BRGB"
abbrev pub beacon_magic : Bytes
beacon_magic = 0x42 ∷ 0x52 ∷ 0x47 ∷ 0x42 ∷ []

abbrev pub beacon_version : ℕ
beacon_version = 1

abbrev pub max_beacon_size : ℕ
max_beacon_size = 1400

abbrev pub max_device_name_len : ℕ
max_device_name_len = 64

pub record Announcement : Type 0 where
  pub version : ProtocolVersion
  pub node_id : NodeId
  pub device_name : Str
  pub device_type : DeviceType
  pub port : ℕ
  pub capabilities : Capabilities
  pub seq : ℕ

pub data BeaconMessage : Type 0 where
  announcement : Announcement → BeaconMessage
  goodbye : NodeId → ℕ → BeaconMessage
  query : NodeId → ℕ → BeaconMessage

unfoldable pub beacon_node_id : BeaconMessage → NodeId
beacon_node_id (announcement a) = a.node_id
beacon_node_id (goodbye node_id seq) = node_id
beacon_node_id (query sender_id seq) = sender_id

-- The cut of a name that is too long, at a character boundary.
unfoldable pub limit_name : Str → Str
limit_name name =
    if ltb max_device_name_len (str_len name)
    then truncate name (walk_back name max_device_name_len)
    else name

-- The checks and the cut once a message is read.
unfoldable pub sanitize : BeaconMessage → Result BeaconMessage DiscoveryError
unfolding limit_name
sanitize (announcement a) =
    if a.port == 0
    then err invalid_packet
    else ok (announcement (record a { device_name = limit_name a.device_name }))
sanitize (goodbye node_id seq) = ok (goodbye node_id seq)
sanitize (query sender_id seq) = ok (query sender_id seq)

module _ (p : Postcard BeaconMessage) where
  unfoldable pub encode_beacon : BeaconMessage → Result Bytes DiscoveryError
  encode_beacon message = do
    payload ← ok_or internal_error (p.to_allocvec message)
    reject_if (ltb max_beacon_size (4 + 1 + length payload)) invalid_packet
    ok (beacon_magic ++ beacon_version ∷ payload)

  unfoldable pub decode_beacon : Bytes → Result BeaconMessage DiscoveryError
  unfolding sanitize
  decode_beacon bytes = do
    reject_if (ltb (length bytes) 5) invalid_packet
    reject_if (ltb max_beacon_size (length bytes)) invalid_packet
    reject_if (not (bytes_eq (take 4 bytes) beacon_magic)) invalid_packet
    reject_if (not (get_or bytes 4 0 == beacon_version)) invalid_packet
    message ← ok_or invalid_packet (p.from_bytes (drop 5 bytes))
    sanitize message
