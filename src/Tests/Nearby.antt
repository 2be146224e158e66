-- ===== src/Tests/Nearby.antt =====
-- A worker that hears of a peer and of itself.
use bridgeos.Prelude.{
  length, take, drop, replicate, take-append_length, drop-append_length, Bytes, ℕ, zero, suc, ◌≡◌,
  refl, sym, ◌⊎◌, Bool, true, false, not, Option, none, some, List, [], ◌∷◌, ◌++◌,
}
use bridgeos.Prelude.Result.{ok, err}
use bridgeos.Core.{current, NodeId, DeviceType, windows, android, linux, mac_os, unknown}
use bridgeos.Protocol.Codec.{Postcard, RoundTrips}
use bridgeos.Discovery.Beacon.{
  mdns, internal_error, already_running, BeaconMessage, announcement, goodbye, query, encode_beacon,
  decode_beacon,
}
use bridgeos.Discovery.Beacon.RoundTrip.{Received, decode_beacon-encode_beacon}
use bridgeos.Discovery.Unified.{both, new_unified, start_unified}
use bridgeos.Discovery.Unified.Retry.{start, shut_down, perform_all_calls, start_unified-stuck}
use bridgeos.Discovery.Udp.{UdpDiscovery, advertise}
use bridgeos.Discovery.Directory.Kept.{IsDirectory}
use bridgeos.Discovery.Udp.Presence.{
  UdpStep, datagram, prune_tick, beacon_tick, quiet, leave, steps, steps-IsDirectory,
}

-- A serializer of announcements alone: the name comes last, after the id and its length.
abbrev write_type : DeviceType → ℕ
write_type windows = 0
write_type android = 1
write_type linux = 2
write_type mac_os = 3
write_type unknown = 4

abbrev read_type : ℕ → DeviceType
read_type zero = windows
read_type (suc zero) = android
read_type (suc (suc zero)) = linux
read_type (suc (suc (suc zero))) = mac_os
read_type _ = unknown

read_type-write_type : (t : DeviceType) → read_type (write_type t) ≡ t
read_type-write_type windows = refl
read_type-write_type android = refl
read_type-write_type linux = refl
read_type-write_type mac_os = refl
read_type-write_type unknown = refl

abbrev write_beacon : BeaconMessage → Option Bytes
write_beacon (announcement a) = some (
    a.version.major
      ∷ a.version.minor
      ∷ write_type a.device_type
      ∷ a.port
      ∷ a.capabilities.flags
      ∷ a.seq
      ∷ length a.node_id
      ∷ a.node_id
    ++ a.device_name)
write_beacon _ = none

abbrev read_beacon : Bytes → Option BeaconMessage
read_beacon (major ∷ minor ∷ t ∷ port ∷ flags ∷ seq ∷ n ∷ rest) = some (
    announcement (record {
      version = record { major = major; minor = minor };
      node_id = take n rest;
      device_name = drop n rest;
      device_type = read_type t;
      port = port;
      capabilities = record { flags = flags };
      seq = seq;
    }))
read_beacon _ = none

abbrev beacons : Postcard BeaconMessage
beacons = record { to_allocvec = write_beacon; from_bytes = read_beacon }

beacon_read_back :
    (m : BeaconMessage) (b : Bytes) → write_beacon m ≡ some b → read_beacon b ≡ some m
beacon_read_back (announcement a) b h = rw (sym (some_injective h)) (
    rw
      (
        take-append_length a.node_id a.device_name,
        drop-append_length a.node_id a.device_name,
        read_type-write_type a.device_type,
      )
      refl)
  where
    some_injective : {b c : Bytes} → some b ≡ some c → b ≡ c
    some_injective e = cc
beacon_read_back (goodbye node_id seq) b h = cc
beacon_read_back (query sender_id seq) b h = cc

beacons-RoundTrips : RoundTrips beacons
beacons-RoundTrips = record { read_back = beacon_read_back }

-- An announcement with a name of 70 bytes.
abbrev long_winded : BeaconMessage
long_winded = announcement (record {
  version = current;
  node_id = 7 ∷ 7 ∷ [];
  device_name = replicate 70 97;
  device_type = linux;
  port = 9000;
  capabilities = record { flags = 3 };
  seq = 4;
})

abbrev long_winded_wire : Bytes
long_winded_wire =
    0x42
    ∷ 0x52
    ∷ 0x47
    ∷ 0x42
    ∷ 1
    ∷ current.major
    ∷ current.minor
    ∷ 2
    ∷ 9000
    ∷ 3
    ∷ 4
    ∷ 2
    ∷ 7
    ∷ 7
    ∷ replicate 70 97

long_winded_encoded : encode_beacon beacons long_winded ≡ ok long_winded_wire
unfolding encode_beacon
long_winded_encoded = refl

decode_beacon-encode_beacon_example : Received long_winded (decode_beacon beacons long_winded_wire)
decode_beacon-encode_beacon_example =
    decode_beacon-encode_beacon beacons beacons-RoundTrips long_winded long_winded_wire
      long_winded_encoded

-- A reader of announcements: the bytes are the id.
abbrev read_announcement : Bytes → Option BeaconMessage
read_announcement node_id = some (
    announcement (record {
      version = current;
      node_id = node_id;
      device_name = [];
      device_type = unknown;
      port = 9000;
      capabilities = record { flags = 3 };
      seq = 1;
    }))

abbrev announcements : Postcard BeaconMessage
announcements = record { to_allocvec = λ m. none; from_bytes = read_announcement }

abbrev idle : UdpDiscovery
idle = record { directory = []; local_node_id = none; advertising_info = none; events = [] }

abbrev heard : NodeId → UdpStep
heard node_id = datagram (0x42 ∷ 0x52 ∷ 0x47 ∷ 0x42 ∷ 1 ∷ node_id) (10 ∷ []) 5

abbrev an_hour : List UdpStep
an_hour =
    heard (1 ∷ [])
    ∷ heard (2 ∷ [])
    ∷ heard (1 ∷ [])
    ∷ beacon_tick
    ∷ heard (2 ∷ [])
    ∷ prune_tick 1 6
    ∷ quiet
    ∷ leave true
    ∷ []

steps-IsDirectory_example :
    IsDirectory
      (1 ∷ [])
      (steps announcements an_hour
        (advertise (1 ∷ []) [] unknown 9000 (record { flags = 3 }) idle)).directory
steps-IsDirectory_example =
    steps-IsDirectory announcements (1 ∷ []) [] unknown 9000 (record { flags = 3 }) idle an_hour
      refl

-- The daemon browses until it is shut down.
abbrev until_shutdown : Bool → Bool
until_shutdown shut = not shut

start_unified-stuck_example :
    let first = start_unified until_shutdown false (new_unified both) in
    let later =
      perform_all_calls
        (start until_shutdown true ∷ shut_down ∷ start until_shutdown true ∷ [])
        first.1 in
    (first.0 ≡ err internal_error)
    × (((start_unified until_shutdown true later).0 ≡ err already_running)
        ⊎ ((start_unified until_shutdown true later).0 ≡ err mdns))
start_unified-stuck_example =
    start_unified-stuck until_shutdown until_shutdown true
      (start until_shutdown true ∷ shut_down ∷ start until_shutdown true ∷ []) refl refl
      (refl, (tt, (refl, tt)))
