-- ===== src/Identity/Pairing.antt =====
-- crates/bridge-identity/src/pairing.rs. Nonces and the time are arguments.
pub mod Code
pub mod Ceremony
pub mod Completion
use bridgeos.Prelude.{
  ◌==◌, if◌then◌else◌, length, take, Bytes, bytes_eq, Str, lit, as_bytes, ℕ, ◌+◌, ◌*◌, ◌/◌, ◌%◌,
  Bool, true, not, Option, none, some, [], ◌∷◌, ◌++◌,
}
use bridgeos.Prelude.Result.{Result, ok, err, ◌>>=◌, ◌>>◌, reject_if, map_err, ok_or}
use bridgeos.Core.{NodeId, DeviceType}
use bridgeos.Identity.Keys.{
  Crypto, IdentityError, pairing_failed, crypto, core, key_mismatch, PublicKey, key_node_id,
  from_bytes, verify, bytes_le,
}
use bridgeos.Identity.Trust.{trusted, pending, TrustedPeer}

pub record SasVerification : Type 0 where
  pub numeric_pin : ℕ
  pub formatted_pin : Str
  pub hex_fingerprint : Str

pub record PairingRequest : Type 0 where
  pub node_id : NodeId
  pub public_key : Bytes
  pub device_name : Str
  pub device_type : DeviceType
  pub nonce : Bytes
  pub timestamp : ℕ

pub record PairingResponse : Type 0 where
  pub node_id : NodeId
  pub public_key : Bytes
  pub device_name : Str
  pub device_type : DeviceType
  pub nonce : Bytes
  pub timestamp : ℕ

pub record PairingConfirm : Type 0 where
  pub node_id : NodeId
  pub confirmed : Bool
  pub signature : Bytes

pub record PairingSession : Type 0 where
  pub local_key : Bytes
  pub local_name : Str
  pub local_type : DeviceType
  pub local_nonce : Bytes
  pub remote_peer : Option TrustedPeer
  pub remote_nonce : Option Bytes
  pub sas : Option SasVerification

-- `u64::from_be_bytes`, with the value of the bytes before
unfoldable pub u64_from_be_bytes : ℕ → Bytes → ℕ
u64_from_be_bytes before [] = before
u64_from_be_bytes before (byte ∷ bytes) = u64_from_be_bytes (before * 256 + byte) bytes

-- `{:03}`, for a number below 1000
unfoldable pub pad3 : ℕ → Str
pad3 n = (48 + n / 100) ∷ (48 + n / 10 % 10) ∷ (48 + n % 10) ∷ []

-- `format!("{:03}-{:03}", pin / 1000, pin % 1000)`
unfoldable pub format_pin : ℕ → Str
unfolding pad3
format_pin pin = pad3 (pin / 1000) ++ (lit "-" ++ pad3 (pin % 1000))

module _ (x : Crypto) where
  -- The bytes that `derive` hashes.
  unfoldable pub sas_input : NodeId → NodeId → Bytes → Bytes → Bytes
  unfolding bytes_le
  sas_input node_a node_b nonce_a nonce_b =
      as_bytes (lit "BridgeOS-Pairing-SAS-v1")
      ++ (if bytes_le node_a node_b
          then node_a ++ (node_b ++ (nonce_a ++ nonce_b))
          else node_b ++ (node_a ++ (nonce_b ++ nonce_a)))

  unfoldable pub derive : NodeId → NodeId → Bytes → Bytes → SasVerification
  unfolding sas_input u64_from_be_bytes format_pin
  derive node_a node_b nonce_a nonce_b =
      let digest = x.sha256 (sas_input node_a node_b nonce_a nonce_b) in
      let pin = u64_from_be_bytes 0 (take 8 digest) % 1000000 in
      record {
        numeric_pin = pin;
        formatted_pin = format_pin pin;
        hex_fingerprint = x.hex_encode (take 4 digest);
      }

  unfoldable pub new_initiator :
      Bytes → Str → DeviceType → Bytes → ℕ → PairingSession × PairingRequest
  unfolding key_node_id
  new_initiator key name device nonce now = (
    record {
      local_key = key;
      local_name = name;
      local_type = device;
      local_nonce = nonce;
      remote_peer = none;
      remote_nonce = none;
      sas = none;
    },
    record {
      node_id = key_node_id x key;
      public_key = x.verifying_key key;
      device_name = name;
      device_type = device;
      nonce = nonce;
      timestamp = now;
    },
  )

  -- The check on a presented key, as both sides start.
  unfoldable pub check_key : NodeId → Bytes → Result PublicKey IdentityError
  unfolding from_bytes
  check_key claimed bytes = do
    key ← map_err core (from_bytes x bytes)
    reject_if (not (bytes_eq key claimed))
        (key_mismatch claimed (x.hex_encode claimed) (x.hex_encode key))
    ok key

  unfoldable pub new_responder :
      Bytes
      → Str
      → DeviceType
      → Bytes
      → ℕ
      → PairingRequest
      → Result (PairingSession × PairingResponse × SasVerification) IdentityError
  unfolding key_node_id check_key derive
  new_responder key name device nonce now request = do
    remote_pubkey ← check_key request.node_id request.public_key
    let sas = derive (key_node_id x key) request.node_id nonce request.nonce
    ok (
      record {
        local_key = key;
        local_name = name;
        local_type = device;
        local_nonce = nonce;
        remote_peer = some (record {
          node_id = request.node_id;
          public_key = remote_pubkey;
          device_name = request.device_name;
          device_type = request.device_type;
          first_paired_at = now;
          last_seen_at = now;
          trust_state = pending;
        });
        remote_nonce = some request.nonce;
        sas = some sas;
      },
      record {
        node_id = key_node_id x key;
        public_key = x.verifying_key key;
        device_name = name;
        device_type = device;
        nonce = nonce;
        timestamp = now;
      },
      sas,
    )

  -- The session once the response is accepted.
  unfoldable pub with_response : PairingResponse → PublicKey → ℕ → PairingSession → PairingSession
  unfolding key_node_id derive
  with_response response remote_pubkey now s = record s {
    remote_peer = some (record {
      node_id = response.node_id;
      public_key = remote_pubkey;
      device_name = response.device_name;
      device_type = response.device_type;
      first_paired_at = now;
      last_seen_at = now;
      trust_state = pending;
    });
    remote_nonce = some response.nonce;
    sas = some (derive (key_node_id x s.local_key) response.node_id s.local_nonce response.nonce);
  }

  unfoldable pub initiator_receive_response :
      PairingResponse → ℕ → PairingSession → Result SasVerification IdentityError × PairingSession
  unfolding check_key with_response key_node_id derive
  initiator_receive_response response now s =
      elim (check_key response.node_id response.public_key) [
        | err e ↦ (err e, s)
        | ok remote_pubkey ↦ (
          ok (derive (key_node_id x s.local_key) response.node_id s.local_nonce response.nonce),
          with_response response remote_pubkey now s,
        )
      ]

  -- The nonces, in the order that `compute_confirmation_hash` takes them in.
  unfoldable pub ordered_nonces : PairingSession → Bytes
  unfolding key_node_id bytes_le
  ordered_nonces s = elim s.remote_peer [
    | none ↦ s.local_nonce
    | some remote ↦ elim s.remote_nonce [
      | none ↦ s.local_nonce
      | some rn ↦
          if bytes_le (key_node_id x s.local_key) remote.node_id
          then s.local_nonce ++ rn
          else rn ++ s.local_nonce
    ]
  ]

  unfoldable pub compute_confirmation_hash : SasVerification → PairingSession → Bytes
  unfolding ordered_nonces
  compute_confirmation_hash sas s = x.sha256 (
      as_bytes (lit "BridgeOS-Pairing-Confirm-v1")
      ++ (as_bytes sas.formatted_pin ++ ordered_nonces s))

  unfoldable pub confirm : PairingSession → Result PairingConfirm IdentityError
  unfolding key_node_id compute_confirmation_hash
  confirm s = do
    sas ← ok_or pairing_failed s.sas
    ok (record {
      node_id = key_node_id x s.local_key;
      confirmed = true;
      signature = x.sign s.local_key (compute_confirmation_hash sas s);
    })

  -- `finalize` up to its last check, with the remote peer it accepts.
  unfoldable pub check_confirmation :
      PairingConfirm → PairingSession → Result TrustedPeer IdentityError
  unfolding compute_confirmation_hash verify
  check_confirmation confirmation s = do
    reject_if (not confirmation.confirmed) pairing_failed
    sas ← ok_or pairing_failed s.sas
    let commitment = compute_confirmation_hash sas s
    remote ← ok_or pairing_failed s.remote_peer
    reject_if (not (bytes_eq confirmation.node_id remote.node_id)) (
        key_mismatch confirmation.node_id (x.hex_encode remote.node_id)
          (x.hex_encode confirmation.node_id))
    reject_if (not (length confirmation.signature == 64)) crypto
    map_err core (verify x remote.public_key commitment confirmation.signature)
    ok remote

  unfoldable pub finalize :
      PairingConfirm → PairingSession → Result TrustedPeer IdentityError × PairingSession
  unfolding check_confirmation
  finalize confirmation s = elim (check_confirmation confirmation s) [
    | err e ↦ (err e, s)
    | ok remote ↦
        let peer = record remote { trust_state = trusted } in
        (ok peer, record s { remote_peer = some peer })
  ]
