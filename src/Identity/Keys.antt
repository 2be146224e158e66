-- ===== src/Identity/Keys.antt =====
-- crates/bridge-identity/src/keys.rs and error.rs. The primitives (ed25519-dalek, sha2, hex) are
-- parameters. A verifying key is its 32 bytes, and a signing key its secret bytes.
use bridgeos.Prelude.{
  ltb, ◌==◌, if◌then◌else◌, Bool-cases, length, Bytes, Str, lit, as_bytes, ◌≡◌, refl, ◌≢◌, inl, inr,
  Bool, true, false, not, Option, some, [], ◌∷◌, ◌++◌, arith,
}
use bridgeos.Prelude.Result.{Result, ok, err}
use bridgeos.Core.{NodeId, BridgeError, identity}

pub record Crypto : Type 0 where
  pub sha256 : Bytes → Bytes
  pub verifying_key : Bytes → Bytes
  pub sign : Bytes → Bytes → Bytes
  -- whether `VerifyingKey::from_bytes` takes the bytes
  pub is_key : Bytes → Bool
  pub verify_strict : Bytes → Bytes → Bytes → Bool
  pub hex_encode : Bytes → Str
  pub hex_decode : Str → Option Bytes

-- What the primitives document.
pub record IsSound (x : Crypto) : Type 0 where
  pub own_key : (secret : Bytes) → x.is_key (x.verifying_key secret) ≡ true
  pub key_length : (secret : Bytes) → length (x.verifying_key secret) ≡ 32
  pub verifies :
      (secret m : Bytes) → x.verify_strict (x.verifying_key secret) m (x.sign secret m) ≡ true
  pub signature_length : (secret m : Bytes) → length (x.sign secret m) ≡ 64
  pub decodes : (b : Bytes) → x.hex_decode (x.hex_encode b) ≡ some b

-- The texts and the peer of an error are kept only where a caller reads them.
pub data IdentityError : Type 0 where
  database pairing_failed crypto : IdentityError
  core : BridgeError → IdentityError
  key_mismatch : NodeId → Str → Str → IdentityError
  peer_revoked : NodeId → IdentityError

abbrev pub PublicKey : Type 0
PublicKey = Bytes

-- `IdentityKey::node_id` and `PublicKey::node_id`: the bytes of the public key
unfoldable pub key_node_id : Crypto → Bytes → NodeId
key_node_id x secret = x.verifying_key secret

module _ (x : Crypto) where
  unfoldable pub from_bytes : Bytes → Result PublicKey BridgeError
  from_bytes bytes = if x.is_key bytes then ok bytes else err identity

  unfoldable pub verify : PublicKey → Bytes → Bytes → Result (Unit {0}) BridgeError
  verify key message signature =
      if x.verify_strict key message signature then ok tt else err identity

  unfoldable pub challenge : Bytes → Bytes → Bytes
  challenge client_nonce server_nonce =
      x.sha256 (as_bytes (lit "BridgeOS-Handshake-v1") ++ (client_nonce ++ server_nonce))

  unfoldable pub sign_handshake_challenge : Bytes → Bytes → Bytes → Bytes
  sign_handshake_challenge secret client_nonce server_nonce =
      x.sign secret (challenge client_nonce server_nonce)

  unfoldable pub verify_handshake_challenge :
      PublicKey → Bytes → Bytes → Bytes → Result (Unit {0}) BridgeError
  unfolding verify
  verify_handshake_challenge key client_nonce server_nonce signature =
      verify key (challenge client_nonce server_nonce) signature

-- The lexicographic `<=` of byte arrays.
unfoldable pub bytes_le : Bytes → Bytes → Bool
bytes_le [] ys = true
bytes_le (x ∷ xs) [] = false
bytes_le (x ∷ xs) (y ∷ ys) =
    let rest = bytes_le xs ys in if ltb x y then true else if x == y then rest else false

-- Of two different arrays exactly one comes first.
pub bytes_le_flip : (a b : Bytes) → a ≢ b → bytes_le b a ≡ not (bytes_le a b)
unfolding bytes_le
bytes_le_flip [] [] d = absurd (d refl)
bytes_le_flip [] (y ∷ ys) d = refl
bytes_le_flip (x ∷ xs) [] d = refl
bytes_le_flip (x ∷ xs) (y ∷ ys) d = elim (Bool-cases (x == y)) [
  | inl same ↦ ground (arith, bytes_le_flip xs ys (λ e. d (ground arith)))
  | inr other ↦ ground arith
]
