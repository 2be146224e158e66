-- ===== src/Identity/Trust.antt =====
-- crates/bridge-identity/src/trust.rs. The table `trusted_peers` is a map from its primary key, and
-- each SQL statement is written out on it. Columns of type INTEGER hold the bits of an i64.
-- `is_broken` says whether the connection fails its statements.
pub mod Records
pub mod Revocation
pub mod Representation
pub mod Directory
pub mod Listing
use bridgeos.Prelude.{
  ltb, ◌==◌, if◌then◌else◌, length, bytes_eq, Str, lit, is_whitespace, trim_start, trim,
  to_ascii_lowercase, lookup, insert, remove, ℕ, ◌^◌, Bool, true, false, not, Option, none, some,
  List, [], ◌∷◌, bytes_key,
}
use bridgeos.Prelude.Result.{Result, ok, err, ◌>>=◌, ◌>>◌, map_err, ok_or}
use bridgeos.Core.{NodeId, DeviceType, to_string, from_str}
use bridgeos.Identity.Keys.{
  Crypto, IdentityError, database, key_mismatch, peer_revoked, PublicKey, from_bytes,
}

pub data TrustState : Type 0 where
  trusted pending revoked : TrustState

unfoldable pub as_str : TrustState → Str
as_str trusted = lit "trusted"
as_str pending = lit "pending"
as_str revoked = lit "revoked"

-- `FromStr`
unfoldable pub parse_state : Str → TrustState
unfolding trim trim_start is_whitespace to_ascii_lowercase bytes_eq
parse_state s =
    let t = to_ascii_lowercase (trim s) in
    if bytes_eq t (lit "trusted")
    then trusted
    else if bytes_eq t (lit "revoked")
    then revoked
    else pending

pub record TrustedPeer : Type 0 where
  pub node_id : NodeId
  pub public_key : PublicKey
  pub device_name : Str
  pub device_type : DeviceType
  pub first_paired_at : ℕ
  pub last_seen_at : ℕ
  pub trust_state : TrustState

-- A row, without its primary key.
pub record Row : Type 0 where
  pub public_key : Str
  pub device_name : Str
  pub device_type : Str
  pub first_paired_at : ℕ
  pub last_seen_at : ℕ
  pub trust_state : Str

pub record TrustStore : Type 0 where
  pub rows : List (Str × Row)
  pub is_broken : Bool

abbrev pub empty_store : TrustStore
empty_store = record { rows = []; is_broken = false }

-- `i64.max(0) as u64`, on the bits of the i64
unfoldable pub max_zero : ℕ → ℕ
max_zero n = if ltb n (2 ^ 63) then n else 0

-- A statement that changes the rows, with its `?`.
abbrev pub execute :
    (List (Str × Row) → List (Str × Row))
    → TrustStore
    → Result (Unit {0}) IdentityError × TrustStore
execute f s = if s.is_broken then (err database, s) else (ok tt, record s { rows = f s.rows })

-- The values of the INSERT.
unfoldable pub row_of : Crypto → TrustedPeer → Row
row_of x peer = record {
  public_key = x.hex_encode peer.public_key;
  device_name = peer.device_name;
  device_type = to_string peer.device_type;
  first_paired_at = peer.first_paired_at;
  last_seen_at = peer.last_seen_at;
  trust_state = as_str peer.trust_state;
}

-- `ON CONFLICT(node_id) DO UPDATE`: all but `first_paired_at` is replaced.
unfoldable pub upsert : Option Row → Row → Row
upsert none row = row
upsert (some old) row = record row { first_paired_at = old.first_paired_at }

-- `UPDATE … WHERE node_id = ?`
unfoldable pub update_row : (Row → Row) → Str → List (Str × Row) → List (Str × Row)
update_row f key [] = []
update_row f key ((k, row) ∷ rows) =
    let rest = update_row f key rows in
    if bytes_eq k key then (k, f row) ∷ rest else (k, row) ∷ rest

module _ (x : Crypto) where
  unfoldable pub from_hex : Str → Option NodeId
  from_hex s = elim (x.hex_decode s) [
    | none ↦ none
    | some b ↦ if length b == 32 then some b else none
  ]

  unfoldable pub row_to_peer : Str → Row → Result TrustedPeer IdentityError
  unfolding from_hex from_bytes
  row_to_peer key row = do
    node_id ← ok_or database (from_hex key)
    public_key ← ok_or database (from_hex row.public_key)
    _ ← map_err (λ _. database) (from_bytes x public_key)
    ok (record {
      node_id = node_id;
      public_key = public_key;
      device_name = row.device_name;
      device_type = from_str row.device_type;
      first_paired_at = max_zero row.first_paired_at;
      last_seen_at = max_zero row.last_seen_at;
      trust_state = parse_state row.trust_state;
    })

  unfoldable pub save_peer : TrustedPeer → TrustStore → Result (Unit {0}) IdentityError × TrustStore
  unfolding upsert row_of
  save_peer peer s =
      let key = x.hex_encode peer.node_id in
      execute (λ rows. insert key (upsert (lookup key rows) (row_of x peer)) rows) s

  unfoldable pub get_peer : NodeId → TrustStore → Result (Option TrustedPeer) IdentityError
  get_peer node_id s =
      let key = x.hex_encode node_id in
      if s.is_broken then err database else elim (lookup key s.rows) [
        | none ↦ ok none
        | some row ↦ (do peer ← row_to_peer key row; ok (some peer))
      ]

  -- The `match` of `is_trusted`, once a peer is found.
  unfoldable pub judge : NodeId → PublicKey → TrustedPeer → Result Bool IdentityError
  judge node_id presented peer =
      if not (bytes_eq peer.public_key presented)
      then err (key_mismatch node_id (x.hex_encode peer.public_key) (x.hex_encode presented))
      else elim peer.trust_state [
        | revoked ↦ err (peer_revoked node_id)
        | trusted ↦ ok true
        | pending ↦ ok false
      ]

  unfoldable pub is_trusted : NodeId → PublicKey → TrustStore → Result Bool IdentityError
  unfolding judge
  is_trusted node_id presented s = do
    found ← get_peer node_id s
    elim found [ none ↦ ok false | some peer ↦ judge node_id presented peer ]

  unfoldable pub update_last_seen :
      NodeId → ℕ → TrustStore → Result (Unit {0}) IdentityError × TrustStore
  update_last_seen node_id timestamp =
      execute (update_row (λ row. record row { last_seen_at = timestamp }) (x.hex_encode node_id))

  unfoldable pub set_trust_state :
      NodeId → TrustState → TrustStore → Result (Unit {0}) IdentityError × TrustStore
  set_trust_state node_id state =
      execute (update_row (λ row. record row { trust_state = as_str state }) (x.hex_encode node_id))

  unfoldable pub revoke_peer : NodeId → TrustStore → Result (Unit {0}) IdentityError × TrustStore
  unfolding set_trust_state
  revoke_peer node_id = set_trust_state node_id revoked

  unfoldable pub delete_peer : NodeId → TrustStore → Result Bool IdentityError × TrustStore
  delete_peer node_id s =
      let key = x.hex_encode node_id in
      if s.is_broken then (err database, s) else (
        ok (elim (lookup key s.rows) [ none ↦ false | some _ ↦ true ]),
        record s { rows = remove key s.rows },
      )
