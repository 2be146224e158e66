-- ===== src/Identity/Trust/Revocation.antt =====
-- What becomes of a revoked peer (trust.rs).
use bridgeos.Prelude.{
  if◌then◌else◌, Bool-cases, bytes_eq, bytes_eq_refl, bytes_eq_iff, Str, lookup, insert,
  lookup-insert, lookup-remove, ℕ, ◌≡◌, refl, ap, ◌≢◌, ◌⊎◌, inl, inr, Bool, true, false, Option,
  none, some, List, [], ◌∷◌, arith, bytes_key,
}
use bridgeos.Core.{NodeId}
use bridgeos.Identity.Keys.{Crypto, IsSound, IdentityError, PublicKey}
use bridgeos.Identity.Trust.{
  TrustState, revoked, as_str, parse_state, TrustedPeer, Row, TrustStore, execute, row_of, upsert,
  update_row, row_to_peer, save_peer, get_peer, is_trusted, update_last_seen, set_trust_state,
  revoke_peer, delete_peer,
}
use bridgeos.Identity.Trust.Records.{parse_state-as_str, bytes_eq-hex_encode, is_trusted_iff}
use bridgeos.Prelude.Result.{Result, ok, err}

-- A call that writes to the store.
pub data StoreCall : Type 0 where
  save : TrustedPeer → StoreCall
  seen : NodeId → ℕ → StoreCall
  set_state : NodeId → TrustState → StoreCall
  delete : NodeId → StoreCall

abbrev pub mapped : (Row → Row) → Option Row → Option Row
mapped f none = none
mapped f (some row) = some (f row)

pub lookup-update_row :
    (f : Row → Row) (key k : Str) (rows : List (Str × Row))
    → lookup k (update_row f key rows)
      ≡ (if bytes_eq key k then mapped f (lookup k rows) else lookup k rows)
unfolding update_row lookup
lookup-update_row f key k [] = ground arith
lookup-update_row f key k ((j, row) ∷ rows) = ground (
  arith,
  bytes_eq_iff j key,
  bytes_eq_iff j k,
  bytes_eq_iff key k,
  lookup-update_row f key k rows,
)

abbrev pub IsOut : Option Row → Type 0
IsOut none = Unit {0}
IsOut (some row) = row.trust_state ≡ as_str revoked

if-IsOut : (b : Bool) (o q : Option Row) → IsOut o → IsOut q → IsOut (if b then o else q)
if-IsOut true o q h k = h
if-IsOut false o q h k = k

mapped_all :
    (f : Row → Row)
    → ((r : Row) → (f r).trust_state ≡ as_str revoked)
    → (o : Option Row) → IsOut (mapped f o)
mapped_all f out none = tt
mapped_all f out (some row) = out row

mapped-IsOut :
    (f : Row → Row)
    → ((r : Row) → r.trust_state ≡ as_str revoked → (f r).trust_state ≡ as_str revoked)
    → (o : Option Row) → IsOut o
    → IsOut (mapped f o)
mapped-IsOut f keeps none h = tt
mapped-IsOut f keeps (some row) h = keeps row h

-- A statement that fails changes nothing.
execute-IsOut :
    (key : Str) (f : List (Str × Row) → List (Str × Row)) (s : TrustStore)
    → IsOut (lookup key s.rows)
    → IsOut (lookup key (f s.rows))
    → IsOut (lookup key (execute f s).1.rows)
execute-IsOut key f s before after = elim (Bool-cases s.is_broken) [
  | inl broken ↦ rw broken before
  | inr works ↦ rw works after
]

module _ (x : Crypto) (sound : IsSound x) where
  unfoldable pub perform : StoreCall → TrustStore → TrustStore
  perform (save peer) s = (save_peer x peer s).1
  perform (seen n t) s = (update_last_seen x n t s).1
  perform (set_state n t) s = (set_trust_state x n t s).1
  perform (delete n) s = (delete_peer x n s).1

  unfoldable pub perform_all : List StoreCall → TrustStore → TrustStore
  unfolding perform
  perform_all [] s = s
  perform_all (c ∷ cs) s = perform_all cs (perform c s)

  -- The call does not let the node in again.
  abbrev pub KeepsOut : NodeId → StoreCall → Type 0
  KeepsOut n (save peer) = peer.node_id ≢ n
  KeepsOut n (seen m t) = Unit {0}
  KeepsOut n (set_state m t) = (m ≢ n) ⊎ (t ≡ revoked)
  KeepsOut n (delete m) = Unit {0}

  abbrev pub AllKeepOut : NodeId → List StoreCall → Type 0
  AllKeepOut n [] = Unit {0}
  AllKeepOut n (c ∷ cs) = KeepsOut n c × AllKeepOut n cs

  -- If the node has a row, the row says that it is revoked.
  abbrev pub IsRevoked : NodeId → List (Str × Row) → Type 0
  IsRevoked n rows = IsOut (lookup (x.hex_encode n) rows)

  apart : (n m : NodeId) → m ≢ n → bytes_eq (x.hex_encode m) (x.hex_encode n) ≡ false
  apart n m d = ground (arith, bytes_eq-hex_encode x sound m n, bytes_eq_iff m n, d)

  perform-IsRevoked :
      (n : NodeId) (c : StoreCall) (s : TrustStore)
      → KeepsOut n c
      → IsRevoked n s.rows
      → IsRevoked n (perform c s).rows
  unfolding perform save_peer update_last_seen set_trust_state delete_peer
  perform-IsRevoked n (save peer) s k h =
      let key = x.hex_encode peer.node_id in
      let row = upsert (lookup key s.rows) (row_of x peer) in
      execute-IsOut (x.hex_encode n) (insert key row) s h
        (rw (lookup-insert key (x.hex_encode n) row s.rows) (rw (apart n peer.node_id k) h))
  perform-IsRevoked n (seen m t) s k h =
      let f = λ (r : Row). record r { last_seen_at = t } in
      execute-IsOut (x.hex_encode n) (update_row f (x.hex_encode m)) s h (
        rw (lookup-update_row f (x.hex_encode m) (x.hex_encode n) s.rows) (
          if-IsOut (bytes_eq (x.hex_encode m) (x.hex_encode n)) _ _
            (mapped-IsOut f (λ r e. e) (lookup (x.hex_encode n) s.rows) h) h))
  perform-IsRevoked n (set_state m t) s (inl k) h =
      let f = λ (r : Row). record r { trust_state = as_str t } in
      execute-IsOut (x.hex_encode n) (update_row f (x.hex_encode m)) s h
        (rw (lookup-update_row f (x.hex_encode m) (x.hex_encode n) s.rows) (rw (apart n m k) h))
  perform-IsRevoked n (set_state m t) s (inr k) h =
      let f = λ (r : Row). record r { trust_state = as_str t } in
      execute-IsOut (x.hex_encode n) (update_row f (x.hex_encode m)) s h (
        rw (lookup-update_row f (x.hex_encode m) (x.hex_encode n) s.rows) (
          if-IsOut (bytes_eq (x.hex_encode m) (x.hex_encode n)) _ _
            (mapped-IsOut f (λ r e. ap as_str k) (lookup (x.hex_encode n) s.rows) h) h))
  perform-IsRevoked n (delete m) s k h = elim (Bool-cases s.is_broken) [
    | inl broken ↦ rw broken h
    | inr works ↦ rw works (
        rw (lookup-remove (x.hex_encode m) (x.hex_encode n) s.rows)
          (if-IsOut (bytes_eq (x.hex_encode m) (x.hex_encode n)) none _ tt h))
  ]

  perform_all-IsRevoked :
      (n : NodeId) (cs : List StoreCall) (s : TrustStore)
      → AllKeepOut n cs
      → IsRevoked n s.rows
      → IsRevoked n (perform_all cs s).rows
  unfolding perform_all
  perform_all-IsRevoked n [] s k h = h
  perform_all-IsRevoked n (c ∷ cs) s k h =
      perform_all-IsRevoked n cs (perform c s) k.1 (perform-IsRevoked n c s k.0 h)

  revoke_peer-IsRevoked :
      (n : NodeId) (s : TrustStore)
      → (revoke_peer x n s).0 ≡ ok tt
      → IsRevoked n (revoke_peer x n s).1.rows
  unfolding revoke_peer
  revoke_peer-IsRevoked n s done =
      let key = x.hex_encode n in
      let f = λ (r : Row). record r { trust_state = as_str revoked } in
      elim (Bool-cases s.is_broken) [
        | inl broken ↦ ground (arith, broken, done)
        | inr works ↦ rw works (
            rw (lookup-update_row f key key s.rows, bytes_eq_refl key)
              (mapped_all f (λ r. refl) (lookup key s.rows)))
      ]

  row_to_peer-trust_state :
      (key : Str) (row : Row) (peer : TrustedPeer)
      → row_to_peer x key row ≡ ok peer
      → peer.trust_state ≡ parse_state row.trust_state
  unfolding row_to_peer
  row_to_peer-trust_state key row peer e = ground arith

  found_revoked :
      (n : NodeId) (peer : TrustedPeer) (s : TrustStore)
      → IsRevoked n s.rows
      → get_peer x n s ≡ ok (some peer)
      → peer.trust_state ≡ revoked
  unfolding get_peer
  found_revoked n peer s h e = by_row (lookup (x.hex_encode n) s.rows) refl h
    where
      by_row :
          (o : Option Row)
          → lookup (x.hex_encode n) s.rows ≡ o
          → IsOut o
          → peer.trust_state ≡ revoked
      by_row none found out = ground arith
      by_row (some row) found out = by_peer (row_to_peer x (x.hex_encode n) row) refl
        where
          by_peer :
              (r : Result TrustedPeer IdentityError)
              → row_to_peer x (x.hex_encode n) row ≡ r
              → peer.trust_state ≡ revoked
          by_peer (err f) read = ground (arith)
          by_peer (ok other) read = ground (
            arith,
            row_to_peer-trust_state (x.hex_encode n) row other read,
            ap parse_state out,
            parse_state-as_str revoked,
          )

  -- With a row that says so, no key is trusted.
  IsRevoked-not_trusted :
      (n : NodeId) (key : PublicKey) (s : TrustStore)
      → IsRevoked n s.rows
      → is_trusted x n key s ≢ ok true
  IsRevoked-not_trusted n key s h e =
      let (peer, found, _, state) = (is_trusted_iff x sound n key s).0 e in
      ground (arith, found_revoked n peer s h found, state)

  -- Once a peer is revoked, no key is trusted for it, whatever calls follow, as long as none saves
  -- that peer again or sets its state to another one; deleting it, other peers and the times of last
  -- contact do not matter.
  pub is_trusted-revoked :
      (n : NodeId) (key : PublicKey) (s : TrustStore) (cs : List StoreCall)
      → (revoke_peer x n s).0 ≡ ok tt
      → AllKeepOut n cs
      → is_trusted x n key (perform_all cs (revoke_peer x n s).1) ≢ ok true
  is_trusted-revoked n key s cs done k =
      IsRevoked-not_trusted n key (perform_all cs (revoke_peer x n s).1)
        (perform_all-IsRevoked n cs (revoke_peer x n s).1 k (revoke_peer-IsRevoked n s done))
