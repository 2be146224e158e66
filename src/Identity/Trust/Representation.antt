-- ===== src/Identity/Trust/Representation.antt =====
-- The trust store (trust.rs) as a directory: what its calls mean without its table and its texts, and
-- how the rows stand for it.
use bridgeos.Prelude.{
  if◌then◌else◌, bytes_eq, bytes_eq_iff, Str, lookup, insert, remove, lookup-insert, lookup-remove,
  ℕ, ◌^◌, ◌<◌, ◌≡◌, refl, sym, ◌∙◌, subst, Bool, true, false, Option, none, some, List, [], ◌∷◌,
  arith, bytes_key,
}
use bridgeos.Prelude.Result.{Result, ok}
use bridgeos.Core.{NodeId}
use bridgeos.Identity.Keys.{Crypto, IsSound, IdentityError, PublicKey}
use bridgeos.Identity.Trust.{
  TrustState, as_str, TrustedPeer, Row, TrustStore, max_zero, row_of, upsert, update_row,
  row_to_peer, save_peer, judge, update_last_seen, set_trust_state, delete_peer,
}
use bridgeos.Identity.Trust.Records.{
  parse_state-as_str, max_zero_small, IsStorable, bytes_eq-hex_encode, read_back,
}
use bridgeos.Identity.Trust.Revocation.{
  StoreCall, save, seen, set_state, delete, mapped, lookup-update_row, perform,
}

-- The peers that are known.
abbrev pub Directory : Type 0
Directory = NodeId → Option TrustedPeer

abbrev pub nobody : Directory
nobody n = none

-- A peer that is saved again keeps the time of its first pairing.
abbrev pub renewed : TrustedPeer → Option TrustedPeer → TrustedPeer
renewed peer none = peer
renewed peer (some old) = record peer { first_paired_at = old.first_paired_at }

abbrev pub changed : (TrustedPeer → TrustedPeer) → Option TrustedPeer → Option TrustedPeer
changed f none = none
changed f (some peer) = some (f peer)

-- What each call means for the entry of a node.
abbrev pub apply : StoreCall → Directory → Directory
apply (save peer) d n = if bytes_eq peer.node_id n then some (renewed peer (d n)) else d n
apply (seen m t) d n =
    if bytes_eq m n then changed (λ peer. record peer { last_seen_at = t }) (d n) else d n
apply (set_state m t) d n =
    if bytes_eq m n then changed (λ peer. record peer { trust_state = t }) (d n) else d n
apply (delete m) d n = if bytes_eq m n then none else d n

abbrev pub replay : List StoreCall → Directory → Directory
replay [] d = d
replay (c ∷ cs) d = replay cs (apply c d)

-- The verdict on a key by the entry of its node.
abbrev pub verdict : Crypto → NodeId → PublicKey → Option TrustedPeer → Result Bool IdentityError
verdict x n key none = ok false
verdict x n key (some peer) = judge x n key peer

-- The values of a call have the sizes of their types, with times before 2^63 seconds.
abbrev pub Fits : Crypto → StoreCall → Type 0
Fits x (save peer) = IsStorable x peer
Fits x (seen m t) = t < 2 ^ 63
Fits x (set_state m t) = Unit {0}
Fits x (delete m) = Unit {0}

abbrev pub AllFit : Crypto → List StoreCall → Type 0
AllFit x [] = Unit {0}
AllFit x (c ∷ cs) = Fits x c × AllFit x cs

-- A row is read as a peer.
abbrev pub Reads : Crypto → Str → Option Row → Option TrustedPeer → Type 0
Reads x key none none = Unit {0}
Reads x key none (some peer) = ⊥
Reads x key (some row) none = ⊥
Reads x key (some row) (some peer) = row_to_peer x key row ≡ ok peer

module _ (x : Crypto) (sound : IsSound x) where
  -- A store that works and whose rows read as the directory says.
  pub record Represents (s : TrustStore) (d : Directory) : Type 0 where
    pub works : s.is_broken ≡ false
    pub reads : (n : NodeId) → Reads x (x.hex_encode n) (lookup (x.hex_encode n) s.rows) (d n)

  row_to_peer-first :
      (key : Str) (row : Row) (peer : TrustedPeer)
      → row_to_peer x key row ≡ ok peer
      → peer.first_paired_at ≡ max_zero row.first_paired_at
  unfolding row_to_peer
  row_to_peer-first key row peer e = ground arith

  Reads-save :
      (peer : TrustedPeer) (o : Option Row) (e : Option TrustedPeer)
      → IsStorable x peer
      → Reads x (x.hex_encode peer.node_id) o e
      → row_to_peer x (x.hex_encode peer.node_id) (upsert o (row_of x peer)) ≡ ok (renewed peer e)
  Reads-save peer none none v h = read_back x sound peer none v
  Reads-save peer none (some old) v h = elim h [ ]
  Reads-save peer (some row) none v h = elim h [ ]
  Reads-save peer (some row) (some old) v h =
      read_back x sound peer (some row) v
      ∙ rw (row_to_peer-first (x.hex_encode peer.node_id) row old h) refl

  Reads-seen :
      (key : Str) (t : ℕ) (o : Option Row) (e : Option TrustedPeer)
      → t < 2 ^ 63
      → Reads x key o e
      → Reads x key
          (mapped (λ r. record r { last_seen_at = t }) o)
          (changed (λ peer. record peer { last_seen_at = t }) e)
  unfolding row_to_peer
  Reads-seen key t none none b h = tt
  Reads-seen key t none (some peer) b h = elim h [ ]
  Reads-seen key t (some row) none b h = elim h [ ]
  Reads-seen key t (some row) (some peer) b h = ground (arith, h, max_zero_small t)

  Reads-set_state :
      (key : Str) (t : TrustState) (o : Option Row) (e : Option TrustedPeer)
      → Reads x key o e
      → Reads x key
          (mapped (λ r. record r { trust_state = as_str t }) o)
          (changed (λ peer. record peer { trust_state = t }) e)
  unfolding row_to_peer
  Reads-set_state key t none none h = tt
  Reads-set_state key t none (some peer) h = elim h [ ]
  Reads-set_state key t (some row) none h = elim h [ ]
  Reads-set_state key t (some row) (some peer) h = ground (arith, h, parse_state-as_str t)

  -- A statement that rewrites the row of one node, on the row and on the entry of every node.
  update_row-Represents :
      (m : NodeId) (f : Row → Row) (g : TrustedPeer → TrustedPeer) (s : TrustStore) (d : Directory)
      → ((o : Option Row) (e : Option TrustedPeer)
          → Reads x (x.hex_encode m) o e
          → Reads x (x.hex_encode m) (mapped f o) (changed g e))
      → Represents s d
      → Represents
          (record s { rows = update_row f (x.hex_encode m) s.rows })
          (λ n. if bytes_eq m n then changed g (d n) else d n)
  update_row-Represents m f g s d step v = record {
    works = v.works;
    reads = λ n.
        rw
          (
            lookup-update_row f (x.hex_encode m) (x.hex_encode n) s.rows,
            bytes_eq-hex_encode x sound m n,
          )
          (by_node n (bytes_eq m n) refl);
  }
    where
      by_node :
          (n : NodeId) (b : Bool)
          → bytes_eq m n ≡ b
          → Reads x
              (x.hex_encode n)
              (if b
                then mapped f (lookup (x.hex_encode n) s.rows)
                else lookup (x.hex_encode n) s.rows)
              (if b then changed g (d n) else d n)
      by_node n true e =
          subst
            (λ k.
              Reads x (x.hex_encode k) (mapped f (lookup (x.hex_encode k) s.rows))
                (changed g (d k)))
            ((bytes_eq_iff m n).0 e) (step (lookup (x.hex_encode m) s.rows) (d m) (v.reads m))
      by_node n false e = v.reads n

  -- A row that is put under the key of a node, and one that is taken away.
  replaced-Represents :
      (m : NodeId) (s : TrustStore) (rows : List (Str × Row)) (d : Directory) (o : Option Row)
      (e : NodeId → Option TrustedPeer)
      → ((n : NodeId)
          → lookup (x.hex_encode n) rows ≡ (
              if bytes_eq (x.hex_encode m) (x.hex_encode n)
              then o
              else lookup (x.hex_encode n) s.rows))
      → Reads x (x.hex_encode m) o (e m)
      → Represents s d
      → Represents (record s { rows = rows }) (λ n. if bytes_eq m n then e n else d n)
  replaced-Represents m s rows d o e found reads v = record {
    works = v.works;
    reads = λ n. rw (found n, bytes_eq-hex_encode x sound m n) (by_node n (bytes_eq m n) refl);
  }
    where
      by_node :
          (n : NodeId) (b : Bool)
          → bytes_eq m n ≡ b
          → Reads x
              (x.hex_encode n)
              (if b then o else lookup (x.hex_encode n) s.rows)
              (if b then e n else d n)
      by_node n true eq =
          subst (λ k. Reads x (x.hex_encode k) o (e k)) ((bytes_eq_iff m n).0 eq) reads
      by_node n false eq = v.reads n

  -- A statement on a store that works.
  pub past_error :
      {A : Type 0} (b : Bool) (failed done : A × TrustStore)
      → b ≡ false
      → (if b then failed else done).1 ≡ done.1
  past_error true failed done h = cc
  past_error false failed done h = refl

  pub perform-Represents :
      (c : StoreCall) (s : TrustStore) (d : Directory)
      → Fits x c
      → Represents s d
      → Represents (perform x sound c s) (apply c d)
  unfolding perform save_peer update_last_seen set_trust_state delete_peer
  perform-Represents (save peer) s d fits v =
      let key = x.hex_encode peer.node_id in
      let row = upsert (lookup key s.rows) (row_of x peer) in
      subst (λ r. Represents r (apply (save peer) d)) (sym (past_error s.is_broken _ _ v.works))
        (replaced-Represents peer.node_id s (insert key row s.rows) d (some row)
          (λ n. some (renewed peer (d n))) (λ n. lookup-insert key (x.hex_encode n) row s.rows)
          (Reads-save peer (lookup key s.rows) (d peer.node_id) fits (v.reads peer.node_id)) v)
  perform-Represents (seen m t) s d fits v =
      subst (λ r. Represents r (apply (seen m t) d)) (sym (past_error s.is_broken _ _ v.works))
        (update_row-Represents m (λ r. record r { last_seen_at = t })
          (λ peer. record peer { last_seen_at = t }) s d
          (λ o e. Reads-seen (x.hex_encode m) t o e fits) v)
  perform-Represents (set_state m t) s d fits v =
      subst (λ r. Represents r (apply (set_state m t) d)) (sym (past_error s.is_broken _ _ v.works))
        (update_row-Represents m (λ r. record r { trust_state = as_str t })
          (λ peer. record peer { trust_state = t }) s d (Reads-set_state (x.hex_encode m) t) v)
  perform-Represents (delete m) s d fits v =
      subst (λ r. Represents r (apply (delete m) d)) (sym (past_error s.is_broken _ _ v.works))
        (replaced-Represents m s (remove (x.hex_encode m) s.rows) d none (λ n. none)
          (λ n. lookup-remove (x.hex_encode m) (x.hex_encode n) s.rows) tt v)
