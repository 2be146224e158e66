-- ===== src/Discovery/Directory/Kept.antt =====
-- What the directory of peers (peer.rs) keeps to: one entry for a peer, under its own id, and none for
-- the local node.
use bridgeos.Prelude.{
  Bool-cases, bytes_eq, bytes_eq_iff, lookup, insert, remove, ℕ, ◌≡◌, refl, inl, inr, false, Option,
  none, some, [], ◌∷◌, arith, bytes_key,
}
use bridgeos.Prelude.Maps.{contains_key, DistinctKeys, contains_key-insert, DistinctKeys-insert}
use bridgeos.Core.{NodeId}
use bridgeos.Discovery.Directory.{
  DiscoveredPeer, is_expired, PeerDirectory, merge, updated, insert_or_update, prune_expired,
}

-- Every peer stands under its own node id.
abbrev pub AllOwn : PeerDirectory → Type 0
AllOwn [] = Unit {0}
AllOwn ((k, peer) ∷ d) = (peer.node_id ≡ k) × AllOwn d

-- The directory has every peer once, under its own id, and not the local node.
pub record IsDirectory (self : NodeId) (d : PeerDirectory) : Type 0 where
  pub once : DistinctKeys d
  pub own : AllOwn d
  pub without_self : contains_key self d ≡ false

AllOwn-insert :
    (k : NodeId) (peer : DiscoveredPeer) (d : PeerDirectory)
    → peer.node_id ≡ k
    → AllOwn d
    → AllOwn (insert k peer d)
unfolding insert
AllOwn-insert k peer [] e a = (e, tt)
AllOwn-insert k peer ((j, other) ∷ d) e a = elim (Bool-cases (bytes_eq j k)) [
  | inl same ↦ rw same (e, a.1)
  | inr apart ↦ rw apart (a.0, AllOwn-insert k peer d e a.1)
]

pub AllOwn-remove : (k : NodeId) (d : PeerDirectory) → AllOwn d → AllOwn (remove k d)
unfolding remove
AllOwn-remove k [] a = tt
AllOwn-remove k ((j, other) ∷ d) a = elim (Bool-cases (bytes_eq j k)) [
  | inl same ↦ rw same (AllOwn-remove k d a.1)
  | inr apart ↦ rw apart (a.0, AllOwn-remove k d a.1)
]

AllOwn-lookup :
    (k : NodeId) (peer : DiscoveredPeer) (d : PeerDirectory)
    → AllOwn d
    → lookup k d ≡ some peer
    → peer.node_id ≡ k
unfolding lookup
AllOwn-lookup k peer [] a h = cc
AllOwn-lookup k peer ((j, other) ∷ d) a h =
    ground (arith, h, a.0, bytes_eq_iff j k, AllOwn-lookup k peer d a.1)

-- Pruning takes entries out and adds none.
contains_key-prune_expired :
    (ttl now : ℕ) (k : NodeId) (d : PeerDirectory)
    → contains_key k d ≡ false
    → contains_key k (prune_expired ttl now d).1 ≡ false
unfolding contains_key prune_expired
contains_key-prune_expired ttl now k [] h = refl
contains_key-prune_expired ttl now k ((j, peer) ∷ d) h =
    ground (arith, h, contains_key-prune_expired ttl now k d)

DistinctKeys-prune_expired :
    (ttl now : ℕ) (d : PeerDirectory) → DistinctKeys d → DistinctKeys (prune_expired ttl now d).1
unfolding prune_expired
DistinctKeys-prune_expired ttl now [] a = tt
DistinctKeys-prune_expired ttl now ((j, peer) ∷ d) a = elim (Bool-cases (is_expired ttl now peer)) [
  | inl e ↦ rw e (DistinctKeys-prune_expired ttl now d a.1)
  | inr e ↦
      rw e (contains_key-prune_expired ttl now j d a.0, DistinctKeys-prune_expired ttl now d a.1)
]

AllOwn-prune_expired :
    (ttl now : ℕ) (d : PeerDirectory) → AllOwn d → AllOwn (prune_expired ttl now d).1
unfolding prune_expired
AllOwn-prune_expired ttl now [] a = tt
AllOwn-prune_expired ttl now ((j, peer) ∷ d) a = elim (Bool-cases (is_expired ttl now peer)) [
  | inl e ↦ rw e (AllOwn-prune_expired ttl now d a.1)
  | inr e ↦ rw e (a.0, AllOwn-prune_expired ttl now d a.1)
]

pub prune_expired-IsDirectory :
    (ttl now : ℕ) (self : NodeId) (d : PeerDirectory)
    → IsDirectory self d
    → IsDirectory self (prune_expired ttl now d).1
prune_expired-IsDirectory ttl now self d v = record {
  once = DistinctKeys-prune_expired ttl now d v.once;
  own = AllOwn-prune_expired ttl now d v.own;
  without_self = contains_key-prune_expired ttl now self d v.without_self;
}

pub insert_or_update-IsDirectory :
    (self : NodeId) (peer : DiscoveredPeer) (now : ℕ) (d : PeerDirectory)
    → bytes_eq peer.node_id self ≡ false
    → IsDirectory self d
    → IsDirectory self (insert_or_update peer now d).1
unfolding insert_or_update updated merge
insert_or_update-IsDirectory self peer now d other v = record {
  once = DistinctKeys-insert peer.node_id _ d v.once;
  own = AllOwn-insert peer.node_id _ d (same_id (lookup peer.node_id d) refl) v.own;
  without_self = ground (
    arith,
    other,
    v.without_self,
    contains_key-insert peer.node_id self (updated (lookup peer.node_id d) peer now).0 d,
  );
}
  where
    same_id :
        (o : Option DiscoveredPeer)
        → lookup peer.node_id d ≡ o
        → (updated o peer now).0.node_id ≡ peer.node_id
    same_id none e = refl
    same_id (some existing) e = AllOwn-lookup peer.node_id existing d v.own e
