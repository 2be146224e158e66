-- ===== src/Notifications/Guard.antt =====
-- crates/bridge-notifications/src/guard.rs. `hex` is `hex::encode`; the deque's front is the head of
-- `eviction_ring`.
pub mod Bounded
use bridgeos.Prelude.{
  leb, ◌==◌, if◌then◌else◌, length, Bytes, bytes_eq, Str, lookup, insert, remove, ℕ, Bool, true,
  false, not, Option, none, some, List, [], ◌∷◌, ◌++◌, pair_key, bytes_key,
}
use bridgeos.Prelude.Maps.{contains_key, adjust, retain}
use bridgeos.Notifications.Types.{
  NotificationState, active, dismissed, NotificationEntry, compute_hash,
}

abbrev pub ring_capacity : ℕ
ring_capacity = 256

-- `(origin_hex, notification_id)`
abbrev pub NotificationKey : Type 0
NotificationKey = Str × Str

pub record NotificationGuard : Type 0 where
  pub seen_hashes : List (NotificationKey × Bytes)
  pub eviction_ring : List NotificationKey
  pub states : List (NotificationKey × NotificationState)

abbrev pub new_guard : NotificationGuard
new_guard = record { seen_hashes = []; eviction_ring = []; states = [] }

unfoldable pub state_is_dismissed : Option NotificationState → Bool
state_is_dismissed (some dismissed) = true
state_is_dismissed _ = false

unfoldable pub is_dismissed : NotificationGuard → Str → Str → Bool
is_dismissed g origin_hex notification_id =
    state_is_dismissed (lookup (origin_hex, notification_id) g.states)

unfoldable pub evict : List NotificationKey → NotificationGuard → NotificationGuard
evict [] g = g
evict (oldest ∷ rest) g = record {
  seen_hashes = remove oldest g.seen_hashes;
  eviction_ring = rest;
  states = remove oldest g.states;
}

unfoldable pub evict_oldest : NotificationGuard → NotificationGuard
unfolding evict
evict_oldest g = if leb ring_capacity (length g.eviction_ring) then evict g.eviction_ring g else g

-- The branch for a key that has no hash.
unfoldable pub enter_ring : NotificationKey → NotificationGuard → NotificationGuard
enter_ring key g =
    let r = evict_oldest g in
    if contains_key key g.seen_hashes
    then g
    else record r { eviction_ring = r.eviction_ring ++ key ∷ [] }

unfoldable pub record_dismissed : NotificationGuard → Str → Str → NotificationGuard
record_dismissed g origin_hex notification_id = record g {
  states = adjust (origin_hex, notification_id) (λ s. dismissed) g.states;
  seen_hashes = remove (origin_hex, notification_id) g.seen_hashes;
}

-- The loop over the states of one origin.
unfoldable pub dismiss_origin :
    Str → List (NotificationKey × NotificationState) → List (NotificationKey × NotificationState)
dismiss_origin origin_hex [] = []
dismiss_origin origin_hex ((key, state) ∷ m) =
    (key, if bytes_eq key.0 origin_hex then dismissed else state) ∷ dismiss_origin origin_hex m

unfoldable pub record_clear_all : NotificationGuard → Str → NotificationGuard
record_clear_all g origin_hex = record g {
  states = dismiss_origin origin_hex g.states;
  seen_hashes = retain (λ key. not (bytes_eq key.0 origin_hex)) g.seen_hashes;
}

-- `len` and `is_empty`
unfoldable pub guard_len : NotificationGuard → ℕ
guard_len g = length g.states

unfoldable pub guard_is_empty : NotificationGuard → Bool
guard_is_empty g = length g.states == 0

-- `is_some_and` with the comparison of hashes
unfoldable pub hash_matches : Option Bytes → Bytes → Bool
hash_matches none hash = false
hash_matches (some h) hash = bytes_eq h hash

module _ (hex : Bytes → Str) where
  unfoldable pub key : NotificationEntry → NotificationKey
  key entry = (hex entry.origin, entry.notification_id)

  module _ (blake3 : Bytes → Bytes) where
    unfoldable pub is_duplicate : NotificationGuard → NotificationEntry → Bool
    is_duplicate g entry =
        hash_matches (lookup (key entry) g.seen_hashes) (compute_hash blake3 entry)

    unfoldable pub record_posted : NotificationGuard → NotificationEntry → NotificationGuard
    record_posted g entry =
        let r = enter_ring (key entry) g in
        record r {
          seen_hashes = insert (key entry) (compute_hash blake3 entry) r.seen_hashes;
          states = insert (key entry) active r.states;
        }
