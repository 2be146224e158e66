-- ===== src/Clipboard/Guard.antt =====
-- crates/bridge-clipboard/src/guard.rs. The deque's front is the head of `history`.
pub mod Invariant
pub mod Window
pub mod Freshness
use bridgeos.Prelude.{
  leb, ◌==◌, if◌then◌else◌, length, Bytes, member, insert_member, remove_member, lookup, insert, ℕ,
  Bool, true, false, Option, none, some, List, [], ◌∷◌, ◌++◌, bytes_key,
}
use bridgeos.Core.{NodeId}

pub record EchoGuard : Type 0 where
  pub capacity : ℕ
  pub history : List Bytes
  pub seen_hashes : List Bytes
  pub sequences : List (NodeId × ℕ)

abbrev pub default_capacity : ℕ
default_capacity = 256

unfoldable pub new : ℕ → EchoGuard
new capacity = record {
  capacity = if capacity == 0 then default_capacity else capacity;
  history = [];
  seen_hashes = [];
  sequences = [];
}

unfoldable pub should_suppress : EchoGuard → Bytes → Bool
should_suppress g hash = member hash g.seen_hashes

-- `pop_front`, and the removal of what it returns.
unfoldable pub pop_oldest : List Bytes → EchoGuard → EchoGuard
pop_oldest [] g = g
pop_oldest (oldest ∷ rest) g = record g {
  history = rest;
  seen_hashes = remove_member oldest g.seen_hashes;
}

unfoldable pub make_room : EchoGuard → EchoGuard
unfolding pop_oldest
make_room g = if leb g.capacity (length g.history) then pop_oldest g.history g else g

unfoldable pub push_hash : EchoGuard → Bytes → EchoGuard
unfolding make_room
push_hash g hash =
    if member hash g.seen_hashes
    then g
    else let r = make_room g in
      record r { history = r.history ++ hash ∷ []; seen_hashes = insert_member hash r.seen_hashes }

unfoldable pub record_sent : EchoGuard → Bytes → EchoGuard
record_sent g hash = push_hash g hash

-- The test of step 2: a recorded sequence number that is not passed.
unfoldable pub is_stale : Option ℕ → ℕ → Bool
is_stale none sequence = false
is_stale (some last_seq) sequence = leb sequence last_seq

unfoldable pub record_received : EchoGuard → NodeId → ℕ → Bytes → EchoGuard × Bool
unfolding is_stale
record_received g origin sequence hash =
    if should_suppress g hash
    then (g, false)
    else if is_stale (lookup origin g.sequences) sequence
    then (g, false)
    else (push_hash (record g { sequences = insert origin sequence g.sequences }) hash, true)

unfoldable pub last_sequence : EchoGuard → NodeId → Option ℕ
last_sequence g origin = lookup origin g.sequences

unfoldable pub clear : EchoGuard → EchoGuard
clear g = record g { history = []; seen_hashes = []; sequences = [] }
