-- ===== src/Notifications/Guard/Bounded.antt =====
-- The memory of the guard (guard.rs) after any calls.
use bridgeos.Prelude.{
  leb, Bool-cases, length, length-append, Bytes, bytes_eq, Str, pair_same_iff, member,
  member-append, insert, ◌≤◌, ◌<◌, ◌≡◌, refl, sym, ◌∙◌, inl, inr, true, not, List, [], ◌∷◌, arith,
  pair_key,
}
use bridgeos.Prelude.Maps.{
  contains_key, DistinctKeys, contains_key-insert, contains_key-remove, contains_key-adjust,
  contains_key-retain, DistinctKeys-insert, DistinctKeys-remove, DistinctKeys-adjust,
  DistinctKeys-retain, length-within,
}
use bridgeos.Notifications.Types.{
  NotificationState, active, dismissed, NotificationEntry, compute_hash,
}
use bridgeos.Notifications.Guard.{
  ring_capacity, NotificationKey, NotificationGuard, new_guard, evict, evict_oldest, enter_ring,
  record_dismissed, dismiss_origin, record_clear_all, guard_len, key, record_posted,
}

pub record IsBounded (g : NotificationGuard) : Type 0 where
  pub ring : length g.eviction_ring ≤ ring_capacity
  pub tracked :
      (k : NotificationKey) → contains_key k g.states ≡ true → member k g.eviction_ring ≡ true
  pub hashed :
      (k : NotificationKey) → contains_key k g.seen_hashes ≡ true → contains_key k g.states ≡ true
  pub states_once : DistinctKeys g.states
  pub hashes_once : DistinctKeys g.seen_hashes

evict-IsBounded :
    (g : NotificationGuard) (ring : List NotificationKey)
    → g.eviction_ring ≡ ring
    → IsBounded g
    → IsBounded (evict ring g)
unfolding evict member
evict-IsBounded g [] e v = v
evict-IsBounded g (oldest ∷ rest) e v = record {
  ring = ground (arith, v.ring, e);
  tracked = λ k h.
      ground
        (arith, e, h, v.tracked k, contains_key-remove oldest k g.states, pair_same_iff oldest k);
  hashed = λ k h. ground (
    arith,
    h,
    v.hashed k,
    contains_key-remove oldest k g.states,
    contains_key-remove oldest k g.seen_hashes,
  );
  states_once = DistinctKeys-remove oldest g.states v.states_once;
  hashes_once = DistinctKeys-remove oldest g.seen_hashes v.hashes_once;
}

evict_oldest-IsBounded : (g : NotificationGuard) → IsBounded g → IsBounded (evict_oldest g)
unfolding evict_oldest
evict_oldest-IsBounded g v = ground (arith, evict-IsBounded g g.eviction_ring refl v)

length-evict_oldest :
    (g : NotificationGuard) → IsBounded g → length (evict_oldest g).eviction_ring < ring_capacity
unfolding evict_oldest evict
length-evict_oldest g v = elim (Bool-cases (leb ring_capacity (length g.eviction_ring))) [
  | inl full ↦ rw full (shorter g.eviction_ring refl)
  | inr free ↦ rw free (ground arith)
]
  where
    shorter :
        (l : List NotificationKey)
        → g.eviction_ring ≡ l
        → length (evict l g).eviction_ring < ring_capacity
    shorter [] e = ground arith
    shorter (x ∷ l) e = ground (arith, v.ring)

-- What holds once a key is in the ring, and before it gets its hash and its state.
record HasRoom (key : NotificationKey) (g : NotificationGuard) : Type 0 where
  bounded : IsBounded g
  present : member key g.eviction_ring ≡ true

enter_ring-HasRoom :
    (key : NotificationKey) (g : NotificationGuard) → IsBounded g → HasRoom key (enter_ring key g)
unfolding enter_ring member
enter_ring-HasRoom key g v = elim (Bool-cases (contains_key key g.seen_hashes)) [
  | inl known ↦ rw known (record { bounded = v; present = v.tracked key (v.hashed key known) })
  | inr unknown ↦ rw unknown (record {
    bounded = record {
      ring = omega (arith, length-append r.eviction_ring (key ∷ []), length-evict_oldest g v);
      tracked = λ k h. ground (arith, w.tracked k h, member-append k r.eviction_ring (key ∷ []));
      hashed = w.hashed;
      states_once = w.states_once;
      hashes_once = w.hashes_once;
    };
    present = ground (arith, last, member-append key r.eviction_ring (key ∷ []));
  })
]
  where
    r : NotificationGuard
    r = evict_oldest g

    w : IsBounded (evict_oldest g)
    w = evict_oldest-IsBounded g v

    last : member key (key ∷ []) ≡ true
    last = ground (arith, pair_same_iff key key)

-- The calls that a client makes of a guard.
pub data GuardCall : Type 0 where
  posted : NotificationEntry → GuardCall
  dismissed_one : Str → Str → GuardCall
  cleared : Str → GuardCall

contains_key-dismiss_origin :
    (o : Str) (k : NotificationKey) (m : List (NotificationKey × NotificationState))
    → contains_key k (dismiss_origin o m) ≡ contains_key k m
unfolding contains_key dismiss_origin
contains_key-dismiss_origin o k [] = refl
contains_key-dismiss_origin o k ((j, s) ∷ m) = ground (arith, contains_key-dismiss_origin o k m)

DistinctKeys-dismiss_origin :
    (o : Str) (m : List (NotificationKey × NotificationState))
    → DistinctKeys m
    → DistinctKeys (dismiss_origin o m)
unfolding dismiss_origin
DistinctKeys-dismiss_origin o [] d = tt
DistinctKeys-dismiss_origin o ((j, s) ∷ m) d =
    (contains_key-dismiss_origin o j m ∙ d.0, DistinctKeys-dismiss_origin o m d.1)

pub record_dismissed-IsBounded :
    (g : NotificationGuard) (o id : Str) → IsBounded g → IsBounded (record_dismissed g o id)
unfolding record_dismissed
record_dismissed-IsBounded g o id v = record {
  ring = v.ring;
  tracked = λ k h. v.tracked k (sym (contains_key-adjust (o, id) k (λ s. dismissed) g.states) ∙ h);
  hashed = λ k h. ground (
    arith,
    h,
    v.hashed k,
    contains_key-adjust (o, id) k (λ (s : NotificationState). dismissed) g.states,
    contains_key-remove (o, id) k g.seen_hashes,
  );
  states_once = DistinctKeys-adjust (o, id) (λ s. dismissed) g.states v.states_once;
  hashes_once = DistinctKeys-remove (o, id) g.seen_hashes v.hashes_once;
}

pub record_clear_all-IsBounded :
    (g : NotificationGuard) (o : Str) → IsBounded g → IsBounded (record_clear_all g o)
unfolding record_clear_all
record_clear_all-IsBounded g o v = record {
  ring = v.ring;
  tracked = λ k h. v.tracked k (sym (contains_key-dismiss_origin o k g.states) ∙ h);
  hashed = λ k h. ground (
    arith,
    h,
    v.hashed k,
    contains_key-dismiss_origin o k g.states,
    contains_key-retain (λ (j : NotificationKey). not (bytes_eq j.0 o)) k g.seen_hashes,
  );
  states_once = DistinctKeys-dismiss_origin o g.states v.states_once;
  hashes_once = DistinctKeys-retain (λ j. not (bytes_eq j.0 o)) g.seen_hashes v.hashes_once;
}

module _ (hex : Bytes → Str) (blake3 : Bytes → Bytes) where
  pub record_posted-IsBounded :
      (g : NotificationGuard) (e : NotificationEntry)
      → IsBounded g
      → IsBounded (record_posted hex blake3 g e)
  unfolding record_posted
  record_posted-IsBounded g e v =
      after (enter_ring (key hex e) g) (enter_ring-HasRoom (key hex e) g v)
    where
      after :
          (r : NotificationGuard)
          → HasRoom (key hex e) r
          → IsBounded (record r {
            seen_hashes = insert (key hex e) (compute_hash blake3 e) r.seen_hashes;
            states = insert (key hex e) active r.states;
          })
      after r h = record {
        ring = h.bounded.ring;
        tracked = λ k c. ground (
          arith,
          c,
          h.bounded.tracked k,
          h.present,
          contains_key-insert (key hex e) k active r.states,
          pair_same_iff (key hex e) k,
        );
        hashed = λ k c. ground (
          arith,
          c,
          h.bounded.hashed k,
          contains_key-insert (key hex e) k active r.states,
          contains_key-insert (key hex e) k (compute_hash blake3 e) r.seen_hashes,
        );
        states_once = DistinctKeys-insert (key hex e) active r.states h.bounded.states_once;
        hashes_once =
            DistinctKeys-insert (key hex e) (compute_hash blake3 e) r.seen_hashes
              h.bounded.hashes_once;
      }

  unfoldable pub after : NotificationGuard → GuardCall → NotificationGuard
  after g (posted e) = record_posted hex blake3 g e
  after g (dismissed_one o id) = record_dismissed g o id
  after g (cleared o) = record_clear_all g o

  unfoldable pub run : NotificationGuard → List GuardCall → NotificationGuard
  run g [] = g
  run g (c ∷ cs) = run (after g c) cs

  after-IsBounded : (g : NotificationGuard) (c : GuardCall) → IsBounded g → IsBounded (after g c)
  unfolding after
  after-IsBounded g (posted e) v = record_posted-IsBounded g e v
  after-IsBounded g (dismissed_one o id) v = record_dismissed-IsBounded g o id v
  after-IsBounded g (cleared o) v = record_clear_all-IsBounded g o v

  run-IsBounded : (g : NotificationGuard) (cs : List GuardCall) → IsBounded g → IsBounded (run g cs)
  unfolding run
  run-IsBounded g [] v = v
  run-IsBounded g (c ∷ cs) v = run-IsBounded (after g c) cs (after-IsBounded g c v)

pub new_guard-IsBounded : IsBounded new_guard
unfolding contains_key
new_guard-IsBounded = record {
  ring = omega arith;
  tracked = λ k h. cc;
  hashed = λ k h. cc;
  states_once = tt;
  hashes_once = tt;
}

-- The maps are no larger than the ring.
IsBounded-lengths :
    (g : NotificationGuard)
    → IsBounded g
    → (guard_len g ≤ ring_capacity) × (length g.seen_hashes ≤ ring_capacity)
unfolding guard_len
IsBounded-lengths g v = (
  omega (arith, v.ring, length-within g.states g.eviction_ring v.states_once v.tracked),
  omega (
    arith,
    v.ring,
    length-within g.seen_hashes g.eviction_ring v.hashes_once (λ k h. v.tracked k (v.hashed k h)),
  ),
)

-- After any posts, dismissals and clearings on a new guard, in any order, it holds at most 256 keys
-- in its ring, 256 states and 256 hashes, though a dismissed key enters the ring again.
pub run-bounded :
    (hex : Bytes → Str) (blake3 : Bytes → Bytes) (cs : List GuardCall)
    → let g = run hex blake3 new_guard cs in
      (length g.eviction_ring ≤ ring_capacity)
      × (guard_len g ≤ ring_capacity)
      × (length g.seen_hashes ≤ ring_capacity)
run-bounded hex blake3 cs =
    let v = run-IsBounded hex blake3 new_guard cs new_guard-IsBounded in
    let (states, hashes) = IsBounded-lengths (run hex blake3 new_guard cs) v in
    (v.ring, states, hashes)
