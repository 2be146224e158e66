-- ===== src/Clipboard/Guard/Invariant.antt =====
-- What every operation of the echo guard (guard.rs) keeps true of its state.
use bridgeos.Prelude.{
  leb, Bool-cases, length, length-append, Bytes, bytes_eq_iff, member, insert_member, member-append,
  member-insert_member, member-remove_member, lookup, insert, ℕ, ◌≤◌, ◌<◌, ◌≡◌, refl, sym, ap, ◌∙◌,
  subst, ◌⊎◌, inl, inr, Bool, true, false, List, [], ◌∷◌, ◌++◌, arith, bytes_key,
}
use bridgeos.Clipboard.Guard.{
  EchoGuard, new, should_suppress, pop_oldest, make_room, push_hash, record_sent, is_stale,
  record_received, clear,
}
use bridgeos.Core.{NodeId}

abbrev pub Distinct : List Bytes → Type 0
Distinct [] = Unit {0}
Distinct (x ∷ xs) = (member x xs ≡ false) × Distinct xs

pub record IsValid (g : EchoGuard) : Type 0 where
  pub room : 0 < g.capacity
  pub bounded : length g.history ≤ g.capacity
  pub distinct : Distinct g.history
  pub agree : (h : Bytes) → member h g.seen_hashes ≡ member h g.history

Distinct-append :
    (a : Bytes) (xs : List Bytes) → Distinct xs → member a xs ≡ false → Distinct (xs ++ a ∷ [])
unfolding member
Distinct-append a [] d h = (refl, tt)
Distinct-append a (x ∷ xs) d h = (
  ground (arith, member-append x xs (a ∷ []), bytes_eq_iff a x, bytes_eq_iff x a),
  Distinct-append a xs d.1 (ground arith),
)

pop_oldest-IsValid :
    (g : EchoGuard) (history : List Bytes)
    → g.history ≡ history
    → IsValid g
    → IsValid (pop_oldest history g)
unfolding pop_oldest member
pop_oldest-IsValid g [] e v = v
pop_oldest-IsValid g (oldest ∷ rest) e v = record {
  room = v.room;
  bounded = ground (arith, v.bounded);
  distinct = (subst Distinct e v.distinct).1;
  agree = λ h. ground (
    arith,
    v.agree h,
    member-remove_member oldest h g.seen_hashes,
    bytes_eq_iff oldest h,
    (subst Distinct e v.distinct).0,
  );
}

make_room-IsValid : (g : EchoGuard) → IsValid g → IsValid (make_room g)
unfolding make_room
make_room-IsValid g v = ground (arith, pop_oldest-IsValid g g.history refl v)

-- After `make_room` one more hash fits.
length-make_room :
    (g : EchoGuard) → IsValid g → length (make_room g).history < (make_room g).capacity
unfolding make_room
length-make_room g v = elim (Bool-cases (leb g.capacity (length g.history))) [
  | inl full ↦ rw full (shorter g.history refl)
  | inr free ↦ rw free (ground arith)
]
  where
    shorter :
        (l : List Bytes)
        → g.history ≡ l
        → length (pop_oldest l g).history < (pop_oldest l g).capacity
    shorter [] e = ground (arith, v.room)
    shorter (x ∷ l) e = ground (arith, v.bounded)

-- What `push_hash` does with a hash that is not there, with `make_room` shut.
appended : EchoGuard → Bytes → EchoGuard
appended r hash = record r {
  history = r.history ++ hash ∷ [];
  seen_hashes = insert_member hash r.seen_hashes;
}

-- Making room does not bring a hash in.
member-make_room :
    (g : EchoGuard) (h : Bytes)
    → member h g.seen_hashes ≡ false
    → member h (make_room g).seen_hashes ≡ false
unfolding make_room
member-make_room g h e = elim (Bool-cases (leb g.capacity (length g.history))) [
  | inl full ↦ rw full (after g.history)
  | inr free ↦ rw free e
]
  where
    after : (l : List Bytes) → member h (pop_oldest l g).seen_hashes ≡ false
    after [] = e
    after (x ∷ l) = ground (arith, member-remove_member x h g.seen_hashes)

appended-IsValid :
    (r : EchoGuard) (hash : Bytes)
    → IsValid r
    → length r.history < r.capacity
    → member hash r.seen_hashes ≡ false
    → IsValid (appended r hash)
unfolding appended member
appended-IsValid r hash v fits fresh = record {
  room = v.room;
  bounded = omega (arith, length-append r.history (hash ∷ []), fits);
  distinct = Distinct-append hash r.history v.distinct (sym (v.agree hash) ∙ fresh);
  agree = λ h. ground (
    arith,
    v.agree h,
    member-insert_member hash h r.seen_hashes,
    member-append h r.history (hash ∷ []),
    bytes_eq_iff hash h,
  );
}

push_hash-IsValid : (g : EchoGuard) (hash : Bytes) → IsValid g → IsValid (push_hash g hash)
unfolding push_hash appended
push_hash-IsValid g hash v = elim (Bool-cases (member hash g.seen_hashes)) [
  | inl seen ↦ rw seen v
  | inr fresh ↦ rw fresh (
      appended-IsValid (make_room g) hash (make_room-IsValid g v) (length-make_room g v)
        (member-make_room g hash fresh))
]

-- The calls that a client makes of a guard.
pub data GuardCall : Type 0 where
  sent : Bytes → GuardCall
  received : NodeId → ℕ → Bytes → GuardCall
  cleared : GuardCall

unfoldable pub after : EchoGuard → GuardCall → EchoGuard
after g (sent hash) = record_sent g hash
after g (received origin sequence hash) = (record_received g origin sequence hash).0
after g cleared = clear g

unfoldable pub run : EchoGuard → List GuardCall → EchoGuard
unfolding after
run g [] = g
run g (c ∷ cs) = run (after g c) cs

-- The calls after which the guard still knows what it knew.
abbrev pub Remembers : GuardCall → Type 0
Remembers (sent hash) = Unit {0}
Remembers (received origin sequence hash) = Unit {0}
Remembers cleared = ⊥

abbrev pub AllRemember : List GuardCall → Type 0
AllRemember [] = Unit {0}
AllRemember (c ∷ cs) = Remembers c × AllRemember cs

pub not-turned_away : {g : EchoGuard} {r : EchoGuard × Bool} → r ≡ (g, false) → r.1 ≡ true → ⊥
not-turned_away e h = cc (ap (λ (q : EchoGuard × Bool). q.1) e)

-- The guard with a new sequence number.
abbrev pub numbered : EchoGuard → NodeId → ℕ → EchoGuard
numbered g o s = record g { sequences = insert o s g.sequences }

-- An entry is turned away and changes nothing, or is fresh in both ways and is recorded.
pub received_cases :
    (g : EchoGuard) (o : NodeId) (s : ℕ) (x : Bytes)
    → (record_received g o s x ≡ (g, false))
      ⊎ ((should_suppress g x ≡ false)
          × (is_stale (lookup o g.sequences) s ≡ false)
          × (record_received g o s x ≡ (push_hash (numbered g o s) x, true)))
unfolding record_received
received_cases g o s x = elim (Bool-cases (should_suppress g x)) [
  | inl seen ↦ inl (rw seen)
  | inr fresh ↦ elim (Bool-cases (is_stale (lookup o g.sequences) s)) [
    | inl stale ↦ inl (rw (fresh, stale))
    | inr newer ↦ inr (fresh, newer, rw (fresh, newer))
  ]
]

record_received-IsValid :
    (g : EchoGuard) (origin : NodeId) (sequence : ℕ) (hash : Bytes)
    → IsValid g
    → IsValid (record_received g origin sequence hash).0
unfolding record_received
record_received-IsValid g origin sequence hash v = ground (
  arith,
  v,
  push_hash-IsValid (record g { sequences = insert origin sequence g.sequences }) hash
      (record { room = v.room; bounded = v.bounded; distinct = v.distinct; agree = v.agree }),
)

clear-IsValid : (g : EchoGuard) → IsValid g → IsValid (clear g)
unfolding clear
clear-IsValid g v = record {
  room = v.room;
  bounded = omega arith;
  distinct = tt;
  agree = λ h. refl;
}

pub after-IsValid : (g : EchoGuard) (c : GuardCall) → IsValid g → IsValid (after g c)
unfolding after record_sent
after-IsValid g (sent hash) v = push_hash-IsValid g hash v
after-IsValid g (received o s hash) v = record_received-IsValid g o s hash v
after-IsValid g cleared v = clear-IsValid g v

pub run-IsValid : (g : EchoGuard) (cs : List GuardCall) → IsValid g → IsValid (run g cs)
unfolding run
run-IsValid g [] v = v
run-IsValid g (c ∷ cs) v = run-IsValid (after g c) cs (after-IsValid g c v)

pub new-IsValid : (n : ℕ) → IsValid (new n)
unfolding new
new-IsValid n = record {
  room = ground arith;
  bounded = ground arith;
  distinct = tt;
  agree = λ h. refl;
}

-- After any calls on a new guard, of whatever capacity, those of `clear` included, the deque holds at most `capacity` hashes,
-- none of them twice, and the set holds exactly the hashes of the deque.
pub run-new-IsValid : (n : ℕ) (cs : List GuardCall) → IsValid (run (new n) cs)
run-new-IsValid n cs = run-IsValid (new n) cs (new-IsValid n)
