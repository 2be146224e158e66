-- ===== src/Clipboard/Guard/Freshness.antt =====
-- Sequence numbers in the echo guard (guard.rs).
use bridgeos.Prelude.{
  leb, Bool-cases, Option-cases, length, Bytes, bytes_eq_refl, bytes_eq_iff, lookup, lookup-insert,
  ℕ, ◌≤◌, ◌<◌, ◌≡◌, refl, sym, subst, ◌↔◌, inl, inr, true, false, some, List, [], ◌∷◌, arith,
  bytes_key,
}
use bridgeos.Core.{NodeId}
use bridgeos.Clipboard.Guard.{
  EchoGuard, should_suppress, pop_oldest, make_room, push_hash, record_sent, is_stale,
  record_received, last_sequence,
}
use bridgeos.Clipboard.Guard.Invariant.{
  GuardCall, sent, received, cleared, after, run, Remembers, AllRemember, not-turned_away, numbered,
  received_cases,
}

sequences-make_room : (g : EchoGuard) → (make_room g).sequences ≡ g.sequences
unfolding make_room
sequences-make_room g = elim (Bool-cases (leb g.capacity (length g.history))) [
  | inl full ↦ rw full (popped g.history)
  | inr free ↦ rw free
]
  where
    popped : (l : List Bytes) → (pop_oldest l g).sequences ≡ g.sequences
    popped [] = refl
    popped (x ∷ l) = refl

sequences-push_hash : (g : EchoGuard) (x : Bytes) → (push_hash g x).sequences ≡ g.sequences
unfolding push_hash
sequences-push_hash g x = ground (arith, sequences-make_room g)

-- The guard has a sequence number of at least `s` for the origin.
abbrev Passed : EchoGuard → NodeId → ℕ → Type 0
Passed g o s = is_stale (lookup o g.sequences) s ≡ true

push_hash-Passed :
    (g : EchoGuard) (x : Bytes) (o : NodeId) (s : ℕ) → Passed g o s → Passed (push_hash g x) o s
push_hash-Passed g x o s h = rw (sequences-push_hash g x) h

-- A newer number for any origin keeps what was passed.
numbered-Passed :
    (g : EchoGuard) (p o : NodeId) (t s : ℕ)
    → is_stale (lookup p g.sequences) t ≡ false
    → Passed g o s
    → Passed (numbered g p t) o s
unfolding is_stale
numbered-Passed g p o t s newer h =
    ground (arith, lookup-insert p o t g.sequences, bytes_eq_iff p o)

after-Passed :
    (g : EchoGuard) (c : GuardCall) (o : NodeId) (s : ℕ)
    → Remembers c
    → Passed g o s
    → Passed (after g c) o s
unfolding after record_sent
after-Passed g cleared o s kept h = elim kept [ ]
after-Passed g (sent x) o s kept h = push_hash-Passed g x o s h
after-Passed g (received p t x) o s kept h = elim (received_cases g p t x) [
  | inl turned_away ↦ subst (λ r. Passed r.0 o s) (sym turned_away) h
  | inr (_, newer, recorded) ↦
      subst (λ r. Passed r.0 o s) (sym recorded)
        (push_hash-Passed (numbered g p t) x o s (numbered-Passed g p o t s newer h))
]

run-Passed :
    (g : EchoGuard) (cs : List GuardCall) (o : NodeId) (s : ℕ)
    → AllRemember cs
    → Passed g o s
    → Passed (run g cs) o s
unfolding run
run-Passed g [] o s kept h = h
run-Passed g (c ∷ cs) o s kept h =
    run-Passed (after g c) cs o s kept.1 (after-Passed g c o s kept.0 h)

-- An accepted entry leaves its number behind.
accepted-Passed :
    (g : EchoGuard) (o : NodeId) (s t : ℕ) (x : Bytes)
    → (record_received g o s x).1 ≡ true
    → t ≤ s
    → Passed (record_received g o s x).0 o t
unfolding is_stale
accepted-Passed g o s t x h older = elim (received_cases g o s x) [
  | inl turned_away ↦ absurd (not-turned_away turned_away h)
  | inr (_, _, recorded) ↦
      subst (λ r. Passed r.0 o t) (sym recorded)
        (push_hash-Passed (numbered g o s) x o t
          (ground (arith, lookup-insert o o s g.sequences, bytes_eq_refl o)))
]

-- Once an entry of an origin is accepted, every later entry of that origin whose number is not
-- larger is turned away and changes nothing, whatever calls of `record_sent` and
-- `record_received` came in between and whatever it holds.
pub record_received-replayed :
    (g : EchoGuard) (o : NodeId) (s t : ℕ) (x y : Bytes) (cs : List GuardCall)
    → AllRemember cs
    → (record_received g o s x).1 ≡ true
    → t ≤ s
    → let later = run (record_received g o s x).0 cs in record_received later o t y ≡ (later, false)
record_received-replayed g o s t x y cs kept h older =
    let later = run (record_received g o s x).0 cs in
    let stale =
      run-Passed (record_received g o s x).0 cs o t kept (accepted-Passed g o s t x h older) in
    elim (received_cases later o t y) [
      | inl turned_away ↦ turned_away
      | inr (_, newer, _) ↦ ground (arith, stale, newer)
    ]

-- An entry is accepted exactly when its hash is not known and its number passes the last one that
-- was recorded for its origin.
pub record_received_iff :
    (g : EchoGuard) (o : NodeId) (s : ℕ) (x : Bytes)
    → ((record_received g o s x).1 ≡ true)
      ↔ ((should_suppress g x ≡ false) × ((n : ℕ) → last_sequence g o ≡ some n → n < s))
unfolding record_received last_sequence
record_received_iff g o s x = (
  λ h. (ground arith, λ n e. ground arith),
  λ h. elim (Option-cases (lookup o g.sequences)) [
    | inl e ↦ ground (arith, h.0, e)
    | inr (n, e) ↦ ground (arith, h.0, e, h.1 n e)
  ],
)
