-- ===== src/Clipboard/Guard/Window.antt =====
-- How long the echo guard (guard.rs) remembers a hash.
use mathlib.Core.List.{append_assoc}
use bridgeos.Prelude.{
  leb, Bool-cases, length, length-append, Bytes, bytes_eq_refl, member, member-append, insert, ℕ,
  ◌+◌, ◌≤◌, ◌<◌, ◌≡◌, refl, sym, ap, ◌∙◌, subst, inl, inr, true, false, List, [], ◌∷◌, ◌++◌, arith,
  bytes_key,
}
use bridgeos.Clipboard.Guard.{
  EchoGuard, should_suppress, pop_oldest, make_room, push_hash, record_sent, record_received, clear,
}
use bridgeos.Clipboard.Guard.Invariant.{
  IsValid, GuardCall, sent, received, cleared, after, run, Remembers, AllRemember, not-turned_away,
  numbered, received_cases, after-IsValid, run-IsValid,
}

-- `h` stands in the list, with fewer than `n` hashes behind it.
abbrev Within : ℕ → Bytes → List Bytes → Type 0
Within n h l =
    (older : List Bytes) × (newer : List Bytes) × (l ≡ older ++ h ∷ newer) × (length newer < n)

capacity-make_room : (g : EchoGuard) → (make_room g).capacity ≡ g.capacity
unfolding make_room
capacity-make_room g = elim (Bool-cases (leb g.capacity (length g.history))) [
  | inl full ↦ rw full (popped g.history)
  | inr free ↦ rw free
]
  where
    popped : (l : List Bytes) → (pop_oldest l g).capacity ≡ g.capacity
    popped [] = refl
    popped (x ∷ l) = refl

capacity-push_hash : (g : EchoGuard) (x : Bytes) → (push_hash g x).capacity ≡ g.capacity
unfolding push_hash
capacity-push_hash g x = ground (arith, capacity-make_room g)

capacity-after : (g : EchoGuard) (c : GuardCall) → (after g c).capacity ≡ g.capacity
unfolding after record_sent record_received clear
capacity-after g (sent x) = capacity-push_hash g x
capacity-after g (received o s x) =
    ground (arith, capacity-push_hash (record g { sequences = insert o s g.sequences }) x)
capacity-after g cleared = refl

-- The oldest hash is given up only where a newer one than `h` needs the room.
make_room-Within :
    (g : EchoGuard) (h : Bytes) (n : ℕ)
    → Within n h g.history
    → n < g.capacity
    → Within n h (make_room g).history
unfolding make_room
make_room-Within g h n ([], newer, e, few) small = ([], newer, ground (arith, ap length e), few)
make_room-Within g h n (x ∷ older, newer, e, few) small =
    elim (Bool-cases (leb g.capacity (length g.history))) [
      | inl full ↦ (older, newer, rw (full, e), few)
      | inr free ↦ (x ∷ older, newer, rw free e, few)
    ]

push_hash-Within :
    (g : EchoGuard) (h x : Bytes) (n : ℕ)
    → Within n h g.history
    → n < g.capacity
    → Within (n + 1) h (push_hash g x).history
unfolding push_hash
push_hash-Within g h x n w small = elim (Bool-cases (member x g.seen_hashes)) [
  | inl seen ↦ (w.0, w.1, rw seen w.2, omega (arith, w.3))
  | inr fresh ↦
      let (older, newer, e, few) = make_room-Within g h n w small in
      (
        older,
        newer ++ x ∷ [],
        rw (fresh, e) (append_assoc older (h ∷ newer) (x ∷ [])),
        omega (arith, length-append newer (x ∷ []), few),
      )
]

after-Within :
    (g : EchoGuard) (c : GuardCall) (h : Bytes) (n : ℕ)
    → Remembers c
    → Within n h g.history
    → n < g.capacity
    → Within (n + 1) h (after g c).history
unfolding after record_sent
after-Within g cleared h n kept w small = elim kept [ ]
after-Within g (sent x) h n kept w small = push_hash-Within g h x n w small
after-Within g (received o s x) h n kept w small = elim (received_cases g o s x) [
  | inl turned_away ↦
      subst (λ r. Within (n + 1) h r.0.history) (sym turned_away)
        (w.0, w.1, w.2, omega (arith, w.3))
  | inr (_, _, recorded) ↦
      subst (λ r. Within (n + 1) h r.0.history) (sym recorded)
        (push_hash-Within (numbered g o s) h x n w small)
]

run-Within :
    (g : EchoGuard) (cs : List GuardCall) (h : Bytes) (n : ℕ)
    → AllRemember cs
    → Within n h g.history
    → n + length cs ≤ g.capacity
    → (m : ℕ) × Within m h (run g cs).history
unfolding run
run-Within g [] h n kept w small = (n, w)
run-Within g (c ∷ cs) h n kept w small =
    run-Within (after g c) cs h (n + 1) kept.1 (after-Within g c h n kept.0 w (omega arith))
      (rw (capacity-after g c) (omega arith))

-- A call that puts a hash into the guard: one that was not there, and for a received entry one
-- that was accepted.
abbrev pub Records : EchoGuard → GuardCall → Bytes → Type 0
Records g (sent x) h = (x ≡ h) × (should_suppress g h ≡ false)
Records g (received o s x) h = (x ≡ h) × ((record_received g o s x).1 ≡ true)
Records g cleared h = ⊥

push_hash-recorded :
    (g : EchoGuard) (h : Bytes)
    → member h g.seen_hashes ≡ false
    → Within 1 h (push_hash g h).history
unfolding push_hash
push_hash-recorded g h fresh = ((make_room g).history, [], rw fresh, omega arith)

after-recorded :
    (g : EchoGuard) (c : GuardCall) (h : Bytes) → Records g c h → Within 1 h (after g c).history
unfolding after record_sent should_suppress
after-recorded g cleared h r = elim r [ ]
after-recorded g (sent x) h r =
    subst (λ y. Within 1 h (push_hash g y).history) (sym r.0) (push_hash-recorded g h r.1)
after-recorded g (received o s x) h r =
    subst (λ y. Within 1 y (after g (received o s x)).history) r.0
      (elim (received_cases g o s x) [
        | inl turned_away ↦ absurd (not-turned_away turned_away r.1)
        | inr (fresh, _, recorded) ↦
            subst (λ q. Within 1 x q.0.history) (sym recorded)
              (push_hash-recorded (numbered g o s) x fresh)
      ])

-- A hash that a call has put into a valid guard is suppressed after any further calls of
-- `record_sent` and `record_received` that are fewer than the capacity.
pub should_suppress-run :
    (g : EchoGuard) (c : GuardCall) (h : Bytes) (cs : List GuardCall)
    → IsValid g
    → Records g c h
    → AllRemember cs
    → length cs < g.capacity
    → should_suppress (run (after g c) cs) h ≡ true
unfolding should_suppress member
should_suppress-run g c h cs v r kept few =
    let (m, (older, newer, e, _)) =
      run-Within (after g c) cs h 1 kept (after-recorded g c h r)
        (rw (capacity-after g c) (omega arith)) in
    let there = member-append h older (h ∷ newer) in
    (run-IsValid (after g c) cs (after-IsValid g c v)).agree h
    ∙ (rw e (ground (arith, bytes_eq_refl h, there)))
