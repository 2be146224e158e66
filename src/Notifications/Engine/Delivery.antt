-- ===== src/Notifications/Engine/Delivery.antt =====
-- Which posts reach the application (engine.rs).
use bridgeos.Prelude.{
  ltb, Bool-cases, length, Bytes, bytes_eq_refl, Str, pair_same_iff, lookup, lookup-insert, ℕ, ◌≡◌,
  refl, ◌⊎◌, inl, inr, true, false, Option, none, some, List, [], ◌∷◌, ◌++◌, arith, pair_key,
  bytes_key,
}
use bridgeos.Notifications.Types.{
  NotificationState, dismissed, NotificationEntry, truncate_str_bytes, compute_hash, limit_icon,
  enforce_size_limits, post, dismiss,
}
use bridgeos.Notifications.Policy.{should_block}
use bridgeos.Notifications.Guard.{
  NotificationKey, NotificationGuard, state_is_dismissed, is_dismissed, enter_ring,
  record_dismissed, hash_matches, key, is_duplicate, record_posted,
}
use bridgeos.Notifications.Engine.{
  event_received, event_policy_blocked, Engine, emit, apply_dismiss, store, admit, handle_message,
}
use bridgeos.Prelude.Maps.{contains_key, adjust}

-- At most a report of a blocked post was added.
abbrev pub DeliversNothing : Engine → Engine → Type 0
DeliversNothing before after =
    (after.guard ≡ before.guard)
    × (after.active ≡ before.active)
    × ((after.events ≡ before.events)
        ⊎ ((app_id : Str) × (id : Str) × (after.events
              ≡ before.events ++ event_policy_blocked app_id id ∷ [])))

state_is_dismissed-adjust :
    (k : NotificationKey) (m : List (NotificationKey × NotificationState))
    → contains_key k m ≡ true
    → state_is_dismissed (lookup k (adjust k (λ s. dismissed) m)) ≡ true
unfolding state_is_dismissed contains_key lookup adjust
state_is_dismissed-adjust k [] h = cc
state_is_dismissed-adjust k ((j, s) ∷ m) h = ground (arith, h, state_is_dismissed-adjust k m)

is_dismissed-record_dismissed :
    (g : NotificationGuard) (origin_hex id : Str)
    → contains_key (origin_hex, id) g.states ≡ true
    → is_dismissed (record_dismissed g origin_hex id) origin_hex id ≡ true
unfolding is_dismissed record_dismissed
is_dismissed-record_dismissed g origin_hex id h =
    state_is_dismissed-adjust (origin_hex, id) g.states h

module _ (hex : Bytes → Str) (blake3 : Bytes → Bytes) (to_lowercase : Str → Str) where
  -- The four ways of a post.
  pub data Admission (entry : NotificationEntry) (e : Engine) : Type 0 where
    blocked :
        should_block to_lowercase e.policy entry ≡ true
        → admit hex blake3 to_lowercase entry e
          ≡ emit (event_policy_blocked entry.app_id entry.notification_id) e
        → Admission entry e
    known :
        is_duplicate hex blake3 e.guard entry ≡ true
        → admit hex blake3 to_lowercase entry e ≡ e
        → Admission entry e
    gone :
        is_dismissed e.guard (hex entry.origin) entry.notification_id ≡ true
        → admit hex blake3 to_lowercase entry e ≡ e
        → Admission entry e
    delivered :
        should_block to_lowercase e.policy entry ≡ false
        → is_duplicate hex blake3 e.guard entry ≡ false
        → is_dismissed e.guard (hex entry.origin) entry.notification_id ≡ false
        → admit hex blake3 to_lowercase entry e
          ≡ emit (event_received entry) (store hex blake3 to_lowercase entry e)
        → Admission entry e

  pub admission : (entry : NotificationEntry) (e : Engine) → Admission entry e
  unfolding admit
  admission entry e = elim (Bool-cases (should_block to_lowercase e.policy entry)) [
    | inl b ↦ blocked b (rw b)
    | inr b ↦ elim (Bool-cases (is_duplicate hex blake3 e.guard entry)) [
      | inl d ↦ known d (rw (b, d))
      | inr d ↦ elim (Bool-cases (is_dismissed e.guard (hex entry.origin) entry.notification_id)) [
        | inl g ↦ gone g (rw (b, d, g))
        | inr g ↦ delivered b d g (rw (b, d, g))
      ]
    ]
  ]

  -- What is recorded as posted is a duplicate from then on.
  is_duplicate-record_posted :
      (g : NotificationGuard) (entry : NotificationEntry)
      → is_duplicate hex blake3 (record_posted hex blake3 g entry) entry ≡ true
  unfolding is_duplicate record_posted hash_matches
  is_duplicate-record_posted g entry = ground (
    arith,
    lookup-insert (key hex entry) (key hex entry) (compute_hash blake3 entry)
        (enter_ring (key hex entry) g).seen_hashes,
    pair_same_iff (key hex entry) (key hex entry),
    bytes_eq_refl (compute_hash blake3 entry),
  )

  -- A post of something known, dismissed or blocked delivers nothing.
  undelivered :
      (entry : NotificationEntry) (e : Engine)
      → (is_duplicate hex blake3 e.guard entry ≡ true)
        ⊎ (is_dismissed e.guard (hex entry.origin) entry.notification_id ≡ true)
        ⊎ (should_block to_lowercase e.policy entry ≡ true)
      → DeliversNothing e (admit hex blake3 to_lowercase entry e)
  unfolding emit
  undelivered entry e h = elim (admission entry e) [
    | blocked b eq ↦ rw eq (refl, refl, inr (entry.app_id, entry.notification_id, refl))
    | known d eq ↦ rw eq (refl, refl, inl refl)
    | gone g eq ↦ rw eq (refl, refl, inl refl)
    | delivered b d g eq ↦ ground (arith, h)
  ]

  -- The same post handled twice delivers at most once: the second time the guard and the mirrored
  -- notifications stay as they are and no event but a report of a blocked post is sent.
  pub post_twice :
      (entry : NotificationEntry) (e : Engine)
      → let once = handle_message hex blake3 to_lowercase (post entry) e in
        DeliversNothing once (handle_message hex blake3 to_lowercase (post entry) once)
  unfolding handle_message store emit
  post_twice entry e = again (enforce_size_limits blake3 entry)
    where
      again :
          (x : NotificationEntry)
          → let once = admit hex blake3 to_lowercase x e in
            DeliversNothing once (admit hex blake3 to_lowercase x once)
      again x = elim (admission x e) [
        | blocked b eq ↦ rw eq (undelivered x (emit _ e) (inr (inr b)))
        | known d eq ↦ rw eq (undelivered x e (inl d))
        | gone g eq ↦ rw eq (undelivered x e (inr (inl g)))
        | delivered b d g eq ↦ rw eq (
            undelivered x (emit (event_received x) (store hex blake3 to_lowercase x e))
              (inl (is_duplicate-record_posted e.guard x)))
      ]

  limit_icon-key :
      (icon : Option Bytes) (x : NotificationEntry)
      → ((limit_icon blake3 icon x).origin ≡ x.origin)
        × ((limit_icon blake3 icon x).notification_id ≡ x.notification_id)
  unfolding limit_icon
  limit_icon-key none x = (refl, refl)
  limit_icon-key (some icon) x = elim (Bool-cases (ltb 65536 (length icon))) [
    | inl e ↦ rw e (refl, refl)
    | inr e ↦ rw e (refl, refl)
  ]

  -- The limits on the sizes leave the origin and the id as they are.
  enforce_size_limits-key :
      (x : NotificationEntry)
      → ((enforce_size_limits blake3 x).origin ≡ x.origin)
        × ((enforce_size_limits blake3 x).notification_id ≡ x.notification_id)
  unfolding enforce_size_limits
  enforce_size_limits-key x =
      limit_icon-key x.icon_data
        (record x { title = truncate_str_bytes x.title 256; text = truncate_str_bytes x.text 4096 })

  -- Once a notification that the guard knows was dismissed, a post with its origin and id delivers
  -- nothing, whatever its content.
  pub post-dismissed :
      (entry : NotificationEntry) (sequence : ℕ) (e : Engine)
      → contains_key (key hex entry) e.guard.states ≡ true
      → let after =
          handle_message hex blake3 to_lowercase
            (dismiss entry.origin entry.notification_id sequence)
            e in
        DeliversNothing after (handle_message hex blake3 to_lowercase (post entry) after)
  unfolding handle_message emit apply_dismiss key
  post-dismissed entry sequence e tracked = undelivered (enforce_size_limits blake3 entry) _ (
      inr (
        inl (
          rw ((enforce_size_limits-key entry).0, (enforce_size_limits-key entry).1)
            (is_dismissed-record_dismissed e.guard (hex entry.origin) entry.notification_id
              tracked))))
