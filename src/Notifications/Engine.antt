-- ===== src/Notifications/Engine.antt =====
-- crates/bridge-notifications/src/engine.rs. The lock's content is the state, `events` what was sent
-- to the subscribers, each call one step; the logs are left out.
pub mod Active
pub mod Invariant
pub mod Delivery
use bridgeos.Prelude.{
  ltb, if◌then◌else◌, length, drop, Bytes, bytes_eq, Str, lookup, insert, ℕ, ◌+◌, ◌%◌, ◌^◌, Bool,
  true, false, Option, none, some, List, [], ◌∷◌, ◌++◌, bytes_key,
}
use bridgeos.Prelude.Maps.{adjust}
use bridgeos.Prelude.Result.{Result, ok, err}
use bridgeos.Core.{NodeId}
use bridgeos.Protocol.Frame.{DataFrame}
use bridgeos.Protocol.Codec.{Postcard}
use bridgeos.Notifications.Types.{
  NotificationError, NotificationUrgency, NotificationAction, action_dismiss, dismissed, is_active,
  NotificationEntry, new_entry, enforce_size_limits, NotificationMessage, post, dismiss,
  action_invoked, clear_all, from_data_frame,
}
use bridgeos.Notifications.Policy.{NotificationPolicy, should_block}
use bridgeos.Notifications.Guard.{
  NotificationGuard, new_guard, is_dismissed, record_dismissed, record_clear_all, is_duplicate,
  record_posted,
}

pub data NotificationSyncEvent : Type 0 where
  event_received : NotificationEntry → NotificationSyncEvent
  event_dismissed : Str → Str → NotificationSyncEvent
  event_cleared_all : Str → NotificationSyncEvent
  event_action_invoked : Str → Str → NotificationAction → NotificationSyncEvent
  event_policy_blocked : Str → Str → NotificationSyncEvent

pub record Engine : Type 0 where
  pub local_node_id : NodeId
  pub guard : NotificationGuard
  pub policy : NotificationPolicy
  pub active : List (Str × List NotificationEntry)
  pub local_sequence : ℕ
  pub events : List NotificationSyncEvent

unfoldable pub new_engine : NodeId → NotificationPolicy → Engine
new_engine local_node_id policy = record {
  local_node_id = local_node_id;
  guard = new_guard;
  policy = policy;
  active = [];
  local_sequence = 0;
  events = [];
}

-- `tx.send`, whose result is ignored
unfoldable pub emit : NotificationSyncEvent → Engine → Engine
emit event e = record e { events = e.events ++ event ∷ [] }

-- The state after `next_sequence`, whose result is its `local_sequence`.
unfoldable pub next_sequence : Engine → Engine
next_sequence e = record e { local_sequence = (e.local_sequence + 1) % 2 ^ 64 }

-- `bucket.retain(|e| e.notification_id != id)`
unfoldable pub retain_other : Str → List NotificationEntry → List NotificationEntry
retain_other id [] = []
retain_other id (x ∷ bucket) =
    let rest = retain_other id bucket in if bytes_eq x.notification_id id then rest else x ∷ rest

unfoldable pub push_bounded : NotificationEntry → List NotificationEntry → List NotificationEntry
push_bounded entry bucket =
    let pushed = retain_other entry.notification_id bucket ++ entry ∷ [] in
    if ltb 256 (length pushed) then drop 1 pushed else pushed

-- `entry(..).or_default()`
unfoldable pub or_default : Option (List NotificationEntry) → List NotificationEntry
or_default none = []
or_default (some bucket) = bucket

-- The loops that set the state of one entry, and of all.
unfoldable pub dismiss_entry : Str → List NotificationEntry → List NotificationEntry
dismiss_entry id [] = []
dismiss_entry id (x ∷ bucket) =
    (if bytes_eq x.notification_id id then record x { state = dismissed } else x)
    ∷ dismiss_entry id bucket

unfoldable pub dismiss_all : List NotificationEntry → List NotificationEntry
dismiss_all [] = []
dismiss_all (x ∷ bucket) = record x { state = dismissed } ∷ dismiss_all bucket

unfoldable pub filter_active : List NotificationEntry → List NotificationEntry
filter_active [] = []
filter_active (x ∷ bucket) =
    let rest = filter_active bucket in if is_active x.state then x ∷ rest else rest

-- What a dismissal does to the guard and to the bucket.
unfoldable pub apply_dismiss : Str → Str → Engine → Engine
apply_dismiss origin_hex id e = record e {
  guard = record_dismissed e.guard origin_hex id;
  active = adjust origin_hex (dismiss_entry id) e.active;
}

unfoldable pub is_dismiss_action : NotificationAction → Bool
is_dismiss_action action_dismiss = true
is_dismiss_action _ = false

module _ (hex : Bytes → Str) (blake3 : Bytes → Bytes) (to_lowercase : Str → Str) where
  unfoldable pub store : NotificationEntry → Engine → Engine
  store entry e =
      let origin_hex = hex entry.origin in
      record e {
        guard = record_posted hex blake3 e.guard entry;
        active =
            insert origin_hex (push_bounded entry (or_default (lookup origin_hex e.active)))
              e.active;
      }

  -- From the policy gate on.
  unfoldable pub admit : NotificationEntry → Engine → Engine
  unfolding emit
  admit entry e =
      if should_block to_lowercase e.policy entry
      then emit (event_policy_blocked entry.app_id entry.notification_id) e
      else if is_duplicate hex blake3 e.guard entry
      then e
      else if is_dismissed e.guard (hex entry.origin) entry.notification_id
      then e
      else emit (event_received entry) (store entry e)

  unfoldable pub handle_message : NotificationMessage → Engine → Engine
  unfolding emit
  handle_message (post entry) e = admit (enforce_size_limits blake3 entry) e
  handle_message (dismiss origin id sequence) e =
      emit (event_dismissed (hex origin) id) (apply_dismiss (hex origin) id e)
  handle_message (clear_all origin sequence) e = emit (event_cleared_all (hex origin)) (record e {
    guard = record_clear_all e.guard (hex origin);
    active = adjust (hex origin) dismiss_all e.active;
  })
  handle_message (action_invoked origin id sequence action) e =
      let e' = if is_dismiss_action action then apply_dismiss (hex origin) id e else e in
      emit (event_action_invoked (hex origin) id action) e'

  -- A message that is decoded is always handled with `Ok(())`.
  unfoldable pub handle_incoming_frame :
      Postcard NotificationMessage
      → DataFrame
      → Engine
      → Result (Unit {0}) NotificationError × Engine
  handle_incoming_frame p frame e = elim (from_data_frame p frame) [
    | err x ↦ (err x, e)
    | ok message ↦ (ok tt, handle_message message e)
  ]

  -- With the clock's reading.
  unfoldable pub build_post :
      Str
      → Str
      → Str
      → Str
      → Str
      → NotificationUrgency
      → ℕ
      → Engine
      → Option NotificationMessage × Engine
  unfolding next_sequence
  build_post id app_id app_name title text urgency now_ms e =
      let e' = next_sequence e in
      let entry = enforce_size_limits blake3 (
        new_entry e.local_node_id e'.local_sequence now_ms id app_id app_name title text urgency) in
      if should_block to_lowercase e.policy entry then (none, e') else (some (post entry), e')

  unfoldable pub active_notifications : Engine → NodeId → List NotificationEntry
  active_notifications e origin = filter_active (or_default (lookup (hex origin) e.active))

unfoldable pub build_dismiss : Str → Engine → NotificationMessage × Engine
unfolding next_sequence
build_dismiss id e = let e' = next_sequence e in (dismiss e.local_node_id id e'.local_sequence, e')

unfoldable pub build_clear_all : Engine → NotificationMessage × Engine
unfolding next_sequence
build_clear_all e = let e' = next_sequence e in (clear_all e.local_node_id e'.local_sequence, e')

unfoldable pub build_action : Str → NotificationAction → Engine → NotificationMessage × Engine
unfolding next_sequence
build_action id action e =
    let e' = next_sequence e in (action_invoked e.local_node_id id e'.local_sequence action, e')
