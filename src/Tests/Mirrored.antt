-- ===== src/Tests/Mirrored.antt =====
-- Notifications on their way from one device to another.
use bridgeos.Prelude.{
  length, Bytes, bytes_eq, Str, lit, char_len, str_len, to_ascii_lowercase, ◌≤◌, ◌≡◌, refl, ◌↔◌,
  true, false, none, [], ◌∷◌, ◌++◌, pair_key,
}
use bridgeos.Prelude.Maps.{contains_key}
use bridgeos.Notifications.Types.{
  normal, active, is_active, NotificationEntry, is_char_boundary, truncate, walk_back,
  truncate_str_bytes, post, dismiss, clear_all,
}
use bridgeos.Notifications.Types.Truncation.{truncate_str_bytes-longest}
use bridgeos.Notifications.Policy.{default_policy, strict, should_block}
use bridgeos.Notifications.Policy.Privacy.{Passes, should_block_iff}
use bridgeos.Notifications.Guard.{ring_capacity, new_guard, guard_len, key}
use bridgeos.Notifications.Guard.Bounded.{posted, dismissed_one, run, run-bounded}
use bridgeos.Notifications.Engine.{Engine, new_engine, handle_message, active_notifications}
use bridgeos.Notifications.Engine.Active.{DistinctIds, Every}
use bridgeos.Notifications.Engine.Delivery.{DeliversNothing, post_twice, post-dismissed}
use bridgeos.Notifications.Engine.Invariant.{handle_all, active_notifications-handle_all}

-- A hash of one byte.
abbrev short_hash : Bytes → Bytes
short_hash b = length b ∷ []

abbrev plain_hex : Bytes → Str
plain_hex b = b

-- An "a", an "é" of two bytes, and a "b".
abbrev accented : Str
accented = 97 ∷ 233 ∷ 98 ∷ []

-- The cut does not split the second letter.
accented_cut : truncate_str_bytes accented 2 ≡ 97 ∷ []
unfolding truncate_str_bytes str_len char_len walk_back is_char_boundary truncate
accented_cut = refl

truncate_str_bytes-longest_example :
    ((rest : Str) × (truncate_str_bytes accented 2 ++ rest ≡ accented))
    × (str_len (truncate_str_bytes accented 2) ≤ 2)
    × ((p q : Str)
        → p ++ q ≡ accented
        → str_len p ≤ 2
        → str_len p ≤ str_len (truncate_str_bytes accented 2))
truncate_str_bytes-longest_example = truncate_str_bytes-longest accented 2

abbrev hello : NotificationEntry
hello = record {
  origin = 1 ∷ [];
  sequence = 1;
  posted_at_ms = 10;
  notification_id = lit "n";
  app_id = lit "com.chat";
  app_name = lit "Chat";
  title = lit "Alice";
  text = lit "Hi";
  sub_text = none;
  urgency = normal;
  state = active;
  icon_hash = none;
  icon_data = none;
  is_ongoing = false;
}

should_block_iff_example :
    (should_block to_ascii_lowercase strict hello ≡ false) ↔ Passes to_ascii_lowercase strict hello
should_block_iff_example = should_block_iff to_ascii_lowercase strict hello

run-bounded_example :
    let g =
      run plain_hex short_hash new_guard
        (posted hello ∷ dismissed_one (1 ∷ []) (lit "n") ∷ posted hello ∷ []) in
    (length g.eviction_ring ≤ ring_capacity)
    × (guard_len g ≤ ring_capacity)
    × (length g.seen_hashes ≤ ring_capacity)
run-bounded_example =
    run-bounded plain_hex short_hash
      (posted hello ∷ dismissed_one (1 ∷ []) (lit "n") ∷ posted hello ∷ [])

abbrev mirror : Engine
mirror = record {
  local_node_id = 2 ∷ [];
  guard = record {
    seen_hashes = ((1 ∷ [], lit "n"), 9 ∷ []) ∷ [];
    eviction_ring = (1 ∷ [], lit "n") ∷ [];
    states = ((1 ∷ [], lit "n"), active) ∷ [];
  };
  policy = default_policy;
  active = (1 ∷ [], hello ∷ []) ∷ [];
  local_sequence = 0;
  events = [];
}

post_twice_example :
    let once = handle_message plain_hex short_hash to_ascii_lowercase (post hello) mirror in
    DeliversNothing once (handle_message plain_hex short_hash to_ascii_lowercase (post hello) once)
post_twice_example = post_twice plain_hex short_hash to_ascii_lowercase hello mirror

hello_tracked : contains_key (key plain_hex hello) mirror.guard.states ≡ true
unfolding contains_key key bytes_eq
hello_tracked = refl

post-dismissed_example :
    let after =
      handle_message plain_hex short_hash to_ascii_lowercase
        (dismiss (1 ∷ []) (lit "n") 2)
        mirror in
    DeliversNothing after
      (handle_message plain_hex short_hash to_ascii_lowercase (post hello) after)
post-dismissed_example =
    post-dismissed plain_hex short_hash to_ascii_lowercase hello 2 mirror hello_tracked

active_notifications-handle_all_example :
    let xs =
      active_notifications plain_hex short_hash to_ascii_lowercase
        (handle_all plain_hex short_hash to_ascii_lowercase
          (new_engine (2 ∷ []) default_policy)
          (post hello ∷ clear_all (1 ∷ []) 2 ∷ []))
        (1 ∷ []) in
    (length xs ≤ 256)
    × DistinctIds xs
    × Every (λ x. (plain_hex x.origin ≡ plain_hex (1 ∷ [])) × (is_active x.state ≡ true)) xs
active_notifications-handle_all_example =
    active_notifications-handle_all plain_hex short_hash to_ascii_lowercase (2 ∷ []) default_policy
      (post hello ∷ clear_all (1 ∷ []) 2 ∷ []) (1 ∷ [])
