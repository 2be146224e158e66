-- ===== src/Notifications/Types.antt =====
-- crates/bridge-notifications/src/types.rs and error.rs. The hash function (blake3), the serializer
-- and the clock's reading are parameters. A constructor that two enums share has a prefix here.
pub mod Truncation
use bridgeos.Prelude.{
  ltb, leb, ◌==◌, if◌then◌else◌, length, take, Bytes, Str, char_len, str_len, as_bytes, ℕ, zero,
  suc, ◌-◌, Bool, true, false, not, Option, none, some, [], ◌∷◌, ◌++◌,
}
use bridgeos.Prelude.Result.{Result, ok, ◌>>=◌, ◌>>◌, reject_if, ok_or}
use bridgeos.Core.{NodeId}
use bridgeos.Protocol.Frame.{DataFrame, channel_notifications}
use bridgeos.Protocol.Codec.{Postcard}

pub data NotificationError : Type 0 where
  serialization deserialization channel_closed : NotificationError
  channel_mismatch : ℕ → ℕ → NotificationError
  payload_too_large : ℕ → NotificationError
  notification_not_found : Str → NotificationError

pub data NotificationUrgency : Type 0 where
  low normal high critical : NotificationUrgency

-- The derived order: an urgency's place in the declaration.
unfoldable pub rank : NotificationUrgency → ℕ
rank low = 0
rank normal = 1
rank high = 2
rank critical = 3

pub data NotificationAction : Type 0 where
  action_dismiss action_open : NotificationAction
  reply : Str → NotificationAction
  custom : Str → Str → NotificationAction

pub data NotificationState : Type 0 where
  active dismissed expired : NotificationState

-- `== NotificationState::Active`
unfoldable pub is_active : NotificationState → Bool
is_active active = true
is_active _ = false

pub record NotificationEntry : Type 0 where
  pub origin : NodeId
  pub sequence : ℕ
  pub posted_at_ms : ℕ
  pub notification_id : Str
  pub app_id : Str
  pub app_name : Str
  pub title : Str
  pub text : Str
  pub sub_text : Option Str
  pub urgency : NotificationUrgency
  pub state : NotificationState
  pub icon_hash : Option Bytes
  pub icon_data : Option Bytes
  pub is_ongoing : Bool

-- `NotificationEntry::new`, with the clock's reading
unfoldable pub new_entry :
    NodeId → ℕ → ℕ → Str → Str → Str → Str → Str → NotificationUrgency → NotificationEntry
new_entry origin sequence now_ms notification_id app_id app_name title text urgency = record {
  origin = origin;
  sequence = sequence;
  posted_at_ms = now_ms;
  notification_id = notification_id;
  app_id = app_id;
  app_name = app_name;
  title = title;
  text = text;
  sub_text = none;
  urgency = urgency;
  state = active;
  icon_hash = none;
  icon_data = none;
  is_ongoing = false;
}

-- `str::is_char_boundary`
unfoldable pub is_char_boundary : Str → ℕ → Bool
is_char_boundary [] n = n == 0
is_char_boundary (c ∷ s) n =
    let rest = is_char_boundary s (n - char_len c) in
    if n == 0 then true else if ltb n (char_len c) then false else rest

-- `String::truncate`, at a boundary
unfoldable pub truncate : Str → ℕ → Str
truncate [] n = []
truncate (c ∷ s) n =
    let rest = truncate s (n - char_len c) in if ltb n (char_len c) then [] else c ∷ rest

-- The `while` loop, which stops at 0 at the latest.
unfoldable pub walk_back : Str → ℕ → ℕ
walk_back s zero = 0
walk_back s (suc n) =
    let lower = walk_back s n in if is_char_boundary s (suc n) then suc n else lower

unfoldable pub truncate_str_bytes : Str → ℕ → Str
truncate_str_bytes s max_bytes =
    if leb (str_len s) max_bytes then s else truncate s (walk_back s max_bytes)

module _ (blake3 : Bytes → Bytes) where
  unfoldable pub compute_hash : NotificationEntry → Bytes
  compute_hash e = blake3 (
      e.origin
      ++ (as_bytes e.notification_id
          ++ (as_bytes e.app_id ++ (as_bytes e.title ++ as_bytes e.text))))

  -- The icon, and the hash of what is left of it.
  unfoldable pub limit_icon : Option Bytes → NotificationEntry → NotificationEntry
  limit_icon none e = e
  limit_icon (some icon) e =
      let icon' = take 65536 icon in
      if ltb 65536 (length icon)
      then record e { icon_data = some icon'; icon_hash = some (blake3 icon') }
      else e

  unfoldable pub enforce_size_limits : NotificationEntry → NotificationEntry
  unfolding limit_icon
  enforce_size_limits e =
      limit_icon e.icon_data
        (record e { title = truncate_str_bytes e.title 256; text = truncate_str_bytes e.text 4096 })

pub data NotificationMessage : Type 0 where
  post : NotificationEntry → NotificationMessage
  dismiss : NodeId → Str → ℕ → NotificationMessage
  action_invoked : NodeId → Str → ℕ → NotificationAction → NotificationMessage
  clear_all : NodeId → ℕ → NotificationMessage

unfoldable pub message_origin : NotificationMessage → NodeId
message_origin (post e) = e.origin
message_origin (dismiss origin notification_id sequence) = origin
message_origin (action_invoked origin notification_id sequence action) = origin
message_origin (clear_all origin sequence) = origin

module _ (p : Postcard NotificationMessage) where
  unfoldable pub to_data_frame : NotificationMessage → Result DataFrame NotificationError
  to_data_frame m = do
    payload ← ok_or serialization (p.to_allocvec m)
    ok (record { channel = channel_notifications; payload = payload })

  unfoldable pub from_data_frame : DataFrame → Result NotificationMessage NotificationError
  from_data_frame frame = do
    reject_if (not (frame.channel == channel_notifications))
        (channel_mismatch channel_notifications frame.channel)
    ok_or deserialization (p.from_bytes frame.payload)
