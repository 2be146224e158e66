-- ===== src/Clipboard/Engine.antt =====
-- crates/bridge-clipboard/src/engine.rs. The engine's lock, its atomic counter and its backend are
-- fields of one state; `events` is what was sent to the subscribers. The text of a rejection is
-- replaced by its error. Each call is one step.
pub mod Calls
pub mod Echo
pub mod Applied
pub mod Faults
use bridgeos.Prelude.{
  if◌then◌else◌, replicate, Bytes, bytes_eq, ℕ, ◌+◌, ◌%◌, ◌^◌, Bool, not, Option, none, some, List,
  [], ◌∷◌, ◌++◌,
}
use bridgeos.Prelude.Result.{Result, ok, err, ◌>>=◌, ◌>>◌}
use bridgeos.Core.{NodeId}
use bridgeos.Protocol.Frame.{DataFrame}
use bridgeos.Protocol.Codec.{Postcard}
use bridgeos.Clipboard.Content.{
  ClipboardError, ClipboardFormat, ClipboardContent, format, byte_len, ClipboardEntry,
  ClipboardMessage, sync, clear_all, ack, compute_hash, new_entry, validate_integrity,
  to_data_frame, from_data_frame,
}
use bridgeos.Clipboard.Policy.{ClipboardPolicy, validate}
use bridgeos.Clipboard.Guard
use bridgeos.Clipboard.Guard.{
  EchoGuard, default_capacity, should_suppress, record_sent, record_received,
}
use bridgeos.Clipboard.Backend.{ClipboardBackend}

pub data ClipboardSyncEvent : Type 0 where
  local_copied : Bytes → ClipboardFormat → ℕ → ClipboardSyncEvent
  outgoing_broadcast_ready : ClipboardMessage → DataFrame → ClipboardSyncEvent
  remote_applied : NodeId → ℕ → Bytes → ClipboardFormat → ClipboardSyncEvent
  echo_suppressed : Bytes → ClipboardSyncEvent
  rejected : ClipboardError → ClipboardSyncEvent

pub record Engine (B : Type 0) : Type 0 where
  pub local_node_id : NodeId
  pub sequence : ℕ
  pub backend : B
  pub guard : EchoGuard
  pub policy : ClipboardPolicy
  pub events : List ClipboardSyncEvent

-- `[0u8; 32]`
abbrev pub zero_hash : Bytes
zero_hash = replicate 32 0

module _ {B : Type 0} where
  unfoldable pub new_engine : NodeId → B → ClipboardPolicy → Engine B
  new_engine local_node_id backend policy = record {
    local_node_id = local_node_id;
    sequence = 1;
    backend = backend;
    guard = Guard.new default_capacity;
    policy = policy;
    events = [];
  }

  -- `event_tx.send`, whose result is ignored
  unfoldable pub emit : ClipboardSyncEvent → Engine B → Engine B
  emit event e = record e { events = e.events ++ event ∷ [] }

module _ (blake3 : Bytes → Bytes) (p : Postcard ClipboardMessage) {B : Type 0} where
  -- From `fetch_add` on: the part of `handle_local_change` for a content that is not known.
  unfoldable pub package_change :
      ClipboardContent → Bool → ℕ → Engine B → Result (Option DataFrame) ClipboardError × Engine B
  unfolding emit
  package_change content is_sensitive now_ms e =
      let hash = compute_hash blake3 content in
      let entry = new_entry blake3 e.local_node_id e.sequence content is_sensitive now_ms in
      let e' = record e {
        sequence = (e.sequence + 1) % 2 ^ 64;
        guard = record_sent e.guard hash;
      } in
      elim (to_data_frame p (sync entry)) [
        | err x ↦ (err x, e')
        | ok frame ↦ (
          ok (some frame),
          emit (outgoing_broadcast_ready (sync entry) frame)
              (emit (local_copied hash (format content) (byte_len content)) e'),
        )
      ]

  unfoldable pub handle_local_change :
      ClipboardContent → Bool → ℕ → Engine B → Result (Option DataFrame) ClipboardError × Engine B
  unfolding emit
  handle_local_change content is_sensitive now_ms e =
      elim (validate e.policy content is_sensitive) [
        | err x ↦ (err x, emit (rejected x) e)
        | ok _ ↦
            let hash = compute_hash blake3 content in
            if should_suppress e.guard hash
            then (ok none, emit (echo_suppressed hash) e)
            else package_change content is_sensitive now_ms e
      ]

  module _ (io : ClipboardBackend B) where
    -- Step 5: the backend, and the event if it did not fail.
    unfoldable pub apply_remote :
        ClipboardEntry → Engine B → Result (Option ClipboardSyncEvent) ClipboardError × Engine B
    unfolding emit
    apply_remote entry e =
        let event =
          remote_applied entry.metadata.origin entry.metadata.sequence entry.metadata.content_hash
            entry.metadata.kind in
        let e' = record e { backend = (io.set_content entry.content e.backend).1 } in
        elim (io.set_content entry.content e.backend).0 [
          | err x ↦ (err x, e')
          | ok _ ↦ (ok (some event), emit event e')
        ]

    -- Step 4: the echo guard.
    unfoldable pub admit_remote :
        ClipboardEntry → Engine B → Result (Option ClipboardSyncEvent) ClipboardError × Engine B
    unfolding emit
    admit_remote entry e =
        let m = entry.metadata in
        let (guard', fresh) = record_received e.guard m.origin m.sequence m.content_hash in
        let event = echo_suppressed m.content_hash in
        if not fresh
        then (ok (some event), emit event (record e { guard = guard' }))
        else apply_remote entry (record e { guard = guard' })

    unfoldable pub handle_sync :
        ClipboardEntry → Engine B → Result (Option ClipboardSyncEvent) ClipboardError × Engine B
    unfolding emit
    handle_sync entry e =
        if bytes_eq entry.metadata.origin e.local_node_id
        then (ok none, e)
        else elim (validate_integrity blake3 entry) [
          | err x ↦ (err x, emit (rejected x) e)
          | ok _ ↦ elim (validate e.policy entry.content entry.metadata.is_sensitive) [
            | err x ↦ (err x, emit (rejected x) e)
            | ok _ ↦ admit_remote entry e
          ]
        ]

    unfoldable pub handle_clear :
        NodeId → ℕ → Engine B → Result (Option ClipboardSyncEvent) ClipboardError × Engine B
    handle_clear origin sequence e =
        let (guard', fresh) = record_received e.guard origin sequence zero_hash in
        let (done, backend') = io.clear_content e.backend in
        if bytes_eq origin e.local_node_id
        then (ok none, e)
        else if not fresh
        then (ok none, record e { guard = guard' })
        else ((do _ ← done; ok none), record e { guard = guard'; backend = backend' })

    unfoldable pub handle_message :
        ClipboardMessage → Engine B → Result (Option ClipboardSyncEvent) ClipboardError × Engine B
    handle_message (sync entry) e = handle_sync entry e
    handle_message (clear_all origin sequence timestamp_ms) e = handle_clear origin sequence e
    handle_message (ack origin sequence content_hash) e = (ok none, e)

    unfoldable pub handle_incoming_frame :
        DataFrame → Engine B → Result (Option ClipboardSyncEvent) ClipboardError × Engine B
    unfolding handle_message
    handle_incoming_frame frame e = elim (from_data_frame p frame) [
      | err x ↦ (err x, e)
      | ok message ↦ handle_message message e
    ]
