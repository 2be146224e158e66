-- ===== src/Clipboard/Engine/Applied.antt =====
-- Which incoming entries reach the local clipboard (engine.rs, `handle_incoming_frame`).
use bridgeos.Prelude.{
  Bool-cases, Bytes, bytes_eq, bytes_eq_iff, ◌≡◌, refl, ap, ◌∙◌, ◌≢◌, ◌↔◌, ◌⊎◌, inl, inr, Bool,
  true, false, Option, some, arith,
}
use bridgeos.Prelude.Result.{Result, ok, err, Result-cases}
use bridgeos.Protocol.Codec.{Postcard}
use bridgeos.Clipboard.Content.{
  ClipboardError, byte_len, ClipboardEntry, ClipboardMessage, sync, clear_all, ack, compute_hash,
  validate_integrity, from_data_frame,
}
use bridgeos.Clipboard.Policy.{validate}
use bridgeos.Clipboard.Guard.{EchoGuard, record_received}
use bridgeos.Clipboard.Backend.{ClipboardBackend}
use bridgeos.Clipboard.Engine.{
  ClipboardSyncEvent, Engine, zero_hash, apply_remote, admit_remote, handle_sync, handle_clear,
  handle_message, handle_incoming_frame,
}
use bridgeos.Protocol.Frame.{DataFrame, channel_clipboard}

-- The content has the hash and the size that its metadata advertise.
pub record IsIntact (blake3 : Bytes → Bytes) (entry : ClipboardEntry) : Type 0 where
  pub hash : compute_hash blake3 entry.content ≡ entry.metadata.content_hash
  pub size : byte_len entry.content ≡ entry.metadata.byte_size

pub validate_integrity_iff :
    (blake3 : Bytes → Bytes) (entry : ClipboardEntry)
    → (validate_integrity blake3 entry ≡ ok tt) ↔ IsIntact blake3 entry
unfolding validate_integrity
validate_integrity_iff blake3 entry =
    let (to, from) = bytes_eq_iff (compute_hash blake3 entry.content) entry.metadata.content_hash in
    (
      λ h. record { hash = ground (arith, to); size = ground arith },
      λ i. ground (arith, from i.hash, i.size),
    )

module _ (blake3 : Bytes → Bytes) (p : Postcard ClipboardMessage) {B : Type 0}
    (io : ClipboardBackend B) where
  -- The guard's verdict on an entry, and the guard that it leaves.
  abbrev pub verdict : ClipboardEntry → Engine B → EchoGuard × Bool
  verdict entry e =
      record_received e.guard entry.metadata.origin entry.metadata.sequence
        entry.metadata.content_hash

  -- What an entry must be to reach the clipboard.
  pub record IsAdmissible (entry : ClipboardEntry) (e : Engine B) : Type 0 where
    pub foreign : entry.metadata.origin ≢ e.local_node_id
    pub intact : IsIntact blake3 entry
    pub permitted : validate e.policy entry.content entry.metadata.is_sensitive ≡ ok tt
    pub fresh : (verdict entry e).1 ≡ true

  -- Either the entry is admissible and goes to the backend, or the backend is left alone.
  pub data SyncOutcome (entry : ClipboardEntry) (e : Engine B)
      (r : Result (Option ClipboardSyncEvent) ClipboardError × Engine B) : Type 0 where
    kept : r.1.backend ≡ e.backend → SyncOutcome entry e r
    passed :
        IsAdmissible entry e
        → r ≡ apply_remote blake3 p io entry (record e { guard = (verdict entry e).0 })
        → SyncOutcome entry e r

  admit_remote_outcome :
      (entry : ClipboardEntry) (e : Engine B)
      → entry.metadata.origin ≢ e.local_node_id
      → IsIntact blake3 entry
      → validate e.policy entry.content entry.metadata.is_sensitive ≡ ok tt
      → SyncOutcome entry e (admit_remote blake3 p io entry e)
  unfolding admit_remote
  admit_remote_outcome entry e foreign intact permitted = elim (Bool-cases (verdict entry e).1) [
    | inl fresh ↦
        passed (record { foreign = foreign; intact = intact; permitted = permitted; fresh = fresh })
          (rw fresh)
    | inr turned_away ↦ kept (rw turned_away)
  ]

  handle_sync_outcome :
      (entry : ClipboardEntry) (e : Engine B)
      → SyncOutcome entry e (handle_sync blake3 p io entry e)
  unfolding handle_sync
  handle_sync_outcome entry e = elim (Bool-cases (bytes_eq entry.metadata.origin e.local_node_id)) [
    | inl own ↦ kept (rw own)
    | inr other ↦ rw other (elim (Result-cases (validate_integrity blake3 entry)) [
      | inr (x, bad) ↦ kept (rw bad)
      | inl whole ↦
          rw whole
            (elim (Result-cases (validate e.policy entry.content entry.metadata.is_sensitive)) [
              | inr (x, blocked) ↦ kept (rw blocked)
              | inl allowed ↦ rw allowed (
                  admit_remote_outcome entry e
                    (λ same.
                      ground (arith, other, bytes_eq_iff entry.metadata.origin e.local_node_id))
                    ((validate_integrity_iff blake3 entry).0 whole) allowed)
            ])
    ])
  ]

  -- The frame is on the clipboard channel and its payload is read as the message.
  abbrev pub Decodes : DataFrame → ClipboardMessage → Type 0
  Decodes frame m = (frame.channel ≡ channel_clipboard) × (p.from_bytes frame.payload ≡ some m)

  from_data_frame_iff :
      (frame : DataFrame) (m : ClipboardMessage)
      → (from_data_frame p frame ≡ ok m) ↔ Decodes frame m
  unfolding from_data_frame
  from_data_frame_iff frame m = (λ h. (ground arith, ground arith), λ d. ground (arith, d.0, d.1))

  -- What one message may do to the clipboard.
  abbrev pub Effect : ClipboardMessage → Engine B → Engine B → Type 0
  Effect (sync entry) e e' =
      IsAdmissible entry e × (e'.backend ≡ (io.set_content entry.content e.backend).1)
  Effect (clear_all origin sequence timestamp_ms) e e' =
      (origin ≢ e.local_node_id)
      × ((record_received e.guard origin sequence zero_hash).1 ≡ true)
      × (e'.backend ≡ (io.clear_content e.backend).1)
  Effect (ack origin sequence content_hash) e e' = ⊥

  backend-apply_remote :
      (entry : ClipboardEntry) (e : Engine B)
      → (apply_remote blake3 p io entry e).1.backend ≡ (io.set_content entry.content e.backend).1
  unfolding apply_remote
  backend-apply_remote entry e = elim (Result-cases (io.set_content entry.content e.backend).0) [
    | inl done ↦ rw (done, apply_remote)
    | inr (x, bad) ↦ rw (bad, apply_remote)
  ]

  handle_message-Effect :
      (m : ClipboardMessage) (e : Engine B)
      → let e' = (handle_message blake3 p io m e).1 in (e'.backend ≡ e.backend) ⊎ Effect m e e'
  unfolding handle_message handle_clear
  handle_message-Effect (sync entry) e = elim (handle_sync_outcome entry e) [
    | kept same ↦ inl same
    | passed admissible result ↦ inr (
      admissible,
      ap (λ (r : Result (Option ClipboardSyncEvent) ClipboardError × Engine B). r.1.backend) result
          ∙ backend-apply_remote entry _,
    )
  ]
  handle_message-Effect (clear_all o s t) e = elim (Bool-cases (bytes_eq o e.local_node_id)) [
    | inl own ↦ inl (rw own)
    | inr other ↦ elim (Bool-cases (record_received e.guard o s zero_hash).1) [
      | inr turned_away ↦ inl (rw (other, turned_away))
      | inl fresh ↦
          inr (
            λ same. ground (arith, other, bytes_eq_iff o e.local_node_id),
            fresh,
            rw (other, fresh),
          )
    ]
  ]
  handle_message-Effect (ack o s h) e = inl refl

  -- An incoming frame leaves the local clipboard alone, or it decodes to a message that may change
  -- it and does so: an entry of another node, intact, permitted by the policy and accepted by the
  -- echo guard, whose content is then given to the backend, or a clear instruction of another node
  -- that the guard accepts.
  pub handle_incoming_frame-Effect :
      (frame : DataFrame) (e : Engine B)
      → let e' = (handle_incoming_frame blake3 p io frame e).1 in
        (e'.backend ≡ e.backend) ⊎ ((m : ClipboardMessage) × Decodes frame m × Effect m e e')
  unfolding handle_incoming_frame
  handle_incoming_frame-Effect frame e = go (from_data_frame p frame) refl
    where
      go :
          (r : Result ClipboardMessage ClipboardError)
          → from_data_frame p frame ≡ r
          → let e' = (handle_incoming_frame blake3 p io frame e).1 in
            (e'.backend ≡ e.backend) ⊎ ((m : ClipboardMessage) × Decodes frame m × Effect m e e')
      go (err x) h = inl (rw (h, handle_incoming_frame))
      go (ok m) h =
          rw (h, handle_incoming_frame)
            (elim (handle_message-Effect m e) [
              | inl same ↦ inl same
              | inr effect ↦ inr (m, (from_data_frame_iff frame m).0 h, effect)
            ])

  -- The other direction: an admissible entry is handed to the backend.
  pub handle_sync-admissible :
      (entry : ClipboardEntry) (e : Engine B)
      → IsAdmissible entry e
      → handle_sync blake3 p io entry e
        ≡ apply_remote blake3 p io entry (record e { guard = (verdict entry e).0 })
  unfolding handle_sync admit_remote
  handle_sync-admissible entry e a =
      let other : bytes_eq entry.metadata.origin e.local_node_id ≡ false =
        ground (arith, bytes_eq_iff entry.metadata.origin e.local_node_id, a.foreign) in
      rw (other, (validate_integrity_iff blake3 entry).1 a.intact, a.permitted, a.fresh)
