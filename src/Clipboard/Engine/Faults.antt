-- ===== src/Clipboard/Engine/Faults.antt =====
-- Behaviour of the clipboard engine (engine.rs, types.rs) that a caller may not expect.
use mathlib.Core.List.{append-nil}
use bridgeos.Prelude.{
  Bytes, bytes_eq, bytes_eq_iff, Str, lit, as_bytes, as_bytes-append, ℕ, ◌≡◌, refl, ap, ◌∙◌, ◌≢◌,
  true, false, none, some, ◌++◌, arith,
}
use bridgeos.Prelude.Result.{ok, err}
use bridgeos.Core.{NodeId}
use bridgeos.Protocol.Codec.{Postcard}
use bridgeos.Clipboard.Content.{
  ClipboardError, html, ClipboardEntry, ClipboardMessage, compute_hash,
}
use bridgeos.Clipboard.Guard.{EchoGuard, should_suppress, record_received}
use bridgeos.Clipboard.Backend.{ClipboardBackend}
use bridgeos.Clipboard.Engine.{
  echo_suppressed, Engine, zero_hash, emit, apply_remote, admit_remote, handle_sync, handle_clear,
}
use bridgeos.Clipboard.Engine.Applied.{
  IsIntact, validate_integrity_iff, verdict, IsAdmissible, handle_sync-admissible,
}
use bridgeos.Clipboard.Engine.Echo.{should_suppress-record_received}
use bridgeos.Clipboard.Policy.{validate}

-- Rich text whose HTML ends in the marker and a text has the hash of the HTML before the marker
-- with that text as its plain form, whatever the hash function.
pub compute_hash-html_marker :
    (blake3 : Bytes → Bytes) (h t : Str)
    → compute_hash blake3 (html (h ++ (lit "|PLN:" ++ t)) none)
      ≡ compute_hash blake3 (html h (some t))
unfolding compute_hash
compute_hash-html_marker blake3 h t =
    ap (λ b. blake3 (as_bytes (lit "HTM:") ++ b))
      (append-nil (as_bytes (h ++ (lit "|PLN:" ++ t)))
        ∙ as_bytes-append h (lit "|PLN:" ++ t)
        ∙ ap (λ b. as_bytes h ++ b) (as_bytes-append (lit "|PLN:") t))

-- A hash that is known turns an entry away.
known_turned_away :
    (g : EchoGuard) (o : NodeId) (s : ℕ) (h : Bytes)
    → should_suppress g h ≡ true
    → record_received g o s h ≡ (g, false)
unfolding record_received
known_turned_away g o s h known = rw known

module _ (blake3 : Bytes → Bytes) (p : Postcard ClipboardMessage) {B : Type 0}
    (io : ClipboardBackend B) where
  guard-handle_clear :
      (o : NodeId) (s : ℕ) (e : Engine B)
      → o ≢ e.local_node_id
      → (handle_clear blake3 p io o s e).1.guard ≡ (record_received e.guard o s zero_hash).0
  unfolding handle_clear
  guard-handle_clear o s e foreign = ground (arith, bytes_eq_iff o e.local_node_id, foreign)

  -- After a clear instruction that the guard accepted, the next clear instruction of any node, with
  -- any number, changes nothing.
  pub handle_clear_twice :
      (o q : NodeId) (s t : ℕ) (e : Engine B)
      → o ≢ e.local_node_id
      → (record_received e.guard o s zero_hash).1 ≡ true
      → let e' = (handle_clear blake3 p io o s e).1 in
        handle_clear blake3 p io q t e' ≡ (ok none, e')
  unfolding handle_clear
  handle_clear_twice o q s t e foreign accepted =
      let e' = (handle_clear blake3 p io o s e).1 in
      let known : should_suppress e'.guard zero_hash ≡ true =
        rw (guard-handle_clear o s e foreign)
          (should_suppress-record_received e.guard o s zero_hash accepted) in
      ground (arith, known_turned_away e'.guard q t zero_hash known)

  handle_sync-known :
      (entry : ClipboardEntry) (e : Engine B)
      → entry.metadata.origin ≢ e.local_node_id
      → IsIntact blake3 entry
      → validate e.policy entry.content entry.metadata.is_sensitive ≡ ok tt
      → should_suppress e.guard entry.metadata.content_hash ≡ true
      → handle_sync blake3 p io entry e ≡ (
        ok (some (echo_suppressed entry.metadata.content_hash)),
        emit (echo_suppressed entry.metadata.content_hash) e,
      )
  unfolding handle_sync admit_remote
  handle_sync-known entry e foreign intact permitted known =
      let other : bytes_eq entry.metadata.origin e.local_node_id ≡ false =
        ground (arith, bytes_eq_iff entry.metadata.origin e.local_node_id, foreign) in
      let m = entry.metadata in
      rw (other, (validate_integrity_iff blake3 entry).1 intact, permitted)
        (rw (known_turned_away e.guard m.origin m.sequence m.content_hash known))

  -- The state after a refusal by the backend.
  abbrev after_refusal : ClipboardEntry → Engine B → Engine B
  after_refusal entry e = record e {
    guard = (verdict blake3 p io entry e).0;
    backend = (io.set_content entry.content e.backend).1;
  }

  handle_sync-refused :
      (entry : ClipboardEntry) (e : Engine B) (x : ClipboardError)
      → IsAdmissible blake3 p io entry e
      → (io.set_content entry.content e.backend).0 ≡ err x
      → handle_sync blake3 p io entry e ≡ (err x, after_refusal entry e)
  unfolding apply_remote
  handle_sync-refused entry e x a refused =
      handle_sync-admissible blake3 p io entry e a ∙ rw (refused, apply_remote)

  -- When the backend refuses an admissible entry, the error is returned but the guard keeps the
  -- entry's hash: the same entry, sent again, is suppressed and the backend is not asked.
  pub refused_entry_not_retried :
      (entry : ClipboardEntry) (e : Engine B) (x : ClipboardError)
      → IsAdmissible blake3 p io entry e
      → (io.set_content entry.content e.backend).0 ≡ err x
      → let (result, e') = handle_sync blake3 p io entry e in
        (result ≡ err x)
        × ((handle_sync blake3 p io entry e').0
            ≡ ok (some (echo_suppressed entry.metadata.content_hash)))
        × ((handle_sync blake3 p io entry e').1.backend ≡ e'.backend)
  unfolding emit
  refused_entry_not_retried entry e x a refused =
      let first = handle_sync-refused entry e x a refused in
      let m = entry.metadata in
      let again =
        handle_sync-known entry (after_refusal entry e) a.foreign a.intact a.permitted
          (should_suppress-record_received e.guard m.origin m.sequence m.content_hash a.fresh) in
      rw first (refl, rw again, rw again)
