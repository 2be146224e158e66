-- ===== src/Clipboard/Engine/Echo.antt =====
-- The way of a copy from one node to another (engine.rs).
use bridgeos.Prelude.{
  Option-cases, length, Bytes, bytes_eq_refl, member-insert_member, ℕ, ◌+◌, ◌%◌, ◌^◌, ◌<◌, ◌≡◌,
  refl, sym, ap, ◌∙◌, subst, ◌≢◌, inl, inr, Bool, true, false, Option, none, some, List, arith,
  bytes_key,
}
use bridgeos.Prelude.Result.{Result, ok}
use bridgeos.Core.{NodeId}
use bridgeos.Protocol.Frame.{DataFrame}
use bridgeos.Protocol.Codec.{Postcard, RoundTrips}
use bridgeos.Clipboard.Content.{
  ClipboardError, ClipboardContent, format, ClipboardEntry, ClipboardMessage, sync, compute_hash,
  new_entry, to_data_frame, from_data_frame,
}
use bridgeos.Clipboard.Policy.{validate}
use bridgeos.Clipboard.Guard.{
  EchoGuard, should_suppress, make_room, push_hash, record_sent, record_received, last_sequence,
}
use bridgeos.Clipboard.Guard.Freshness.{record_received_iff}
use bridgeos.Clipboard.Guard.Invariant.{
  IsValid, GuardCall, sent, received, after, run, not-turned_away, numbered, received_cases,
}
use bridgeos.Clipboard.Engine.{
  ClipboardSyncEvent, remote_applied, echo_suppressed, Engine, emit, package_change,
  handle_local_change, apply_remote, handle_sync, handle_incoming_frame,
}
use bridgeos.Clipboard.Backend.{ClipboardBackend}
use bridgeos.Clipboard.Guard.Window.{Records, should_suppress-run}
use bridgeos.Clipboard.Engine.Calls.{EngineCall, engine_run, engine_run-GuardRun}
use bridgeos.Clipboard.Engine.Applied.{handle_sync-admissible}

-- A hash that was just recorded is known.
should_suppress-push_hash : (g : EchoGuard) (h : Bytes) → should_suppress (push_hash g h) h ≡ true
unfolding should_suppress push_hash
should_suppress-push_hash g h =
    ground (arith, member-insert_member h h (make_room g).seen_hashes, bytes_eq_refl h)

pub should_suppress-record_received :
    (g : EchoGuard) (o : NodeId) (s : ℕ) (h : Bytes)
    → (record_received g o s h).1 ≡ true
    → should_suppress (record_received g o s h).0 h ≡ true
should_suppress-record_received g o s h accepted = elim (received_cases g o s h) [
  | inl turned_away ↦ absurd (not-turned_away turned_away accepted)
  | inr (_, _, recorded) ↦
      subst (λ r. should_suppress r.0 h ≡ true) (sym recorded)
        (should_suppress-push_hash (numbered g o s) h)
]

from_data_frame-to_data_frame :
    (p : Postcard ClipboardMessage) (frame : DataFrame) (m : ClipboardMessage)
    → RoundTrips p
    → to_data_frame p m ≡ ok frame
    → from_data_frame p frame ≡ ok m
unfolding to_data_frame from_data_frame
from_data_frame-to_data_frame p frame m law h = elim (Option-cases (p.to_allocvec m)) [
  | inl refused ↦ ground (arith, refused, h)
  | inr (b, wrote) ↦ ground (arith, wrote, h, law.read_back m b wrote)
]

module _ (blake3 : Bytes → Bytes) (p : Postcard ClipboardMessage) {B : Type 0} where
  -- A local change whose hash is known is not sent.
  handle_local_change-known :
      (c : ClipboardContent) (b : Bool) (now_ms : ℕ) (e : Engine B)
      → validate e.policy c b ≡ ok tt
      → should_suppress e.guard (compute_hash blake3 c) ≡ true
      → handle_local_change blake3 p c b now_ms e
        ≡ (ok none, emit (echo_suppressed (compute_hash blake3 c)) e)
  unfolding handle_local_change
  handle_local_change-known c b now_ms e permitted known =
      rw (permitted, handle_local_change) (rw (known))

  -- What a sent local change consisted of.
  pub Sent : ClipboardContent → Bool → ℕ → Engine B → DataFrame → Engine B → Type 0
  Sent c b now_ms e frame e' =
      (validate e.policy c b ≡ ok tt)
      × (should_suppress e.guard (compute_hash blake3 c) ≡ false)
      × (to_data_frame p (sync (new_entry blake3 e.local_node_id e.sequence c b now_ms)) ≡ ok frame)
      × (e'.guard ≡ record_sent e.guard (compute_hash blake3 c))
      × (e'.sequence ≡ (e.sequence + 1) % 2 ^ 64)
      × (e'.policy ≡ e.policy)

  handle_local_change-Sent :
      (c : ClipboardContent) (b : Bool) (now_ms : ℕ) (e : Engine B) (frame : DataFrame)
      → (handle_local_change blake3 p c b now_ms e).0 ≡ ok (some frame)
      → Sent c b now_ms e frame (handle_local_change blake3 p c b now_ms e).1
  unfolding handle_local_change package_change Sent
  handle_local_change-Sent c b now_ms e frame h = ground arith

  module _ (io : ClipboardBackend B) where
    -- The entry that the engine makes of a copied content.
    abbrev pub copied : ClipboardContent → ℕ → Engine B → ClipboardEntry
    copied c now_ms a = new_entry blake3 a.local_node_id a.sequence c false now_ms

    -- The state of the receiver once the backend has taken the content.
    abbrev pub received_copy : ClipboardContent → ℕ → Engine B → Engine B → Engine B
    unfolding emit
    received_copy c now_ms a b =
        emit (remote_applied a.local_node_id a.sequence (compute_hash blake3 c) (format c))
          (record b {
            guard = (record_received b.guard a.local_node_id a.sequence (compute_hash blake3 c)).0;
            backend = (io.set_content c b.backend).1;
          })

    -- The receiver is another node that permits the content and has neither its hash nor a later
    -- number of the sender, and its backend takes the content.
    pub record Accepts (c : ClipboardContent) (a b : Engine B) : Type 0 where
      pub other_node : a.local_node_id ≢ b.local_node_id
      pub permits : validate b.policy c false ≡ ok tt
      pub unknown_hash : should_suppress b.guard (compute_hash blake3 c) ≡ false
      pub newer : (n : ℕ) → last_sequence b.guard a.local_node_id ≡ some n → n < a.sequence
      pub backend_takes : (io.set_content c b.backend).0 ≡ ok tt

    fresh_there :
        (c : ClipboardContent) (a b : Engine B)
        → Accepts c a b
        → (record_received b.guard a.local_node_id a.sequence (compute_hash blake3 c)).1 ≡ true
    fresh_there c a b ready =
        (record_received_iff b.guard a.local_node_id a.sequence (compute_hash blake3 c)).1
          (ready.unknown_hash, ready.newer)

    handle_sync-copied :
        (c : ClipboardContent) (now_ms : ℕ) (a b : Engine B)
        → Accepts c a b
        → handle_sync blake3 p io (copied c now_ms a) b ≡ (
          ok (some (remote_applied a.local_node_id a.sequence (compute_hash blake3 c) (format c))),
          received_copy c now_ms a b,
        )
    unfolding apply_remote new_entry emit
    handle_sync-copied c now_ms a b ready =
        handle_sync-admissible blake3 p io (copied c now_ms a) b (record {
          foreign = ready.other_node;
          intact = record { hash = refl; size = refl };
          permitted = ready.permits;
          fresh = fresh_there c a b ready;
        })
        ∙ rw (ready.backend_takes, apply_remote)

    handle_incoming_frame-copied :
        (c : ClipboardContent) (now_ms : ℕ) (a b : Engine B) (frame : DataFrame)
        → RoundTrips p
        → to_data_frame p (sync (copied c now_ms a)) ≡ ok frame
        → Accepts c a b
        → handle_incoming_frame blake3 p io frame b ≡ (
          ok (some (remote_applied a.local_node_id a.sequence (compute_hash blake3 c) (format c))),
          received_copy c now_ms a b,
        )
    unfolding handle_incoming_frame emit
    handle_incoming_frame-copied c now_ms a b frame law wrote ready =
        rw
          (
            from_data_frame-to_data_frame p frame (sync (copied c now_ms a)) law wrote,
            handle_incoming_frame,
          )
          (handle_sync-copied c now_ms a b ready)

    -- A content whose hash a call has put into the guard is not sent after fewer calls of the engine
    -- than the guard has room for.
    handle_local_change-remembered :
        (c : ClipboardContent) (later : ℕ) (e e' : Engine B) (call : GuardCall)
        → (calls : List EngineCall) → IsValid e.guard
        → Records e.guard call (compute_hash blake3 c)
        → e'.guard ≡ after e.guard call
        → validate e'.policy c false ≡ ok tt
        → length calls < e.guard.capacity
        → (handle_local_change blake3 p c false later (engine_run blake3 p io calls e')).0 ≡ ok none
    handle_local_change-remembered c later e e' call calls v r recorded permitted few =
        let ran = engine_run-GuardRun blake3 p io calls e' in
        let now = engine_run blake3 p io calls e' in
        ap (λ (q : Result (Option DataFrame) ClipboardError × Engine B). q.0)
          (handle_local_change-known c false later now
            (ap (λ policy. validate policy c false) ran.same_policy ∙ permitted)
            (ap (λ g. should_suppress g (compute_hash blake3 c))
                (ran.same_guard ∙ ap (λ g. run g ran.calls) recorded)
              ∙ should_suppress-run e.guard call (compute_hash blake3 c) ran.calls v r ran.remember
                  (omega (arith, ran.few, few))))

    -- Let one engine send a copied content, not marked sensitive, as a frame to another node, which
    -- permits it, knows neither its hash nor a later number of the sender, and has a backend that takes
    -- it. Then the second engine hands the content to its backend and reports it. On either node, whose
    -- guard is valid, the same content, seen again by the clipboard monitor, is not sent, so the copy
    -- does not come back, as long as the node has made fewer further calls, for local changes and
    -- incoming frames, than its echo guard has room for.
    pub remote_copy_no_echo :
        (c : ClipboardContent) (now_ms later : ℕ) (a b : Engine B) (frame : DataFrame)
        → (calls_a calls_b : List EngineCall) → RoundTrips p
        → IsValid a.guard
        → IsValid b.guard
        → (handle_local_change blake3 p c false now_ms a).0 ≡ ok (some frame)
        → Accepts c a b
        → length calls_a < a.guard.capacity
        → length calls_b < b.guard.capacity
        → let a' = (handle_local_change blake3 p c false now_ms a).1 in
          let (result, b') = handle_incoming_frame blake3 p io frame b in
          (result
            ≡ ok (
                some
                  (remote_applied a.local_node_id a.sequence (compute_hash blake3 c) (format c))))
          × (b'.backend ≡ (io.set_content c b.backend).1)
          × ((handle_local_change blake3 p c false later (engine_run blake3 p io calls_b b')).0
              ≡ ok none)
          × ((handle_local_change blake3 p c false later (engine_run blake3 p io calls_a a')).0
              ≡ ok none)
    unfolding Sent emit record_sent after
    remote_copy_no_echo c now_ms later a b frame calls_a calls_b law va vb h ready few_a few_b =
        let dispatched = handle_local_change-Sent c false now_ms a frame h in
        let got = handle_incoming_frame-copied c now_ms a b frame law dispatched.2 ready in
        let hash = compute_hash blake3 c in
        (
          ap (λ (r : Result (Option ClipboardSyncEvent) ClipboardError × Engine B). r.0) got,
          ap (λ (r : Result (Option ClipboardSyncEvent) ClipboardError × Engine B). r.1.backend)
              got,
          handle_local_change-remembered c later b (handle_incoming_frame blake3 p io frame b).1
              (received a.local_node_id a.sequence hash) calls_b vb (refl, fresh_there c a b ready)
              (ap (λ (r : Result (Option ClipboardSyncEvent) ClipboardError × Engine B). r.1.guard)
                got)
              (ap
                  (λ (r : Result (Option ClipboardSyncEvent) ClipboardError × Engine B).
                    validate r.1.policy c false)
                  got
                ∙ ready.permits)
              few_b,
          handle_local_change-remembered c later a (handle_local_change blake3 p c false now_ms a).1
              (sent hash) calls_a va (refl, dispatched.1) dispatched.3
              (rw dispatched.5 dispatched.0) few_a,
        )
