-- ===== src/Clipboard/Engine/Calls.antt =====
-- What the calls of the engine (engine.rs) do to its echo guard.
use bridgeos.Prelude.{
  Bool-cases, length, Bytes, bytes_eq, ℕ, ◌≤◌, ◌≡◌, refl, ap, ◌∙◌, ◌⊎◌, inl, inr, Bool, true, false,
  List, [], ◌∷◌, arith,
}
use bridgeos.Prelude.Result.{Result, ok, err, Result-cases}
use bridgeos.Core.{NodeId}
use bridgeos.Protocol.Frame.{DataFrame}
use bridgeos.Protocol.Codec.{Postcard}
use bridgeos.Clipboard.Content.{
  ClipboardError, ClipboardContent, ClipboardEntry, ClipboardMessage, sync, clear_all, ack,
  compute_hash, validate_integrity, from_data_frame,
}
use bridgeos.Clipboard.Policy.{validate}
use bridgeos.Clipboard.Guard.{should_suppress}
use bridgeos.Clipboard.Guard.Invariant.{
  GuardCall, sent, received, after, run, Remembers, AllRemember,
}
use bridgeos.Clipboard.Backend.{ClipboardBackend}
use bridgeos.Clipboard.Engine.Applied.{verdict}
use bridgeos.Clipboard.Engine.{
  Engine, zero_hash, package_change, handle_local_change, apply_remote, admit_remote, handle_sync,
  handle_clear, handle_message, handle_incoming_frame,
}

-- The calls that a client makes of an engine.
pub data EngineCall : Type 0 where
  local_change : ClipboardContent → Bool → ℕ → EngineCall
  incoming : DataFrame → EngineCall

-- The policy stays, and the guard stays or has one more hash recorded.
data OneStep {B : Type 0} (e e' : Engine B) : Type 0 where
  untouched : e'.policy ≡ e.policy → e'.guard ≡ e.guard → OneStep e e'
  recorded :
      (c : GuardCall)
      → Remembers c
      → e'.policy ≡ e.policy
      → e'.guard ≡ after e.guard c
      → OneStep e e'

module _ (blake3 : Bytes → Bytes) (p : Postcard ClipboardMessage) {B : Type 0}
    (io : ClipboardBackend B) where
  unfoldable pub engine_step : EngineCall → Engine B → Engine B
  engine_step (local_change content is_sensitive now_ms) e =
      (handle_local_change blake3 p content is_sensitive now_ms e).1
  engine_step (incoming frame) e = (handle_incoming_frame blake3 p io frame e).1

  unfoldable pub engine_run : List EngineCall → Engine B → Engine B
  unfolding engine_step
  engine_run [] e = e
  engine_run (c ∷ cs) e = engine_run cs (engine_step c e)

  package_change-OneStep :
      (c : ClipboardContent) (b : Bool) (now_ms : ℕ) (e : Engine B)
      → OneStep e (package_change blake3 p c b now_ms e).1
  unfolding package_change after
  package_change-OneStep c b now_ms e =
      recorded (sent (compute_hash blake3 c)) tt (ground arith) (ground arith)

  handle_local_change-OneStep :
      (c : ClipboardContent) (b : Bool) (now_ms : ℕ) (e : Engine B)
      → OneStep e (handle_local_change blake3 p c b now_ms e).1
  unfolding handle_local_change
  handle_local_change-OneStep c b now_ms e = elim (Result-cases (validate e.policy c b)) [
    | inr (x, blocked) ↦ rw (blocked, handle_local_change) (untouched refl refl)
    | inl allowed ↦ elim (Bool-cases (should_suppress e.guard (compute_hash blake3 c))) [
      | inl known ↦ rw (allowed, handle_local_change) (rw known (untouched refl refl))
      | inr fresh ↦
          rw (allowed, handle_local_change) (rw fresh (package_change-OneStep c b now_ms e))
    ]
  ]

  apply_remote-keeps :
      (entry : ClipboardEntry) (e : Engine B)
      → ((apply_remote blake3 p io entry e).1.policy ≡ e.policy)
        × ((apply_remote blake3 p io entry e).1.guard ≡ e.guard)
  unfolding apply_remote
  apply_remote-keeps entry e = (ground arith, ground arith)

  handle_sync-OneStep :
      (entry : ClipboardEntry) (e : Engine B) → OneStep e (handle_sync blake3 p io entry e).1
  unfolding handle_sync admit_remote after
  handle_sync-OneStep entry e = elim (Bool-cases (bytes_eq entry.metadata.origin e.local_node_id)) [
    | inl own ↦ untouched (rw own) (rw own)
    | inr other ↦ rw other (elim (Result-cases (validate_integrity blake3 entry)) [
      | inr (x, bad) ↦ untouched (rw bad) (rw bad)
      | inl whole ↦
          rw whole
            (elim (Result-cases (validate e.policy entry.content entry.metadata.is_sensitive)) [
              | inr (x, blocked) ↦ untouched (rw blocked) (rw blocked)
              | inl allowed ↦ rw allowed (admitted (Bool-cases (verdict blake3 p io entry e).1))
            ])
    ])
  ]
    where
      admitted :
          ((verdict blake3 p io entry e).1 ≡ true) ⊎ ((verdict blake3 p io entry e).1 ≡ false)
          → OneStep e (admit_remote blake3 p io entry e).1
      admitted (inl fresh) =
          recorded
            (received entry.metadata.origin entry.metadata.sequence entry.metadata.content_hash) tt
            (rw fresh (apply_remote-keeps entry _).0) (rw fresh (apply_remote-keeps entry _).1)
      admitted (inr turned_away) =
          recorded
            (received entry.metadata.origin entry.metadata.sequence entry.metadata.content_hash) tt
            (rw turned_away) (rw turned_away)

  handle_clear-OneStep :
      (origin : NodeId) (sequence : ℕ) (e : Engine B)
      → OneStep e (handle_clear blake3 p io origin sequence e).1
  unfolding handle_clear after
  handle_clear-OneStep origin sequence e = elim (Bool-cases (bytes_eq origin e.local_node_id)) [
    | inl own ↦ untouched (rw own) (rw own)
    | inr other ↦ recorded (received origin sequence zero_hash) tt (ground arith) (ground arith)
  ]

  handle_incoming_frame-OneStep :
      (frame : DataFrame) (e : Engine B) → OneStep e (handle_incoming_frame blake3 p io frame e).1
  unfolding handle_incoming_frame handle_message
  handle_incoming_frame-OneStep frame e = go (from_data_frame p frame) refl
    where
      go :
          (r : Result ClipboardMessage ClipboardError)
          → from_data_frame p frame ≡ r
          → OneStep e (handle_incoming_frame blake3 p io frame e).1
      go (err x) h = untouched (rw (h, handle_incoming_frame)) (rw (h, handle_incoming_frame))
      go (ok (sync entry)) h = rw (h, handle_incoming_frame) (handle_sync-OneStep entry e)
      go (ok (clear_all o s t)) h = rw (h, handle_incoming_frame) (handle_clear-OneStep o s e)
      go (ok (ack o s hash)) h =
          untouched (rw (h, handle_incoming_frame)) (rw (h, handle_incoming_frame))

  engine_step-OneStep : (c : EngineCall) (e : Engine B) → OneStep e (engine_step c e)
  unfolding engine_step
  engine_step-OneStep (local_change c b now_ms) e = handle_local_change-OneStep c b now_ms e
  engine_step-OneStep (incoming frame) e = handle_incoming_frame-OneStep frame e

  -- What a run of the engine is for its guard: at most as many calls, none of which clears it.
  pub record GuardRun (n : ℕ) (e e' : Engine B) : Type 0 where
    pub calls : List GuardCall
    pub few : length calls ≤ n
    pub remember : AllRemember calls
    pub same_policy : e'.policy ≡ e.policy
    pub same_guard : e'.guard ≡ run e.guard calls

  pub engine_run-GuardRun :
      (cs : List EngineCall) (e : Engine B) → GuardRun (length cs) e (engine_run cs e)
  unfolding engine_run run
  engine_run-GuardRun [] e = record {
    calls = [];
    few = omega arith;
    remember = tt;
    same_policy = refl;
    same_guard = refl;
  }
  engine_run-GuardRun (c ∷ cs) e =
      let rest = engine_run-GuardRun cs (engine_step c e) in
      elim (engine_step-OneStep c e) [
        | untouched policy guard ↦ record {
          calls = rest.calls;
          few = omega (arith, rest.few);
          remember = rest.remember;
          same_policy = rest.same_policy ∙ policy;
          same_guard = rest.same_guard ∙ ap (λ g. run g rest.calls) guard;
        }
        | recorded call kept policy guard ↦ record {
          calls = call ∷ rest.calls;
          few = omega (arith, rest.few);
          remember = (kept, rest.remember);
          same_policy = rest.same_policy ∙ policy;
          same_guard = rest.same_guard ∙ ap (λ g. run g rest.calls) guard;
        }
      ]
