-- ===== src/Tests/Sync.antt =====
-- A letter copied from one node to another, and the guard on the way.
use bridgeos.Prelude.{
  length, Bytes, lit, char_len, str_len, char_bytes, as_bytes, member, lookup, ℕ, ◌<◌, ◌≡◌, refl,
  ◌≢◌, ◌⊎◌, true, false, none, some, List, [], ◌∷◌, ◌++◌, arith, bytes_key,
}
use bridgeos.Prelude.Result.{ok, err}
use bridgeos.Clipboard.Content.{
  backend_error, ClipboardContent, text, html, format, byte_len, ClipboardEntry, ClipboardMessage,
  compute_hash, new_entry, to_data_frame,
}
use bridgeos.Clipboard.Policy.{default_policy, validate_content, validate}
use bridgeos.Clipboard.Guard.{new, should_suppress, is_stale, record_received, last_sequence}
use bridgeos.Clipboard.Guard.Invariant.{
  IsValid, sent, received, cleared, after, run, new-IsValid, run-new-IsValid,
}
use bridgeos.Clipboard.Guard.Window.{should_suppress-run}
use bridgeos.Clipboard.Guard.Freshness.{record_received-replayed}
use bridgeos.Clipboard.Backend.{
  ClipboardBackend, MemoryBackend, new_memory, memory_set, memory_backend,
}
use bridgeos.Clipboard.Engine.{
  remote_applied, echo_suppressed, Engine, zero_hash, new_engine, package_change,
  handle_local_change, handle_sync, handle_clear, handle_incoming_frame,
}
use bridgeos.Clipboard.Engine.Faults.{
  compute_hash-html_marker, handle_clear_twice, refused_entry_not_retried,
}
use bridgeos.Protocol.Frame.{DataFrame, channel_clipboard}
use bridgeos.Clipboard.Engine.Applied.{IsAdmissible, Decodes, Effect, handle_incoming_frame-Effect}
use bridgeos.Clipboard.Engine.Calls.{EngineCall, local_change, incoming, engine_run}
use bridgeos.Clipboard.Engine.Echo.{Accepts, remote_copy_no_echo}
use bridgeos.Tests.Fixtures.{entries, entries-RoundTrips}

abbrev letter : ClipboardContent
letter = text (97 ∷ [])

-- A hash of one byte.
abbrev short_hash : Bytes → Bytes
short_hash b = length b ∷ []

abbrev node_a : Engine MemoryBackend
node_a = new_engine (1 ∷ []) new_memory default_policy

abbrev node_b : Engine MemoryBackend
node_b = new_engine (2 ∷ []) new_memory default_policy

compute_hash-html_marker_example :
    compute_hash short_hash (html ((97 ∷ []) ++ (lit "|PLN:" ++ 98 ∷ [])) none)
    ≡ compute_hash short_hash (html (97 ∷ []) (some (98 ∷ [])))
compute_hash-html_marker_example = compute_hash-html_marker short_hash (97 ∷ []) (98 ∷ [])

run-new-IsValid_example :
    IsValid
      (run (new 1) (sent (5 ∷ []) ∷ received (1 ∷ []) 3 (6 ∷ []) ∷ cleared ∷ sent (5 ∷ []) ∷ []))
run-new-IsValid_example =
    run-new-IsValid 1 (sent (5 ∷ []) ∷ received (1 ∷ []) 3 (6 ∷ []) ∷ cleared ∷ sent (5 ∷ []) ∷ [])

unknown_five : should_suppress (new 4) (5 ∷ []) ≡ false
unfolding should_suppress new member
unknown_five = refl

five_calls : 2 < (new 4).capacity
unfolding new
five_calls = omega arith

should_suppress-run_example :
    should_suppress
      (run (after (new 4) (sent (5 ∷ []))) (sent (6 ∷ []) ∷ received (1 ∷ []) 3 (7 ∷ []) ∷ []))
      (5 ∷ [])
    ≡ true
should_suppress-run_example =
    should_suppress-run (new 4) (sent (5 ∷ [])) (5 ∷ [])
      (sent (6 ∷ []) ∷ received (1 ∷ []) 3 (7 ∷ []) ∷ []) (new-IsValid 4) (refl, unknown_five)
      (tt, (tt, tt)) five_calls

accepts_first : (record_received (new 4) (1 ∷ []) 3 (7 ∷ [])).1 ≡ true
unfolding record_received new should_suppress member is_stale lookup
accepts_first = refl

record_received-replayed_example :
    record_received
      (run (record_received (new 4) (1 ∷ []) 3 (7 ∷ [])).0 (sent (6 ∷ []) ∷ []))
      (1 ∷ [])
      2
      (8 ∷ [])
    ≡ (run (record_received (new 4) (1 ∷ []) 3 (7 ∷ [])).0 (sent (6 ∷ []) ∷ []), false)
record_received-replayed_example =
    record_received-replayed (new 4) (1 ∷ []) 3 2 (7 ∷ []) (8 ∷ []) (sent (6 ∷ []) ∷ []) (tt, tt)
      accepts_first (omega arith)

-- The frame in which the first node sends the letter.
abbrev letter_frame : DataFrame
letter_frame = record { channel = channel_clipboard; payload = 1 ∷ 1 ∷ 10 ∷ 5 ∷ 1 ∷ 97 ∷ [] }

letter_sent :
    (handle_local_change short_hash entries letter false 10 node_a).0 ≡ ok (some letter_frame)
unfolding handle_local_change package_change validate validate_content compute_hash new_entry
    to_data_frame should_suppress new_engine new member byte_len format str_len char_len as_bytes
    char_bytes
letter_sent = refl

letter_permitted : validate default_policy letter false ≡ ok tt
unfolding validate validate_content str_len char_len
letter_permitted = refl

letter_unknown : should_suppress node_b.guard (compute_hash short_hash letter) ≡ false
unfolding should_suppress new_engine new member compute_hash
letter_unknown = refl

no_number : (n : ℕ) → last_sequence node_b.guard node_a.local_node_id ≡ some n → n < node_a.sequence
unfolding last_sequence new_engine new lookup
no_number n e = cc

apart : (a b : ℕ) → a ≢ b → a ∷ [] ≢ b ∷ []
apart a b d e = ground arith

letter_taken : (memory_backend.set_content letter node_b.backend).0 ≡ ok tt
unfolding memory_backend memory_set
letter_taken = refl

letter-Accepts : Accepts short_hash entries memory_backend letter node_a node_b
unfolding new_engine
letter-Accepts = record {
  other_node = apart 1 2 (omega arith);
  permits = letter_permitted;
  unknown_hash = letter_unknown;
  newer = no_number;
  backend_takes = letter_taken;
}

-- What the nodes do before the letter is seen again.
abbrev meanwhile : List EngineCall
meanwhile = local_change (text (98 ∷ [])) false 11 ∷ incoming letter_frame ∷ []

fresh-IsValid : (id : Bytes) → IsValid (new_engine id new_memory default_policy).guard
unfolding new_engine
fresh-IsValid id = new-IsValid 256

two_fit : (id : Bytes) → 2 < (new_engine id new_memory default_policy).guard.capacity
unfolding new_engine new
two_fit id = omega arith

remote_copy_no_echo_example :
    let a' = (handle_local_change short_hash entries letter false 10 node_a).1 in
    let (result, b') =
      handle_incoming_frame short_hash entries memory_backend letter_frame node_b in
    (result
      ≡ ok (
          some (
            remote_applied node_a.local_node_id node_a.sequence
              (compute_hash short_hash letter)
              (format letter))))
    × (b'.backend ≡ (memory_backend.set_content letter node_b.backend).1)
    × ((handle_local_change short_hash entries letter false 12
          (engine_run short_hash entries memory_backend meanwhile b')).0
        ≡ ok none)
    × ((handle_local_change short_hash entries letter false 12
          (engine_run short_hash entries memory_backend meanwhile a')).0
        ≡ ok none)
remote_copy_no_echo_example =
    remote_copy_no_echo short_hash entries memory_backend letter 10 12 node_a node_b letter_frame
      meanwhile meanwhile entries-RoundTrips (fresh-IsValid (1 ∷ [])) (fresh-IsValid (2 ∷ []))
      letter_sent letter-Accepts (two_fit (1 ∷ [])) (two_fit (2 ∷ []))

handle_incoming_frame-Effect_example :
    let e' = (handle_incoming_frame short_hash entries memory_backend letter_frame node_b).1 in
    (e'.backend ≡ node_b.backend)
    ⊎ ((m : ClipboardMessage) × Decodes short_hash entries memory_backend letter_frame m
        × Effect short_hash entries memory_backend m node_b e')
handle_incoming_frame-Effect_example =
    handle_incoming_frame-Effect short_hash entries memory_backend letter_frame node_b

abbrev letter_entry : ClipboardEntry
letter_entry = new_entry short_hash (1 ∷ []) 1 letter false 10

letter_fresh : (record_received node_b.guard (1 ∷ []) 1 (compute_hash short_hash letter)).1 ≡ true
unfolding record_received new_engine new should_suppress member is_stale lookup compute_hash
letter_fresh = refl

letter_entry-IsAdmissible :
    {B : Type 0} (io : ClipboardBackend B) (b : B)
    → IsAdmissible short_hash entries io letter_entry (new_engine (2 ∷ []) b default_policy)
unfolding new_engine new_entry
letter_entry-IsAdmissible io b = record {
  foreign = apart 1 2 (omega arith);
  intact = record { hash = refl; size = refl };
  permitted = letter_permitted;
  fresh = letter_fresh;
}

clear_accepted : (record_received node_b.guard (1 ∷ []) 1 zero_hash).1 ≡ true
unfolding record_received new_engine new should_suppress member is_stale lookup
clear_accepted = refl

handle_clear_twice_example :
    let e' = (handle_clear short_hash entries memory_backend (1 ∷ []) 1 node_b).1 in
    handle_clear short_hash entries memory_backend (1 ∷ []) 2 e' ≡ (ok none, e')
unfolding new_engine
handle_clear_twice_example =
    handle_clear_twice short_hash entries memory_backend (1 ∷ []) (1 ∷ []) 1 2 node_b
      (apart 1 2 (omega arith)) clear_accepted

-- A clipboard that is in use by another program.
abbrev busy : ClipboardBackend (Unit {0})
busy = record {
  get_content = λ b. ok none;
  set_content = λ c b. (err backend_error, b);
  clear_content = λ b. (err backend_error, b);
}

abbrev busy_node : Engine (Unit {0})
busy_node = new_engine (2 ∷ []) tt default_policy

refused_entry_not_retried_example :
    let (result, e') = handle_sync short_hash entries busy letter_entry busy_node in
    (result ≡ err backend_error)
    × ((handle_sync short_hash entries busy letter_entry e').0
        ≡ ok (some (echo_suppressed letter_entry.metadata.content_hash)))
    × ((handle_sync short_hash entries busy letter_entry e').1.backend ≡ e'.backend)
unfolding new_engine
refused_entry_not_retried_example =
    refused_entry_not_retried short_hash entries busy letter_entry busy_node backend_error
      (letter_entry-IsAdmissible busy tt) refl
