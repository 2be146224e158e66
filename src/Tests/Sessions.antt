-- ===== src/Tests/Sessions.antt =====
-- A session over a connection with a script.
use bridgeos.Prelude.{
  length, lit, ◌<◌, ◌≡◌, refl, ◌≢◌, true, false, none, some, List, [], ◌∷◌, ◌++◌, arith,
}
use bridgeos.Prelude.Outcome.{Outcome}
use bridgeos.Prelude.Result.{ok, err}
use bridgeos.Core.{unknown}
use bridgeos.Protocol.Frame.{
  ping, DataFrame, Frame, control, app, channel_clipboard, channel_pairing,
}
use bridgeos.Protocol.Codec.{Postcard}
use bridgeos.Transport.{Framed}
use bridgeos.Clipboard.Backend.{MemoryBackend, new_memory, memory_backend}
use bridgeos.Clipboard.Engine.{new_engine}
use bridgeos.Clipboard.Policy.{default_policy}
use bridgeos.Identity.Trust.{empty_store}
use bridgeos.Transfer.{io_error}
use bridgeos.Transfer.Disk.{Files}
use bridgeos.Session.{authenticated_untrusted, state-is_trusted, out_of_fuel, ActiveSession, Link}
use bridgeos.Session.PairingFlow.{recv_data_frame, execute_pairing}
use bridgeos.Session.PairingFlow.Confirmed.{Failed, Confirmed, execute_pairing-Outcome}
use bridgeos.Session.PairingFlow.Waiting.{Drains, recv_data_frame-ends}
use bridgeos.Session.FrameLoop.{Running}
use bridgeos.Session.FrameLoop.Boundary.{Protected, process_frames, process_frames-Protected}
use bridgeos.Tests.Fixtures.{entries, toy_key, toy}

-- The frames that are still to come; what is sent is dropped.
abbrev feed : Framed (List Frame)
feed = record {
  recv_frame = λ s. elim s [ [] ↦ (ok none, []) | f ∷ fs ↦ (ok (some f), fs) ];
  send_frame = λ f s. (ok tt, s);
}

feed-Drains : Drains feed
feed-Drains = record { pending = length; recv_takes = takes; send_adds_none = λ f s. omega arith }
  where
    takes :
        (s : List Frame) (f : Frame)
        → (feed.recv_frame s).0 ≡ ok (some f)
        → length (feed.recv_frame s).1 < length s
    takes [] f h = cc
    takes (g ∷ fs) f h = omega arith

abbrev waiting : Link (List Frame)
waiting = record {
  framed =
      control (ping 7)
      ∷ app (record { channel = channel_clipboard; payload = [] })
      ∷ app (record { channel = channel_pairing; payload = 3 ∷ [] })
      ∷ [];
  trust_store = empty_store;
}

recv_data_frame-ends_example :
    ((recv_data_frame feed 4 channel_pairing waiting).0 ≢ err out_of_fuel)
    × ((df : DataFrame)
        → (recv_data_frame feed 4 channel_pairing waiting).0 ≡ ok df
        → df.channel ≡ channel_pairing)
unfolding feed-Drains
recv_data_frame-ends_example =
    recv_data_frame-ends feed feed-Drains 4 channel_pairing waiting (omega arith)

-- A serializer that refuses everything.
abbrev refusing : {A : Type 0} → Postcard A
refusing = record { to_allocvec = λ a. none; from_bytes = λ b. none }

abbrev stranger : ActiveSession (List Frame) MemoryBackend
stranger = record {
  local_identity = 1 ∷ [];
  local_name = [];
  local_device_type = unknown;
  remote_node_id = toy_key (2 ∷ []);
  remote_pubkey = toy_key (2 ∷ []);
  remote_name = [];
  remote_device_type = unknown;
  state = authenticated_untrusted;
  trust_store = empty_store;
  framed = waiting.framed;
  clipboard_engine = some (new_engine (toy_key (1 ∷ [])) new_memory default_policy);
  receive_dir = some (lit "d");
}

execute_pairing-Outcome_example :
    Outcome
      (Confirmed toy feed refusing 4 (λ sas name. true) stranger)
      (Failed toy feed refusing 4 (λ sas name. true) stranger)
      (execute_pairing toy feed refusing 4 (λ sas name. true) (9 ∷ []) 100 false stranger)
execute_pairing-Outcome_example =
    execute_pairing-Outcome toy feed refusing 4 (λ sas name. true) (9 ∷ []) 100 false stranger

abbrev no_files : Files (Unit {0})
no_files = record {
  create_dir_all = λ d s. (err io_error, s);
  open_part = λ q s. (err io_error, s);
  file_len = λ q s. (err io_error, s);
  set_len = λ q n s. (err io_error, s);
  write_at = λ q n b s. (err io_error, s);
  read_all = λ q s. (err io_error, s);
  rename = λ q r s. (err io_error, s);
  join = λ d n. d ++ n;
}

abbrev running : Running (List Frame) MemoryBackend (Unit {0})
running = record { session = stranger; files = tt }

stranger_untrusted : state-is_trusted stranger.state ≡ false
unfolding state-is_trusted
stranger_untrusted = refl

process_frames-Protected_example :
    Protected running
      (process_frames feed no_files refusing
        (λ b. length b ∷ [])
        entries
        memory_backend
        3
        running).1
process_frames-Protected_example =
    process_frames-Protected feed no_files refusing (λ b. length b ∷ []) entries memory_backend 3
      running stranger_untrusted
