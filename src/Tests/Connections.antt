-- ===== src/Tests/Connections.antt =====
-- The handshakes between two nodes.
use bridgeos.Prelude.{
  Bytes, bytes_eq, bytes_eq_refl, lit, is_whitespace, trim_start, trim, to_ascii_lowercase, lookup,
  ◌≡◌, refl, true, false, Option, none, List, [], ◌∷◌, ◌++◌, bytes_key,
}
use bridgeos.Prelude.Result.{ok}
use bridgeos.Core.{current, windows, android}
use bridgeos.Protocol.Frame.{
  ClientHello, ServerHello, AuthResponse, auth_ok, client_hello, server_hello, auth_response,
  auth_result, Frame, handshake,
}
use bridgeos.Clipboard.Backend.{MemoryBackend}
use bridgeos.Clipboard.Engine.{Engine}
use bridgeos.Identity.Keys.{from_bytes, verify, verify_handshake_challenge}
use bridgeos.Identity.Trust.{
  parse_state, Row, TrustStore, empty_store, from_hex, row_to_peer, get_peer, judge, is_trusted,
}
use bridgeos.Session.{session_trusted, ActiveSession, Link, recv, send}
use bridgeos.Session.Handshake.{client_handshake}
use bridgeos.Session.Handshake.Authentication.{Admits, greeting, server_handshake-authentic}
use bridgeos.Session.Handshake.Agreement.{
  Script, scripted, opened, state_for, session_with, server_frames, server_handshake-answered,
  client_handshake-unproven, Endpoint, run_client, run_server, handshakes_agree,
}
use bridgeos.Tests.Fixtures.{toy_key, toy, toy-IsSound}

abbrev client_key : Bytes
client_key = toy_key (1 ∷ [])

abbrev server_key : Bytes
server_key = toy_key (2 ∷ [])

abbrev row_for_key : Bytes → Row
row_for_key key = record {
  public_key = key;
  device_name = [];
  device_type = [];
  first_paired_at = 0;
  last_seen_at = 0;
  trust_state = lit "trusted";
}

-- A store that trusts one key.
abbrev trusts_only : Bytes → TrustStore
trusts_only key = record { rows = (key, row_for_key key) ∷ []; is_broken = false }

abbrev no_engine : Option (Engine MemoryBackend)
no_engine = none

store_trusts_client : is_trusted toy client_key client_key (trusts_only client_key) ≡ ok true
unfolding is_trusted get_peer row_to_peer from_hex from_bytes judge lookup parse_state bytes_eq
    to_ascii_lowercase trim trim_start is_whitespace
store_trusts_client = refl

store_trusts_server : is_trusted toy server_key server_key (trusts_only server_key) ≡ ok true
unfolding is_trusted get_peer row_to_peer from_hex from_bytes judge lookup parse_state bytes_eq
    to_ascii_lowercase trim trim_start is_whitespace
store_trusts_server = refl

nobody_trusted : is_trusted toy server_key server_key empty_store ≡ ok false
unfolding is_trusted get_peer lookup
nobody_trusted = refl

abbrev hello_from_client : ClientHello
hello_from_client = record {
  version = current;
  node_id = client_key;
  device_name = [];
  client_nonce = 5 ∷ [];
  capabilities = record { flags = 3 };
}

abbrev proof_of_client : AuthResponse
proof_of_client = record { signature = client_key ++ client_key }

proof_accepted :
    verify_handshake_challenge toy client_key (5 ∷ []) (6 ∷ []) proof_of_client.signature ≡ ok tt
unfolding verify_handshake_challenge verify
proof_accepted = rw (bytes_eq_refl (client_key ++ client_key)) refl

abbrev line_from_client : Link Script
line_from_client =
    opened
      (handshake (client_hello hello_from_client) ∷ handshake (auth_response proof_of_client) ∷ [])
      (trusts_only client_key)

abbrev served : ActiveSession Script MemoryBackend
served =
    session_with toy (2 ∷ []) [] android no_engine none (6 ∷ []) 50 android client_key [] true
      (trusts_only client_key)
      (server_frames toy {B = MemoryBackend} (2 ∷ []) [] android no_engine none (6 ∷ []) 50
        (record { flags = 3 }))

server_handshake-authentic_example :
    (hello : ClientHello) × (response : AuthResponse) × ((recv scripted line_from_client).0
      ≡ ok (handshake (client_hello hello)))
    × ((recv scripted
          (send scripted
            (greeting toy scripted (2 ∷ []) [] android no_engine none (6 ∷ []) 50 hello)
            (recv scripted line_from_client).1).1).0
        ≡ ok (handshake (auth_response response)))
    × (served.remote_node_id ≡ hello.node_id)
    × (served.remote_pubkey ≡ hello.node_id)
    × (verify_handshake_challenge toy hello.node_id hello.client_nonce (6 ∷ []) response.signature
        ≡ ok tt)
    × Admits toy scripted served.remote_node_id served.remote_pubkey
        (trusts_only client_key)
        served.state
server_handshake-authentic_example =
    server_handshake-authentic toy scripted (2 ∷ []) [] android no_engine none (6 ∷ []) 50
      line_from_client served
      (server_handshake-answered toy (2 ∷ []) [] android no_engine none (6 ∷ []) 50
        hello_from_client proof_of_client (trusts_only client_key) true refl proof_accepted
        store_trusts_client)

abbrev answer_of_nobody : ServerHello
answer_of_nobody = record {
  agreed_version = current;
  node_id = server_key;
  device_name = [];
  server_nonce = [];
  negotiated_capabilities = record { flags = 0 };
}

client_handshake-unproven_example :
    (s : ActiveSession Script MemoryBackend) × ((client_handshake toy scripted
        (1 ∷ [])
        []
        windows
        no_engine
        none
        (5 ∷ [])
        50
        (opened
          (handshake (server_hello answer_of_nobody) ∷ handshake (auth_result auth_ok) ∷ [])
          (trusts_only server_key))).0
      ≡ ok s)
    × (s.state ≡ session_trusted)
    × (s.remote_node_id ≡ server_key)
client_handshake-unproven_example =
    client_handshake-unproven toy (1 ∷ []) [] windows no_engine none (5 ∷ []) 50 answer_of_nobody
      auth_ok (trusts_only server_key) refl refl store_trusts_server

abbrev client_end : Endpoint toy MemoryBackend
client_end = record {
  secret = 1 ∷ [];
  name = lit "a";
  device = windows;
  engine = none;
  dir = none;
  fresh_nonce = 5 ∷ [];
  clock = 50;
  store = empty_store;
}

abbrev server_end : Endpoint toy MemoryBackend
server_end = record {
  secret = 2 ∷ [];
  name = lit "b";
  device = android;
  engine = none;
  dir = none;
  fresh_nonce = 6 ∷ [];
  clock = 60;
  store = trusts_only client_key;
}

handshakes_agree_example :
    (to_server to_client : List Frame) × (client server : ActiveSession Script MemoryBackend)
    × (run_client toy client_end to_client ≡ ok client)
    × (run_server toy server_end to_server ≡ ok server)
    × (client.framed ≡ record { incoming = []; outgoing = to_server })
    × (server.framed ≡ record { incoming = []; outgoing = to_client })
    × (client.remote_node_id ≡ server_key)
    × (server.remote_node_id ≡ client_key)
    × (client.state ≡ state_for toy false)
    × (server.state ≡ state_for toy true)
handshakes_agree_example =
    handshakes_agree toy toy-IsSound client_end server_end false true nobody_trusted
      store_trusts_client
