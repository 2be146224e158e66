-- ===== src/Session/Handshake.antt =====
-- `server_handshake` and `client_handshake` of crates/bridge-session/src/session.rs. The fresh nonce
-- and the time are arguments.
pub mod Authentication
pub mod Agreement
use bridgeos.Prelude.{Bytes, Str, ℕ, true, false, not, Option}
use bridgeos.Prelude.Exec.{Exec, ◌>>=◌, ◌>>◌, raise, lift, gets, reject_if}
use bridgeos.Prelude.Result.{Result, ok, err, map_err}
use bridgeos.Core.{current, NodeId, DeviceType, unknown, all, intersect}
use bridgeos.Protocol.Frame.{
  ClientHello, ServerHello, AuthResponse, AuthResult, auth_ok, auth_failed, client_hello,
  server_hello, auth_response, auth_result, auth_failure, disconnect, Frame, handshake, control,
}
use bridgeos.Transport.{Framed}
use bridgeos.Identity.Keys.{
  Crypto, IdentityError, key_mismatch, peer_revoked, PublicKey, key_node_id, from_bytes,
  sign_handshake_challenge, verify_handshake_challenge,
}
use bridgeos.Identity.Trust.{is_trusted, update_last_seen}
use bridgeos.Clipboard.Engine.{Engine}
use bridgeos.Session.{
  SessionState, authenticated_untrusted, session_trusted, SessionError, bad_protocol,
  rejected_signature, bad_identity, session_key_mismatch, session_peer_revoked, ActiveSession, Link,
  recv, send, try_send,
}

unfoldable pub as_client_hello : Frame → Result ClientHello SessionError
as_client_hello (handshake (client_hello h)) = ok h
as_client_hello _ = err bad_protocol

unfoldable pub as_server_hello : Frame → Result ServerHello SessionError
as_server_hello (handshake (server_hello h)) = ok h
as_server_hello _ = err bad_protocol

unfoldable pub as_auth_response : Frame → Result AuthResponse SessionError
as_auth_response (handshake (auth_response r)) = ok r
as_auth_response _ = err bad_protocol

unfoldable pub as_auth_result : Frame → Result AuthResult SessionError
as_auth_result (handshake (auth_result r)) = ok r
as_auth_result _ = err bad_protocol

module _ (x : Crypto) {T : Type 0} (io : Framed T) where
  -- The error branches of the `match` on the store's verdict.
  unfoldable pub reject_peer : IdentityError → Exec (Link T) SessionError SessionState
  unfolding try_send
  reject_peer (key_mismatch n expected presented) = do
    try_send io (control (disconnect auth_failure))
    raise (session_key_mismatch n expected presented)
  reject_peer (peer_revoked n) = do
    try_send io (control (disconnect auth_failure))
    raise (session_peer_revoked n)
  reject_peer e = raise (bad_identity e)

  -- The `match trust_store.is_trusted(…)` with which both handshakes end.
  unfoldable pub consult : NodeId → PublicKey → ℕ → Exec (Link T) SessionError SessionState
  unfolding reject_peer
  consult n key now l = elim (is_trusted x n key l.trust_store) [
    | ok true ↦
        (ok session_trusted, record l { trust_store = (update_last_seen x n now l.trust_store).1 })
    | ok false ↦ (ok authenticated_untrusted, l)
    | err e ↦ reject_peer e l
  ]

  -- 5 and 6: the verdict on the signature, and its answer
  unfoldable pub check_signature :
      PublicKey → Bytes → Bytes → AuthResponse → Exec (Link T) SessionError (Unit {0})
  unfolding send try_send verify_handshake_challenge
  check_signature key client_nonce server_nonce response =
      elim (verify_handshake_challenge x key client_nonce server_nonce response.signature) [
        | err _ ↦ (do try_send io (handshake (auth_result auth_failed)); raise rejected_signature)
        | ok _ ↦ send io (handshake (auth_result auth_ok))
      ]

  module _ {B : Type 0} (secret : Bytes) (name : Str) (device : DeviceType)
      (engine : Option (Engine B)) (dir : Option Str) (nonce : Bytes) (now : ℕ) where
    unfoldable pub server_handshake : Exec (Link T) SessionError (ActiveSession T B)
    unfolding recv send as_client_hello as_auth_response from_bytes check_signature consult
    server_handshake = do
      hello_frame ← recv io
      hello ← lift (as_client_hello hello_frame)
      key ← lift (map_err (λ _. rejected_signature) (from_bytes x hello.node_id))
      send io (
          handshake (
            server_hello (record {
              agreed_version = current;
              node_id = key_node_id x secret;
              device_name = name;
              server_nonce = nonce;
              negotiated_capabilities = intersect hello.capabilities all;
            })))
      auth_frame ← recv io
      response ← lift (as_auth_response auth_frame)
      check_signature key hello.client_nonce nonce response
      initial_state ← consult hello.node_id key now
      gets (λ l. record {
        local_identity = secret;
        local_name = name;
        local_device_type = device;
        remote_node_id = hello.node_id;
        remote_pubkey = key;
        remote_name = hello.device_name;
        remote_device_type = unknown;
        state = initial_state;
        trust_store = l.trust_store;
        framed = l.framed;
        clipboard_engine = engine;
        receive_dir = dir;
      })

    unfoldable pub client_handshake : Exec (Link T) SessionError (ActiveSession T B)
    unfolding recv send as_server_hello as_auth_result from_bytes consult
    client_handshake = do
      send io (
          handshake (
            client_hello (record {
              version = current;
              node_id = key_node_id x secret;
              device_name = name;
              client_nonce = nonce;
              capabilities = all;
            })))
      hello_frame ← recv io
      hello ← lift (as_server_hello hello_frame)
      key ← lift (map_err (λ _. rejected_signature) (from_bytes x hello.node_id))
      send io (
          handshake (
            auth_response
              (record { signature = sign_handshake_challenge x secret nonce hello.server_nonce })))
      result_frame ← recv io
      result ← lift (as_auth_result result_frame)
      reject_if (not result.success) rejected_signature
      initial_state ← consult hello.node_id key now
      gets (λ l. record {
        local_identity = secret;
        local_name = name;
        local_device_type = unknown;
        remote_node_id = hello.node_id;
        remote_pubkey = key;
        remote_name = hello.device_name;
        remote_device_type = unknown;
        state = initial_state;
        trust_store = l.trust_store;
        framed = l.framed;
        clipboard_engine = engine;
        receive_dir = dir;
      })
