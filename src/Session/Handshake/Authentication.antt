-- ===== src/Session/Handshake/Authentication.antt =====
-- Who a session is with, once a handshake of session.rs has succeeded.
use bridgeos.Prelude.{
  Bytes, Str, ℕ, ◌≡◌, refl, sym, ap, ◌∙◌, subst, ◌⊎◌, inl, inr, Bool, true, false, Option, none,
  some, arith,
}
use bridgeos.Prelude.Result.{Result, ok, err, map_err}
use bridgeos.Core.{current, NodeId, DeviceType, all, intersect, BridgeError}
use bridgeos.Protocol.Frame.{
  ClientHello, AuthResponse, client_hello, server_hello, auth_response, auth_result, Frame,
  handshake, control, app,
}
use bridgeos.Transport.{Framed}
use bridgeos.Identity.Keys.{
  Crypto, IdentityError, database, pairing_failed, crypto, core, key_mismatch, peer_revoked,
  PublicKey, key_node_id, from_bytes, verify_handshake_challenge,
}
use bridgeos.Identity.Trust.{TrustStore, is_trusted}
use bridgeos.Session.{
  SessionState, authenticated_untrusted, session_trusted, SessionError, rejected_signature,
  ActiveSession, Link, recv, send,
}
use bridgeos.Session.Handshake.{
  as_client_hello, as_auth_response, reject_peer, consult, check_signature, server_handshake,
}
use bridgeos.Clipboard.Engine.{Engine}
use bridgeos.Prelude.Exec.{continue-succeeds}

module _ {T : Type 0} (io : Framed T) where
  recv-trust_store : (l : Link T) → (recv io l).1.trust_store ≡ l.trust_store
  unfolding recv
  recv-trust_store l = by_result (io.recv_frame l.framed).0 refl
    where
      by_result :
          (r : Result (Option Frame) BridgeError)
          → (io.recv_frame l.framed).0 ≡ r
          → (recv io l).1.trust_store ≡ l.trust_store
      by_result (err e) h = rw (h, recv) refl
      by_result (ok none) h = rw (h, recv) refl
      by_result (ok (some f)) h = rw (h, recv) refl

  send-trust_store : (f : Frame) (l : Link T) → (send io f l).1.trust_store ≡ l.trust_store
  unfolding send
  send-trust_store f l = by_result (io.send_frame f l.framed).0 refl
    where
      by_result :
          (r : Result (Unit {0}) BridgeError)
          → (io.send_frame f l.framed).0 ≡ r
          → (send io f l).1.trust_store ≡ l.trust_store
      by_result (err e) h = rw (h, send) refl
      by_result (ok u) h = rw (h, send) refl

as_client_hello_only :
    (f : Frame) (h : ClientHello) → as_client_hello f ≡ ok h → f ≡ handshake (client_hello h)
unfolding as_client_hello
as_client_hello_only (handshake (client_hello g)) h e = ground arith
as_client_hello_only (handshake (server_hello g)) h e = ground arith
as_client_hello_only (handshake (auth_response g)) h e = ground arith
as_client_hello_only (handshake (auth_result g)) h e = ground arith
as_client_hello_only (control c) h e = ground arith
as_client_hello_only (app d) h e = ground arith

as_auth_response_only :
    (f : Frame) (r : AuthResponse) → as_auth_response f ≡ ok r → f ≡ handshake (auth_response r)
unfolding as_auth_response
as_auth_response_only (handshake (client_hello g)) r e = ground arith
as_auth_response_only (handshake (server_hello g)) r e = ground arith
as_auth_response_only (handshake (auth_response g)) r e = ground arith
as_auth_response_only (handshake (auth_result g)) r e = ground arith
as_auth_response_only (control c) r e = ground arith
as_auth_response_only (app d) r e = ground arith

ok_injective {ℓ} : {A E : Type ℓ} {a b : A} → ◌≡◌ {A = Result A E} (ok a) (ok b) → a ≡ b
ok_injective h = cc

module _ (x : Crypto) {T : Type 0} (io : Framed T) where
  -- The two ways in which the store lets a session start.
  abbrev pub Admits : NodeId → PublicKey → TrustStore → SessionState → Type 0
  Admits n key store st =
      ((st ≡ session_trusted) × (is_trusted x n key store ≡ ok true))
      ⊎ ((st ≡ authenticated_untrusted) × (is_trusted x n key store ≡ ok false))

  consult-Admits :
      (n : NodeId) (key : PublicKey) (now : ℕ) (l : Link T) (st : SessionState)
      → (consult x io n key now l).0 ≡ ok st
      → Admits n key l.trust_store st
  unfolding consult reject_peer
  consult-Admits n key now l st h = by_verdict (is_trusted x n key l.trust_store) refl
    where
      by_verdict :
          (r : Result Bool IdentityError)
          → is_trusted x n key l.trust_store ≡ r
          → Admits n key l.trust_store st
      by_verdict (ok true) e = inl (ground arith, e)
      by_verdict (ok false) e = inr (ground arith, e)
      by_verdict (err database) e = ground arith
      by_verdict (err pairing_failed) e = ground arith
      by_verdict (err crypto) e = ground arith
      by_verdict (err (core b)) e = ground arith
      by_verdict (err (key_mismatch a b c)) e = ground arith
      by_verdict (err (peer_revoked m)) e = ground arith

  check_signature-ok :
      (key : PublicKey) (cn sn : Bytes) (r : AuthResponse) (l : Link T)
      → (check_signature x io key cn sn r l).0 ≡ ok tt
      → (verify_handshake_challenge x key cn sn r.signature ≡ ok tt)
        × ((check_signature x io key cn sn r l).1.trust_store ≡ l.trust_store)
  unfolding check_signature
  check_signature-ok key cn sn r l h =
      by_verdict (verify_handshake_challenge x key cn sn r.signature) refl
    where
      by_verdict :
          (v : Result (Unit {0}) BridgeError)
          → verify_handshake_challenge x key cn sn r.signature ≡ v
          → (verify_handshake_challenge x key cn sn r.signature ≡ ok tt)
            × ((check_signature x io key cn sn r l).1.trust_store ≡ l.trust_store)
      by_verdict (err e) k = ground arith
      by_verdict (ok tt) k = (k, rw (k, check_signature) (send-trust_store io _ l))

  from_bytes-ok :
      (b : Bytes) (key : PublicKey)
      → map_err {F = SessionError} (λ _. rejected_signature) (from_bytes x b) ≡ ok key
      → key ≡ b
  unfolding from_bytes
  from_bytes-ok b key h = ground arith

  module _ {B : Type 0} (secret : Bytes) (name : Str) (device : DeviceType)
      (engine : Option (Engine B)) (dir : Option Str) (nonce : Bytes) (now : ℕ) where
    abbrev accepted_key : Bytes → Result PublicKey SessionError
    accepted_key b = map_err (λ _. rejected_signature) (from_bytes x b)

    abbrev pub greeting : ClientHello → Frame
    greeting hello = handshake (
        server_hello (record {
          agreed_version = current;
          node_id = key_node_id x secret;
          device_name = name;
          server_nonce = nonce;
          negotiated_capabilities = intersect hello.capabilities all;
        }))

    -- When the server's handshake succeeds, the session is with the node whose hello came in, and the
    -- answer that came in after the server's hello carries a signature of the two nonces that this
    -- node's key verifies. The session is trusted if the store trusts that node with that key, and
    -- otherwise the store knows nothing against it and the session is authenticated only.
    pub server_handshake-authentic :
        (l : Link T) (s : ActiveSession T B)
        → (server_handshake x io secret name device engine dir nonce now l).0 ≡ ok s
        → (hello : ClientHello) × (response : AuthResponse) × ((recv io l).0
            ≡ ok (handshake (client_hello hello)))
          × ((recv io (send io (greeting hello) (recv io l).1).1).0
              ≡ ok (handshake (auth_response response)))
          × (s.remote_node_id ≡ hello.node_id)
          × (s.remote_pubkey ≡ hello.node_id)
          × (verify_handshake_challenge x hello.node_id hello.client_nonce nonce response.signature
              ≡ ok tt)
          × Admits s.remote_node_id s.remote_pubkey l.trust_store s.state
    unfolding server_handshake
    server_handshake-authentic l s h0 =
        let (f1, r1, h1) = continue-succeeds (recv io l) _ h0 in
        let l1 = (recv io l).1 in
        let (hello, r2, h2) = continue-succeeds (as_client_hello f1, l1) _ h1 in
        let (key, r3, h3) = continue-succeeds (accepted_key hello.node_id, l1) _ h2 in
        let (_, r4, h4) = continue-succeeds (send io (greeting hello) l1) _ h3 in
        let l2 = (send io (greeting hello) l1).1 in
        let (f5, r5, h5) = continue-succeeds (recv io l2) _ h4 in
        let l3 = (recv io l2).1 in
        let (response, r6, h6) = continue-succeeds (as_auth_response f5, l3) _ h5 in
        let (_, r7, h7) =
          continue-succeeds (check_signature x io key hello.client_nonce nonce response l3) _ h6 in
        let l4 = (check_signature x io key hello.client_nonce nonce response l3).1 in
        let (st, r8, h8) = continue-succeeds (consult x io hello.node_id key now l4) _ h7 in
        let same_key : key ≡ hello.node_id = from_bytes-ok hello.node_id key r3 in
        let (signed, kept) = check_signature-ok key hello.client_nonce nonce response l3 r7 in
        let store_kept : l4.trust_store ≡ l.trust_store =
          kept
          ∙ recv-trust_store io l2
          ∙ send-trust_store io (greeting hello) l1
          ∙ recv-trust_store io l in
        let is_s = ok_injective h8 in
        let admitted =
          subst (λ store. Admits hello.node_id key store st) store_kept
            (consult-Admits hello.node_id key now l4 st r8) in
        (
          hello,
          response,
          r1 ∙ ap ok (as_client_hello_only f1 hello r2),
          r5 ∙ ap ok (as_auth_response_only f5 response r6),
          ap (λ t. t.remote_node_id) (sym is_s),
          ap (λ t. t.remote_pubkey) (sym is_s) ∙ same_key,
          ap (λ k. verify_handshake_challenge x k hello.client_nonce nonce response.signature)
                (sym same_key)
              ∙ signed,
          subst (λ t. Admits t.remote_node_id t.remote_pubkey l.trust_store t.state) is_s admitted,
        )
