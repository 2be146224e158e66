-- ===== src/Session/Handshake/Agreement.antt =====
-- The two handshakes of session.rs against each other, and a client against an impostor.
use bridgeos.Prelude.{
  Bytes, Str, ℕ, ◌≡◌, refl, Bool, true, false, Option, none, some, List, [], ◌∷◌, ◌++◌,
}
use bridgeos.Prelude.Result.{Result, ok}
use bridgeos.Core.{current, NodeId, DeviceType, unknown, Capabilities, all, intersect, BridgeError}
use bridgeos.Protocol.Frame.{
  ClientHello, ServerHello, AuthResponse, AuthResult, auth_ok, client_hello, server_hello,
  auth_response, auth_result, Frame, handshake,
}
use bridgeos.Transport.{Framed}
use bridgeos.Identity.Keys.{
  Crypto, IsSound, PublicKey, key_node_id, from_bytes, verify, challenge, sign_handshake_challenge,
  verify_handshake_challenge,
}
use bridgeos.Identity.Trust.{TrustStore, is_trusted, update_last_seen}
use bridgeos.Clipboard.Engine.{Engine}
use bridgeos.Session.{
  SessionState, authenticated_untrusted, session_trusted, SessionError, ActiveSession, Link, recv,
  send,
}
use bridgeos.Session.Handshake.{
  as_client_hello, as_server_hello, as_auth_response, as_auth_result, consult, check_signature,
  server_handshake, client_handshake,
}

-- A connection whose other end has already said all it will say.
pub record Script : Type 0 where
  pub incoming : List Frame
  pub outgoing : List Frame

unfoldable pub next_line : List Frame → List Frame → Result (Option Frame) BridgeError × Script
next_line [] out = (ok none, record { incoming = []; outgoing = out })
next_line (f ∷ fs) out = (ok (some f), record { incoming = fs; outgoing = out })

abbrev pub scripted : Framed Script
unfolding next_line
scripted = record {
  recv_frame = λ s. next_line s.incoming s.outgoing;
  send_frame = λ f s. (ok tt, record s { outgoing = s.outgoing ++ f ∷ [] });
}

abbrev pub opened : List Frame → TrustStore → Link Script
opened frames store = record {
  framed = record { incoming = frames; outgoing = [] };
  trust_store = store;
}

module _ (x : Crypto) where
  -- The state in which a verdict without an error lets a session start.
  abbrev pub state_for : Bool → SessionState
  state_for true = session_trusted
  state_for false = authenticated_untrusted

  consult-state_for :
      (n : NodeId) (key : PublicKey) (now : ℕ) (l : Link Script) (b : Bool)
      → is_trusted x n key l.trust_store ≡ ok b
      → ((consult x scripted n key now l).0 ≡ ok (state_for b))
        × ((consult x scripted n key now l).1.framed ≡ l.framed)
  unfolding consult
  consult-state_for n key now l true h = (rw (h, consult) refl, rw (h, consult) refl)
  consult-state_for n key now l false h = (rw (h, consult) refl, rw (h, consult) refl)

  abbrev pub store_after : Bool → NodeId → ℕ → TrustStore → TrustStore
  store_after true n now store = (update_last_seen x n now store).1
  store_after false n now store = store

  module _ {B : Type 0} (secret : Bytes) (name : Str) (device : DeviceType)
      (engine : Option (Engine B)) (dir : Option Str) (nonce : Bytes) (now : ℕ) where
    -- The session with a node, of a given name, for a verdict of the store and the frames sent.
    abbrev pub session_with :
        DeviceType → NodeId → Str → Bool → TrustStore → List Frame → ActiveSession Script B
    session_with own n claimed b store sent_frames = record {
      local_identity = secret;
      local_name = name;
      local_device_type = own;
      remote_node_id = n;
      remote_pubkey = n;
      remote_name = claimed;
      remote_device_type = unknown;
      state = state_for b;
      trust_store = store_after b n now store;
      framed = record { incoming = []; outgoing = sent_frames };
      clipboard_engine = engine;
      receive_dir = dir;
    }

    abbrev pub client_frames : Bytes → List Frame
    client_frames their_nonce =
        handshake (
          client_hello (record {
            version = current;
            node_id = x.verifying_key secret;
            device_name = name;
            client_nonce = nonce;
            capabilities = all;
          }))
        ∷ handshake (
            auth_response
              (record { signature = sign_handshake_challenge x secret nonce their_nonce }))
        ∷ []

    abbrev pub server_frames : Capabilities → List Frame
    server_frames caps =
        handshake (
          server_hello (record {
            agreed_version = current;
            node_id = x.verifying_key secret;
            device_name = name;
            server_nonce = nonce;
            negotiated_capabilities = intersect caps all;
          }))
        ∷ handshake (auth_result auth_ok)
        ∷ []

    client_handshake-answered :
        (hello : ServerHello) (result : AuthResult) (store : TrustStore) (b : Bool)
        → x.is_key hello.node_id ≡ true
        → result.success ≡ true
        → is_trusted x hello.node_id hello.node_id store ≡ ok b
        → (client_handshake x scripted secret name device engine dir nonce now
            (opened (handshake (server_hello hello) ∷ handshake (auth_result result) ∷ []) store)).0
          ≡ ok (
              session_with unknown hello.node_id hello.device_name b store
                (client_frames hello.server_nonce))
    unfolding client_handshake recv send as_server_hello as_auth_result from_bytes consult next_line
        key_node_id
    client_handshake-answered hello result store true valid good trusts =
        rw valid (rw good (rw (trusts, consult) refl))
    client_handshake-answered hello result store false valid good trusts =
        rw valid (rw good (rw (trusts, consult) refl))

    pub server_handshake-answered :
        (hello : ClientHello) (response : AuthResponse) (store : TrustStore) (b : Bool)
        → x.is_key hello.node_id ≡ true
        → verify_handshake_challenge x hello.node_id hello.client_nonce nonce response.signature
          ≡ ok tt
        → is_trusted x hello.node_id hello.node_id store ≡ ok b
        → (server_handshake x scripted secret name device engine dir nonce now (
            opened
              (handshake (client_hello hello) ∷ handshake (auth_response response) ∷ [])
              store)).0
          ≡ ok (
              session_with device hello.node_id hello.device_name b store
                (server_frames hello.capabilities))
    unfolding server_handshake recv send as_client_hello as_auth_response from_bytes consult
        check_signature next_line key_node_id
    server_handshake-answered hello response store true valid signed trusts =
        rw valid (rw (signed, check_signature) (rw (trusts, consult) refl))
    server_handshake-answered hello response store false valid signed trusts =
        rw valid (rw (signed, check_signature) (rw (trusts, consult) refl))

    -- A client believes whoever answers: for every key that its store trusts, an answer that names
    -- that key and reports success makes a trusted session with it, although nothing in the answer
    -- was signed.
    pub client_handshake-unproven :
        (hello : ServerHello) (result : AuthResult) (store : TrustStore)
        → x.is_key hello.node_id ≡ true
        → result.success ≡ true
        → is_trusted x hello.node_id hello.node_id store ≡ ok true
        → (s : ActiveSession Script B) × ((client_handshake x scripted secret name device engine dir
              nonce now
              (opened
                (handshake (server_hello hello) ∷ handshake (auth_result result) ∷ [])
                store)).0
            ≡ ok s)
          × (s.state ≡ session_trusted)
          × (s.remote_node_id ≡ hello.node_id)
    client_handshake-unproven hello result store valid good trusts = (
      session_with unknown hello.node_id hello.device_name true store
          (client_frames hello.server_nonce),
      client_handshake-answered hello result store true valid good trusts,
      refl,
      refl,
    )

  -- What one side of a connection is started with.
  pub record Endpoint (B : Type 0) : Type 0 where
    pub secret : Bytes
    pub name : Str
    pub device : DeviceType
    pub engine : Option (Engine B)
    pub dir : Option Str
    pub fresh_nonce : Bytes
    pub clock : ℕ
    pub store : TrustStore

  abbrev pub run_client :
      {B : Type 0} → Endpoint B → List Frame → Result (ActiveSession Script B) SessionError
  run_client e frames =
      (client_handshake x scripted e.secret e.name e.device e.engine e.dir e.fresh_nonce e.clock
        (opened frames e.store)).0

  abbrev pub run_server :
      {B : Type 0} → Endpoint B → List Frame → Result (ActiveSession Script B) SessionError
  run_server e frames =
      (server_handshake x scripted e.secret e.name e.device e.engine e.dir e.fresh_nonce e.clock
        (opened frames e.store)).0

  -- A client and a server that run the two handshakes against each other both succeed, whatever
  -- their names, nonces and clocks, if neither store reports an error: each session is with the
  -- other's node, and is trusted where its own store trusts the other and only authenticated where
  -- it does not. The frames that each one was given are exactly those that the other one sent.
  pub handshakes_agree :
      {B : Type 0} (sound : IsSound x) (c s : Endpoint B) (bc bs : Bool)
      → is_trusted x (x.verifying_key s.secret) (x.verifying_key s.secret) c.store ≡ ok bc
      → is_trusted x (x.verifying_key c.secret) (x.verifying_key c.secret) s.store ≡ ok bs
      → (to_server to_client : List Frame) × (client server : ActiveSession Script B) × (run_client
            c to_client
          ≡ ok client)
        × (run_server s to_server ≡ ok server)
        × (client.framed ≡ record { incoming = []; outgoing = to_server })
        × (server.framed ≡ record { incoming = []; outgoing = to_client })
        × (client.remote_node_id ≡ x.verifying_key s.secret)
        × (server.remote_node_id ≡ x.verifying_key c.secret)
        × (client.state ≡ state_for bc)
        × (server.state ≡ state_for bs)
  unfolding verify_handshake_challenge verify sign_handshake_challenge
  handshakes_agree sound c s bc bs hc hs = (
    client_frames c.secret c.name c.device c.engine c.dir c.fresh_nonce c.clock s.fresh_nonce,
    server_frames s.secret s.name s.device s.engine s.dir s.fresh_nonce s.clock all,
    _,
    _,
    client_handshake-answered c.secret c.name c.device c.engine c.dir c.fresh_nonce c.clock
        (record {
          agreed_version = current;
          node_id = x.verifying_key s.secret;
          device_name = s.name;
          server_nonce = s.fresh_nonce;
          negotiated_capabilities = intersect all all;
        })
        auth_ok c.store bc (sound.own_key s.secret) refl hc,
    server_handshake-answered s.secret s.name s.device s.engine s.dir s.fresh_nonce s.clock
        (record {
          version = current;
          node_id = x.verifying_key c.secret;
          device_name = c.name;
          client_nonce = c.fresh_nonce;
          capabilities = all;
        })
        (record { signature = sign_handshake_challenge x c.secret c.fresh_nonce s.fresh_nonce })
        s.store bs (sound.own_key c.secret)
        (rw (sound.verifies c.secret (challenge x c.fresh_nonce s.fresh_nonce)) refl) hs,
    refl,
    refl,
    refl,
    refl,
    refl,
    refl,
  )
