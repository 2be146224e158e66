-- ===== src/Identity/Pairing/Completion.antt =====
-- The ceremony between two honest peers (pairing.rs).
use bridgeos.Prelude.{
  Bytes, bytes_eq_refl, Str, lit, as_bytes, ℕ, ◌≡◌, refl, sym, ap, ◌∙◌, ◌≢◌, true, some, ◌++◌,
  arith,
}
use bridgeos.Prelude.Result.{ok}
use bridgeos.Core.{DeviceType}
use bridgeos.Identity.Keys.{Crypto, IsSound, key_node_id, from_bytes, verify, bytes_le_flip}
use bridgeos.Identity.Trust.{TrustState, trusted, pending, TrustedPeer}
use bridgeos.Identity.Pairing.{
  SasVerification, PairingRequest, PairingResponse, PairingConfirm, PairingSession, derive,
  new_initiator, check_key, new_responder, with_response, initiator_receive_response,
  ordered_nonces, compute_confirmation_hash, confirm, check_confirmation, finalize,
}
use bridgeos.Identity.Pairing.Code.{derive_symmetric}

-- What a peer brings to the ceremony.
pub record Party : Type 0 where
  pub secret : Bytes
  pub name : Str
  pub device : DeviceType
  pub own_nonce : Bytes
  pub clock : ℕ

module _ (x : Crypto) where
  -- What the others know of a party.
  abbrev pub peer_of : Party → ℕ → TrustState → TrustedPeer
  peer_of p now state = record {
    node_id = x.verifying_key p.secret;
    public_key = x.verifying_key p.secret;
    device_name = p.name;
    device_type = p.device;
    first_paired_at = now;
    last_seen_at = now;
    trust_state = state;
  }

  abbrev sas_of : Party → Party → SasVerification
  sas_of p q =
      derive x (x.verifying_key p.secret) (x.verifying_key q.secret) p.own_nonce q.own_nonce

  -- The session of the first party, once it has heard of the second.
  abbrev session_of : Party → Party → PairingSession
  session_of p q = record {
    local_key = p.secret;
    local_name = p.name;
    local_type = p.device;
    local_nonce = p.own_nonce;
    remote_peer = some (peer_of q p.clock pending);
    remote_nonce = some q.own_nonce;
    sas = some (sas_of p q);
  }

  abbrev response_of : Party → PairingResponse
  response_of p = record {
    node_id = x.verifying_key p.secret;
    public_key = x.verifying_key p.secret;
    device_name = p.name;
    device_type = p.device;
    nonce = p.own_nonce;
    timestamp = p.clock;
  }

  abbrev commitment : Party → Party → Bytes
  commitment p q = compute_confirmation_hash x (sas_of p q) (session_of p q)

  abbrev confirm_of : Party → Party → PairingConfirm
  confirm_of p q = record {
    node_id = x.verifying_key p.secret;
    confirmed = true;
    signature = x.sign p.secret (commitment p q);
  }

  abbrev start : Party → PairingSession × PairingRequest
  start p = new_initiator x p.secret p.name p.device p.own_nonce p.clock

  ordered_nonces_symmetric :
      (p q : Party)
      → x.verifying_key p.secret ≢ x.verifying_key q.secret
      → ordered_nonces x (session_of p q) ≡ ordered_nonces x (session_of q p)
  unfolding ordered_nonces key_node_id
  ordered_nonces_symmetric p q d =
      ground (arith, bytes_le_flip (x.verifying_key p.secret) (x.verifying_key q.secret) d)

  commitment_symmetric :
      (p q : Party)
      → x.verifying_key p.secret ≢ x.verifying_key q.secret
      → commitment p q ≡ commitment q p
  unfolding compute_confirmation_hash
  commitment_symmetric p q d =
      ap (λ (sas : SasVerification). hashed sas (ordered_nonces x (session_of p q)))
        (derive_symmetric x (x.verifying_key p.secret) (x.verifying_key q.secret) p.own_nonce
          q.own_nonce d)
      ∙ ap (hashed (sas_of q p)) (ordered_nonces_symmetric p q d)
    where
      hashed : SasVerification → Bytes → Bytes
      hashed sas nonces =
          x.sha256
            (as_bytes (lit "BridgeOS-Pairing-Confirm-v1") ++ (as_bytes sas.formatted_pin ++ nonces))

  module _ (sound : IsSound x) where
    accept_key :
        (p : Party)
        → check_key x (x.verifying_key p.secret) (x.verifying_key p.secret)
          ≡ ok (x.verifying_key p.secret)
    unfolding check_key from_bytes
    accept_key p = ground (arith, sound.own_key p.secret, bytes_eq_refl (x.verifying_key p.secret))

    responds :
        (i r : Party)
        → new_responder x r.secret r.name r.device r.own_nonce r.clock (start i).1
          ≡ ok (session_of r i, response_of r, sas_of r i)
    unfolding new_responder new_initiator key_node_id
    responds i r = rw (accept_key i)

    receives :
        (i r : Party)
        → initiator_receive_response x (response_of r) i.clock (start i).0
          ≡ (ok (sas_of i r), session_of i r)
    unfolding initiator_receive_response new_initiator with_response key_node_id
    receives i r = rw (accept_key r, initiator_receive_response) refl

    confirms : (p q : Party) → confirm x (session_of p q) ≡ ok (confirm_of p q)
    unfolding confirm key_node_id
    confirms p q = refl

    finalizes :
        (p q : Party)
        → x.verifying_key p.secret ≢ x.verifying_key q.secret
        → (finalize x (confirm_of q p) (session_of p q)).0 ≡ ok (peer_of q p.clock trusted)
    unfolding finalize check_confirmation verify
    finalizes p q d = ground (
      arith,
      bytes_eq_refl (x.verifying_key q.secret),
      sound.signature_length q.secret (commitment q p),
      sound.verifies q.secret (commitment q p),
      commitment_symmetric p q d,
    )

    -- Two honest peers with different keys complete the ceremony: the responder accepts the request
    -- and the initiator the response, both show the same verification, both can confirm, and each
    -- finalizes with the other's confirmation and gets the other as a trusted peer, under its own
    -- key, name and device type.
    pub ceremony_completes :
        (i r : Party)
        → x.verifying_key i.secret ≢ x.verifying_key r.secret
        → (si sr : PairingSession) × (response : PairingResponse) × (sas : SasVerification) × (ci
            cr : PairingConfirm)
          × (new_responder x r.secret r.name r.device r.own_nonce r.clock
                (new_initiator x i.secret i.name i.device i.own_nonce i.clock).1
              ≡ ok (sr, response, sas))
          × (initiator_receive_response x response i.clock
                (new_initiator x i.secret i.name i.device i.own_nonce i.clock).0
              ≡ (ok sas, si))
          × (confirm x si ≡ ok ci)
          × (confirm x sr ≡ ok cr)
          × ((finalize x cr si).0 ≡ ok (peer_of r i.clock trusted))
          × ((finalize x ci sr).0 ≡ ok (peer_of i r.clock trusted))
    ceremony_completes i r d = (
      session_of i r,
      session_of r i,
      response_of r,
      sas_of r i,
      confirm_of i r,
      confirm_of r i,
      responds i r,
      receives i r
          ∙ ap (λ sas. (ok sas, session_of i r))
              (derive_symmetric x (x.verifying_key i.secret) (x.verifying_key r.secret) i.own_nonce
                r.own_nonce d),
      confirms i r,
      confirms r i,
      finalizes i r d,
      finalizes r i (λ e. d (sym e)),
    )
