-- ===== src/Identity/Pairing/Ceremony.antt =====
-- What the pairing ceremony (pairing.rs) accepts.
use bridgeos.Prelude.{
  length, Bytes, bytes_eq_iff, ◌≡◌, refl, ap, ◌↔◌, true, Option, none, some, arith,
}
use bridgeos.Prelude.Result.{Result, ok, err}
use bridgeos.Identity.Keys.{Crypto, IdentityError, PublicKey, from_bytes, verify}
use bridgeos.Identity.Trust.{trusted, TrustedPeer}
use bridgeos.Identity.Pairing.{
  SasVerification, PairingConfirm, PairingSession, check_key, compute_confirmation_hash,
  check_confirmation, finalize,
}

module _ (x : Crypto) where
  -- What a confirmation has to be, for a session to accept it from the given peer.
  abbrev pub Confirms : PairingConfirm → PairingSession → TrustedPeer → Type 0
  Confirms c s remote =
      (sas : SasVerification) × (s.sas ≡ some sas)
      × (s.remote_peer ≡ some remote)
      × (c.confirmed ≡ true)
      × (c.node_id ≡ remote.node_id)
      × (length c.signature ≡ 64)
      × (x.verify_strict remote.public_key (compute_confirmation_hash x sas s) c.signature ≡ true)

  check_confirmation_accepts :
      (c : PairingConfirm) (s : PairingSession) (remote : TrustedPeer)
      → Confirms c s remote
      → check_confirmation x c s ≡ ok remote
  unfolding check_confirmation verify
  check_confirmation_accepts c s remote (sas, has_sas, has_remote, agreed, same, size, valid) =
      ground (arith, bytes_eq_iff c.node_id remote.node_id)

  check_confirmation_demands :
      (c : PairingConfirm) (s : PairingSession) (remote : TrustedPeer)
      → check_confirmation x c s ≡ ok remote
      → Confirms c s remote
  unfolding check_confirmation verify
  check_confirmation_demands c s remote e = by_sas s.sas refl
    where
      by_sas : (o : Option SasVerification) → s.sas ≡ o → Confirms c s remote
      by_sas none h = ground arith
      by_sas (some sas) h = by_remote s.remote_peer refl
        where
          by_remote : (o : Option TrustedPeer) → s.remote_peer ≡ o → Confirms c s remote
          by_remote none k = ground arith
          by_remote (some peer) k = (
            sas,
            h,
            ground arith,
            ground arith,
            ground (arith, bytes_eq_iff c.node_id peer.node_id),
            ground arith,
            ground arith,
          )

  pub finalize-succeeds :
      (c : PairingConfirm) (s : PairingSession) (peer : TrustedPeer)
      → (finalize x c s).0 ≡ ok peer
      → (remote : TrustedPeer) × Confirms c s remote
        × (peer ≡ record remote { trust_state = trusted })
  unfolding finalize
  finalize-succeeds c s peer e = by_check (check_confirmation x c s) refl
    where
      by_check :
          (r : Result TrustedPeer IdentityError)
          → check_confirmation x c s ≡ r
          → (remote : TrustedPeer) × Confirms c s remote
            × (peer ≡ record remote { trust_state = trusted })
      by_check (err f) h = ground arith
      by_check (ok found) h = (found, check_confirmation_demands c s found h, ground arith)

  -- `finalize` returns a peer and the session that keeps it, exactly if the confirmation says yes,
  -- names the peer the session has spoken to and carries that peer's signature of this session's
  -- commitment, and the peer is that very one, now trusted.
  pub finalize_iff :
      (c : PairingConfirm) (s : PairingSession) (peer : TrustedPeer)
      → (finalize x c s ≡ (ok peer, record s { remote_peer = some peer })) ↔ (
          (remote : TrustedPeer) × Confirms c s remote
          × (peer ≡ record remote { trust_state = trusted }))
  unfolding finalize
  finalize_iff c s peer = (
    λ e. finalize-succeeds c s peer (ap (λ r. r.0) e),
    λ (remote, good, same).
        rw (check_confirmation_accepts c s remote good, finalize) (rw same refl),
  )

  -- A confirmation that is refused changes nothing.
  finalize-refused :
      (c : PairingConfirm) (s : PairingSession) (e : IdentityError)
      → (finalize x c s).0 ≡ err e
      → (finalize x c s).1 ≡ s
  unfolding finalize
  finalize-refused c s e h = by_check (check_confirmation x c s) refl
    where
      by_check :
          (r : Result TrustedPeer IdentityError)
          → check_confirmation x c s ≡ r
          → (finalize x c s).1 ≡ s
      by_check (err f) k = rw (k, finalize) refl
      by_check (ok found) k = ground arith

  -- A side accepts the other's key exactly if it is a key and is the node id that comes with it.
  check_key_iff :
      (claimed bytes : Bytes) (key : PublicKey)
      → (check_key x claimed bytes ≡ ok key)
        ↔ ((x.is_key bytes ≡ true) × (bytes ≡ claimed) × (key ≡ claimed))
  unfolding check_key from_bytes
  check_key_iff claimed bytes key = (
    λ e. (
      ground arith,
      ground (arith, bytes_eq_iff bytes claimed),
      ground (arith, bytes_eq_iff bytes claimed),
    ),
    λ (valid, same, also). ground (arith, bytes_eq_iff bytes claimed),
  )
