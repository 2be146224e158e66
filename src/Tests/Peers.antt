-- ===== src/Tests/Peers.antt =====
-- Two peers that pair, and a store that knows one of them.
use bridgeos.Prelude.{
  length, replicate, Bytes, lit, ℕ, ◌<◌, ◌≡◌, refl, ◌≢◌, ◌↔◌, true, false, some, List, [], ◌∷◌,
  arith,
}
use bridgeos.Prelude.Result.{ok}
use bridgeos.Core.{windows, android}
use bridgeos.Identity.Trust.{
  trusted, TrustedPeer, TrustStore, empty_store, save_peer, get_peer, is_trusted, set_trust_state,
  revoke_peer,
}
use bridgeos.Identity.Trust.Records.{IsStorable, is_trusted_iff}
use bridgeos.Identity.Trust.Representation.{nobody, replay, verdict}
use bridgeos.Identity.Trust.Directory.{perform_all-replay}
use bridgeos.Identity.Trust.Revocation.{StoreCall, save, seen, perform_all, is_trusted-revoked}
use bridgeos.Identity.Pairing.{
  SasVerification, PairingResponse, PairingConfirm, PairingSession, derive, new_initiator,
  new_responder, initiator_receive_response, confirm, finalize,
}
use bridgeos.Identity.Pairing.Code.{derive_symmetric, derive_pin}
use bridgeos.Identity.Pairing.Ceremony.{Confirms, finalize_iff}
use bridgeos.Identity.Pairing.Completion.{Party, peer_of, ceremony_completes}
use bridgeos.Tests.Fixtures.{toy_key, toy, toy-IsSound}

abbrev alice : Party
alice = record {
  secret = 1 ∷ [];
  name = lit "alice";
  device = windows;
  own_nonce = 11 ∷ [];
  clock = 100;
}

abbrev bob : Party
bob = record {
  secret = 2 ∷ [];
  name = lit "bob";
  device = android;
  own_nonce = 22 ∷ [];
  clock = 200;
}

heads_differ : (a b : ℕ) (xs ys : Bytes) → a ≢ b → a ∷ xs ≢ b ∷ ys
heads_differ a b xs ys d e = ground arith

keys_differ : toy_key (1 ∷ []) ≢ toy_key (2 ∷ [])
keys_differ = heads_differ 1 2 (replicate 31 0) (replicate 31 0) (omega arith)

derive_symmetric_example :
    derive toy (toy_key (1 ∷ [])) (toy_key (2 ∷ [])) (11 ∷ []) (22 ∷ [])
    ≡ derive toy (toy_key (2 ∷ [])) (toy_key (1 ∷ [])) (22 ∷ []) (11 ∷ [])
derive_symmetric_example =
    derive_symmetric toy (toy_key (1 ∷ [])) (toy_key (2 ∷ [])) (11 ∷ []) (22 ∷ []) keys_differ

derive_pin_example :
    ((derive toy (1 ∷ []) (2 ∷ []) (3 ∷ []) (4 ∷ [])).numeric_pin < 1000000)
    × (length (derive toy (1 ∷ []) (2 ∷ []) (3 ∷ []) (4 ∷ [])).formatted_pin ≡ 7)
    × (((derive toy (1 ∷ []) (2 ∷ []) (3 ∷ []) (4 ∷ [])).formatted_pin
          ≡ (derive toy (5 ∷ []) (6 ∷ []) (7 ∷ []) (8 ∷ [])).formatted_pin)
        ↔ ((derive toy (1 ∷ []) (2 ∷ []) (3 ∷ []) (4 ∷ [])).numeric_pin
            ≡ (derive toy (5 ∷ []) (6 ∷ []) (7 ∷ []) (8 ∷ [])).numeric_pin))
derive_pin_example =
    derive_pin toy (1 ∷ []) (2 ∷ []) (3 ∷ []) (4 ∷ []) (5 ∷ []) (6 ∷ []) (7 ∷ []) (8 ∷ [])

ceremony_completes_example :
    (si sr : PairingSession) × (response : PairingResponse) × (sas : SasVerification) × (ci
      cr : PairingConfirm)
    × (new_responder toy bob.secret bob.name bob.device bob.own_nonce bob.clock
          (new_initiator toy alice.secret alice.name alice.device alice.own_nonce alice.clock).1
        ≡ ok (sr, response, sas))
    × (initiator_receive_response toy response alice.clock
          (new_initiator toy alice.secret alice.name alice.device alice.own_nonce alice.clock).0
        ≡ (ok sas, si))
    × (confirm toy si ≡ ok ci)
    × (confirm toy sr ≡ ok cr)
    × ((finalize toy cr si).0 ≡ ok (peer_of toy bob alice.clock trusted))
    × ((finalize toy ci sr).0 ≡ ok (peer_of toy alice bob.clock trusted))
ceremony_completes_example = ceremony_completes toy toy-IsSound alice bob keys_differ

-- A session that waits for a confirmation, and one that says no.
abbrev waiting : PairingSession
waiting = (new_initiator toy alice.secret alice.name alice.device alice.own_nonce alice.clock).0

abbrev a_refusal : PairingConfirm
a_refusal = record { node_id = toy_key (2 ∷ []); confirmed = false; signature = [] }

abbrev bob_paired : TrustedPeer
bob_paired = peer_of toy bob 200 trusted

finalize_iff_example :
    (finalize toy a_refusal waiting
      ≡ (ok bob_paired, record waiting { remote_peer = some bob_paired }))
    ↔ ((remote : TrustedPeer) × Confirms toy a_refusal waiting remote
        × (bob_paired ≡ record remote { trust_state = trusted }))
finalize_iff_example = finalize_iff toy a_refusal waiting bob_paired

bob-IsStorable : IsStorable toy bob_paired
bob-IsStorable = record {
  id_length = refl;
  key_length = refl;
  key_valid = refl;
  first_fits = omega arith;
  last_fits = omega arith;
}

-- The store that has saved the one peer.
abbrev knows_bob : TrustStore
knows_bob = (save_peer toy bob_paired empty_store).1

is_trusted_iff_example :
    (is_trusted toy (toy_key (2 ∷ [])) (toy_key (2 ∷ [])) knows_bob ≡ ok true) ↔ (
      (peer : TrustedPeer) × (get_peer toy (toy_key (2 ∷ [])) knows_bob ≡ ok (some peer))
      × (peer.public_key ≡ toy_key (2 ∷ []))
      × (peer.trust_state ≡ trusted))
is_trusted_iff_example =
    is_trusted_iff toy toy-IsSound (toy_key (2 ∷ [])) (toy_key (2 ∷ [])) knows_bob

bob_revoked : (revoke_peer toy (toy_key (2 ∷ [])) knows_bob).0 ≡ ok tt
unfolding revoke_peer set_trust_state save_peer
bob_revoked = refl

is_trusted-revoked_example :
    is_trusted toy (toy_key (2 ∷ [])) (toy_key (2 ∷ [])) (
      perform_all toy toy-IsSound
        (seen (toy_key (2 ∷ [])) 300 ∷ save (peer_of toy alice 100 trusted) ∷ [])
        (revoke_peer toy (toy_key (2 ∷ [])) knows_bob).1)
    ≢ ok true
is_trusted-revoked_example =
    is_trusted-revoked toy toy-IsSound (toy_key (2 ∷ [])) (toy_key (2 ∷ [])) knows_bob
      (seen (toy_key (2 ∷ [])) 300 ∷ save (peer_of toy alice 100 trusted) ∷ []) bob_revoked
      (tt, (keys_differ, tt))

-- Bob is saved, seen and saved again.
abbrev three_calls : List StoreCall
three_calls = save bob_paired ∷ seen (toy_key (2 ∷ [])) 300 ∷ save bob_paired ∷ []

perform_all-replay_example :
    (get_peer toy (toy_key (2 ∷ [])) (perform_all toy toy-IsSound three_calls empty_store)
      ≡ ok (replay three_calls nobody (toy_key (2 ∷ []))))
    × (is_trusted toy
          (toy_key (2 ∷ []))
          (toy_key (2 ∷ []))
          (perform_all toy toy-IsSound three_calls empty_store)
        ≡ verdict toy
            (toy_key (2 ∷ []))
            (toy_key (2 ∷ []))
            (replay three_calls nobody (toy_key (2 ∷ []))))
perform_all-replay_example =
    perform_all-replay toy toy-IsSound three_calls (toy_key (2 ∷ [])) (toy_key (2 ∷ []))
      (bob-IsStorable, (omega arith, (bob-IsStorable, tt)))
