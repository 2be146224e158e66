-- ===== src/Session/PairingFlow/Steps.antt =====
-- What the single steps of a pairing (session.rs) leave as it was.
use bridgeos.Prelude.{Bytes, Str, ℕ, zero, suc, ◌≡◌, refl, ◌∙◌, false, Option, none, some, arith}
use bridgeos.Prelude.Exec.{Exec, continue, ◌>>◌, pure, raise}
use bridgeos.Prelude.Result.{Result, ok, err, map_err}
use bridgeos.Core.{DeviceType, BridgeError}
use bridgeos.Protocol.Frame.{pong, DataFrame, Frame, control}
use bridgeos.Transport.{Framed}
use bridgeos.Identity.Trust.{TrustedPeer, TrustStore, save_peer}
use bridgeos.Session.{
  authenticated_untrusted, pairing, state-is_trusted, SessionError, closed, Link, recv, send,
  try_send,
}
use bridgeos.Session.PairingFlow.{
  Reaction, take_it, reply_pong, hang_up, skip, react, recv_data_frame,
}
use bridgeos.Identity.Keys.{Crypto, IdentityError, PublicKey}
use bridgeos.Identity.Pairing.{
  SasVerification, PairingRequest, PairingResponse, PairingSession, new_initiator, check_key,
  new_responder, with_response, initiator_receive_response,
}

module _ {T : Type 0} (io : Framed T) where
  recv-store : (l : Link T) → (recv io l).1.trust_store ≡ l.trust_store
  unfolding recv
  recv-store l = by_result (io.recv_frame l.framed).0 refl
    where
      by_result :
          (r : Result (Option Frame) BridgeError)
          → (io.recv_frame l.framed).0 ≡ r
          → (recv io l).1.trust_store ≡ l.trust_store
      by_result (err e) h = rw (h, recv) refl
      by_result (ok none) h = rw (h, recv) refl
      by_result (ok (some frame)) h = rw (h, recv) refl

  pub send-store : (frame : Frame) (l : Link T) → (send io frame l).1.trust_store ≡ l.trust_store
  unfolding send
  send-store frame l = by_result (io.send_frame frame l.framed).0 refl
    where
      by_result :
          (r : Result (Unit {0}) BridgeError)
          → (io.send_frame frame l.framed).0 ≡ r
          → (send io frame l).1.trust_store ≡ l.trust_store
      by_result (err e) h = rw (h, send) refl
      by_result (ok u) h = rw (h, send) refl

  -- A chain keeps the store if its steps do.
  continue-store :
      {A B : Type 0} (t : TrustStore) (r : Result A SessionError × Link T)
      (f : A → Exec (Link T) SessionError B)
      → r.1.trust_store ≡ t
      → ((a : A) (l : Link T) → l.trust_store ≡ t → (f a l).1.trust_store ≡ t)
      → (continue r f).1.trust_store ≡ t
  continue-store t (ok a, l) f h next = next a l h
  continue-store t (err e, l) f h next = h

  pub recv_data_frame-store :
      (fuel channel : ℕ) (l : Link T)
      → (recv_data_frame io fuel channel l).1.trust_store ≡ l.trust_store
  unfolding recv_data_frame try_send
  recv_data_frame-store zero channel l = refl
  recv_data_frame-store (suc fuel) channel l =
      continue-store l.trust_store (recv io l) _ (recv-store l) (λ frame l' h.
        reaction l' h (λ k. recv_data_frame-store fuel channel k) (react channel frame))
    where
      reaction :
          (l' : Link T)
          → l'.trust_store ≡ l.trust_store
          → ((k : Link T) → (recv_data_frame io fuel channel k).1.trust_store ≡ k.trust_store)
          → (r : Reaction)
          → ((elim r as (λ _. Exec (Link T) SessionError DataFrame) [
            | take_it df ↦ pure df
            | reply_pong nonce ↦ (do
              try_send io (control (pong nonce))
              recv_data_frame io fuel channel)
            | hang_up ↦ raise closed
            | skip ↦ recv_data_frame io fuel channel
          ])
              l').1.trust_store
            ≡ l.trust_store
      reaction l' h rest (take_it df) = h
      reaction l' h rest (reply_pong n) = rest _ ∙ h
      reaction l' h rest hang_up = h
      reaction l' h rest skip = rest l' ∙ h

pub untrusted : state-is_trusted authenticated_untrusted ≡ false
unfolding state-is_trusted
untrusted = refl

pub in_pairing : state-is_trusted pairing ≡ false
unfolding state-is_trusted
in_pairing = refl

-- The sessions of both roles, when there is a code to confirm.
pub new_initiator-key :
    (x : Crypto) (key : Bytes) (name : Str) (device : DeviceType) (nonce : Bytes) (now : ℕ)
    → (new_initiator x key name device nonce now).0.local_key ≡ key
unfolding new_initiator
new_initiator-key x key name device nonce now = refl

pub initiator_receive_response-sas :
    (x : Crypto) (r : PairingResponse) (now : ℕ) (s : PairingSession) (sas : SasVerification)
    → (initiator_receive_response x r now s).0 ≡ ok sas
    → ((initiator_receive_response x r now s).1.local_key ≡ s.local_key)
      × ((initiator_receive_response x r now s).1.sas ≡ some sas)
unfolding initiator_receive_response with_response
initiator_receive_response-sas x r now s sas h = by_key (check_key x r.node_id r.public_key) refl
  where
    by_key :
        (k : Result PublicKey IdentityError)
        → check_key x r.node_id r.public_key ≡ k
        → ((initiator_receive_response x r now s).1.local_key ≡ s.local_key)
          × ((initiator_receive_response x r now s).1.sas ≡ some sas)
    by_key (err e) k = ground arith
    by_key (ok key) k = (ground arith, ground arith)

pub new_responder-sas :
    (x : Crypto) (key : Bytes) (name : Str) (device : DeviceType) (nonce : Bytes) (now : ℕ)
    (r : PairingRequest) (start : PairingSession × PairingResponse × SasVerification)
    → new_responder x key name device nonce now r ≡ ok start
    → (start.0.local_key ≡ key) × (start.0.sas ≡ some start.2)
unfolding new_responder
new_responder-sas x key name device nonce now r start h =
    by_key (check_key x r.node_id r.public_key) refl
  where
    by_key :
        (k : Result PublicKey IdentityError)
        → check_key x r.node_id r.public_key ≡ k
        → (start.0.local_key ≡ key) × (start.0.sas ≡ some start.2)
    by_key (err e) k = ground arith
    by_key (ok found) k = (ground arith, ground arith)

pub map_err-err :
    {A E F : Type 0} (f : E → F) (r : Result A E) (e : F)
    → map_err f r ≡ err e
    → (d : E) × (r ≡ err d)
map_err-err f (ok b) e h = cc
map_err-err f (err d) e h = (d, refl)

pub map_err-ok :
    {A E F : Type 0} (f : E → F) (r : Result A E) (a : A) → map_err f r ≡ ok a → r ≡ ok a
map_err-ok f (ok b) a h = cc
map_err-ok f (err e) a h = cc

pub save_peer-failed :
    (x : Crypto) (peer : TrustedPeer) (t : TrustStore) (e : IdentityError)
    → (save_peer x peer t).0 ≡ err e
    → (save_peer x peer t).1 ≡ t
unfolding save_peer
save_peer-failed x peer t e h = ground (arith, h)
