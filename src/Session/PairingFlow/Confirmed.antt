-- ===== src/Session/PairingFlow/Confirmed.antt =====
-- What a pairing over a session (session.rs) has done when it ends.
use bridgeos.Prelude.{Bytes, Str, lit, ℕ, ◌≡◌, refl, sym, ap, ◌∙◌, subst, Bool, true, false, some}
use bridgeos.Prelude.Exec.{Exec, ◌>>◌, pure, lift}
use bridgeos.Prelude.Result.{Result, ok, err, map_err}
use bridgeos.Protocol.Frame.{app, channel_pairing}
use bridgeos.Transport.{Framed}
use bridgeos.Identity.Trust.{trusted, TrustedPeer, save_peer}
use bridgeos.Session.{
  authenticated_untrusted, pairing, session_trusted, state-is_trusted, SessionError,
  pairing_rejected, bad_identity, ActiveSession, Link, send, try_send,
}
use bridgeos.Session.PairingFlow.{
  recv_data_frame, on_link, set_state, send_message, recv_message, decline, conclude, ask, initiate,
  respond, execute_pairing,
}
use bridgeos.Prelude.Outcome.{Outcome, ends_ok, ends_err, continue-Outcome, weaken}
use bridgeos.Protocol.Codec.{Postcard}
use bridgeos.Identity.Keys.{Crypto}
use bridgeos.Identity.Pairing.{
  SasVerification, PairingConfirm, PairingSession, new_initiator, new_responder,
  initiator_receive_response, confirm, finalize,
}
use bridgeos.Identity.Pairing.Ceremony.{Confirms, finalize-succeeds}
use bridgeos.Session.PairingMessage.{
  PairingMessage, request_message, response_message, confirm_message, failed_message, to_data_frame,
  from_data_frame, as_request, as_response, as_confirm,
}
use bridgeos.Session.PairingFlow.Steps.{
  send-store, recv_data_frame-store, untrusted, in_pairing, new_initiator-key,
  initiator_receive_response-sas, new_responder-sas, map_err-err, map_err-ok, save_peer-failed,
}

module _ (x : Crypto) {T B : Type 0} (io : Framed T) (p : Postcard PairingMessage) (fuel : ℕ)
    (confirmer : SasVerification → Str → Bool) (s0 : ActiveSession T B) where
  -- What stays as it was at the start, until a peer is saved.
  record Untouched (s : ActiveSession T B) : Type 0 where
    store : s.trust_store ≡ s0.trust_store
    identity : s.local_identity ≡ s0.local_identity
    name : s.remote_name ≡ s0.remote_name
    closed_channels : state-is_trusted s.state ≡ false

  -- A pairing that fails saves nobody and opens no channel.
  pub record Failed (e : SessionError) (s : ActiveSession T B) : Type 0 where
    pub nobody_saved : s.trust_store ≡ s0.trust_store
    pub not_trusted : state-is_trusted s.state ≡ false

  -- A pairing that succeeds: the user has confirmed the code that is returned, and the peer that is
  -- saved as trusted has signed the commitment of that ceremony.
  pub record Confirmed (sas : SasVerification) (s : ActiveSession T B) : Type 0 where
    pub session : PairingSession
    pub confirmation : PairingConfirm
    pub remote : TrustedPeer
    pub own_key : session.local_key ≡ s0.local_identity
    pub same_code : session.sas ≡ some sas
    pub user_agreed : confirmer sas s0.remote_name ≡ true
    pub signed : Confirms x confirmation session remote
    pub saved : (save_peer x (record remote { trust_state = trusted }) s0.trust_store).0 ≡ ok tt
    pub store :
        s.trust_store ≡ (save_peer x (record remote { trust_state = trusted }) s0.trust_store).1
    pub opened : s.state ≡ session_trusted

  failed : (e : SessionError) (s : ActiveSession T B) → Untouched s → Failed e s
  failed e s u = record { nobody_saved = u.store; not_trusted = u.closed_channels }

  lift-Outcome :
      {A : Type 0} (r : Result A SessionError) (s : ActiveSession T B)
      → Untouched s
      → Outcome (λ a s'. Untouched s' × (r ≡ ok a)) Failed (lift r s)
  lift-Outcome (ok a) s u = ends_ok a s (u, refl)
  lift-Outcome (err e) s u = ends_err e s (failed e s u)

  on_link-Outcome :
      {A : Type 0} (m : Exec (Link T) SessionError A) (s : ActiveSession T B)
      → ((l : Link T) → (m l).1.trust_store ≡ l.trust_store)
      → Untouched s
      → Outcome (λ a s'. Untouched s') Failed (on_link m s)
  on_link-Outcome m s keeps u = record { on_ok = λ a e. after; on_err = λ e h. failed e _ after }
    where
      after : Untouched (on_link m s).1
      after = record {
        store = keeps (record { framed = s.framed; trust_store = s.trust_store }) ∙ u.store;
        identity = u.identity;
        name = u.name;
        closed_channels = u.closed_channels;
      }

  send_message-Outcome :
      (message : PairingMessage) (s : ActiveSession T B)
      → Untouched s
      → Outcome (λ a s'. Untouched s') Failed (send_message x io p fuel message s)
  unfolding send_message
  send_message-Outcome message s u =
      continue-Outcome (lift (to_data_frame p message) s) _ (lift-Outcome _ s u)
        (λ df s1 v. on_link-Outcome (send io (app df)) s1 (send-store io (app df)) v.0)

  recv_message-Outcome :
      (s : ActiveSession T B)
      → Untouched s
      → Outcome (λ a s'. Untouched s') Failed (recv_message x io p fuel s)
  unfolding recv_message
  recv_message-Outcome s u =
      continue-Outcome (on_link (recv_data_frame io fuel channel_pairing) s) _
        (on_link-Outcome (recv_data_frame io fuel channel_pairing) s
          (recv_data_frame-store io fuel channel_pairing) u)
        (λ df s1 v. weaken (λ m s' w. w.0) (lift-Outcome (from_data_frame p df) s1 v))

  decline-Outcome :
      (s : ActiveSession T B) → Untouched s → Outcome Confirmed Failed (decline x io p fuel s)
  unfolding decline try_send
  decline-Outcome s u =
      let refusal = failed_message (lit "Local user rejected pairing") in
      continue-Outcome (lift (to_data_frame p refusal) s) _ (lift-Outcome _ s u) (λ df s1 v.
        ends_err pairing_rejected
          (record (on_link (try_send io (app df)) s1).1 { state = authenticated_untrusted })
          (record { nobody_saved = v.0.store; not_trusted = untrusted }))

  -- The last steps, with a peer that `finalize` has accepted.
  save-Outcome :
      (session : PairingSession) (sas : SasVerification) (c : PairingConfirm) (peer : TrustedPeer)
      (s : ActiveSession T B)
      → session.local_key ≡ s0.local_identity
      → session.sas ≡ some sas
      → confirmer sas s0.remote_name ≡ true
      → (finalize x c session).0 ≡ ok peer
      → Untouched s
      → Outcome Confirmed Failed (
          (do
            on_link (λ l. (
              map_err bad_identity (save_peer x peer l.trust_store).0,
              record l { trust_store = (save_peer x peer l.trust_store).1 },
            ))
            set_state session_trusted
            pure sas)
            s)
  save-Outcome session sas c peer s key code agreed accepted u =
      continue-Outcome (on_link save s) _ saving (λ t s' (stored, done).
        let (remote, good, same) = finalize-succeeds x c session peer accepted in
        ends_ok sas (record s' { state = session_trusted })
          (record {
            session = session;
            confirmation = c;
            remote = remote;
            own_key = key;
            same_code = code;
            user_agreed = agreed;
            signed = good;
            saved = subst (λ q. (save_peer x q s0.trust_store).0 ≡ ok tt) same done;
            store = subst (λ q. s'.trust_store ≡ (save_peer x q s0.trust_store).1) same stored;
            opened = refl;
          }))
    where
      save : Exec (Link T) SessionError (Unit {0})
      save l = (
        map_err bad_identity (save_peer x peer l.trust_store).0,
        record l { trust_store = (save_peer x peer l.trust_store).1 },
      )

      saving :
          Outcome
            (λ t s'.
              (s'.trust_store ≡ (save_peer x peer s0.trust_store).1)
              × ((save_peer x peer s0.trust_store).0 ≡ ok tt))
            Failed
            (on_link save s)
      saving = record {
        on_ok = λ t e. (
          ap (λ r. (save_peer x peer r).1) u.store,
          map_err-ok bad_identity (save_peer x peer s0.trust_store).0 tt
              (ap (λ r. map_err bad_identity (save_peer x peer r).0) (sym u.store) ∙ e),
        );
        on_err = λ e h. record {
          nobody_saved =
              save_peer-failed x peer s.trust_store _
                (map_err-err bad_identity (save_peer x peer s.trust_store).0 e h).1
              ∙ u.store;
          not_trusted = u.closed_channels;
        };
      }

  conclude-Outcome :
      (session : PairingSession) (sas : SasVerification) (s : ActiveSession T B)
      → session.local_key ≡ s0.local_identity
      → session.sas ≡ some sas
      → confirmer sas s0.remote_name ≡ true
      → Untouched s
      → Outcome Confirmed Failed (conclude x io p fuel session sas s)
  unfolding conclude
  conclude-Outcome session sas s key code agreed u =
      continue-Outcome (lift (map_err bad_identity (confirm x session)) s) _ (lift-Outcome _ s u)
        (λ mine s1 v.
          continue-Outcome (send_message x io p fuel (confirm_message mine) s1) _
            (send_message-Outcome (confirm_message mine) s1 v.0)
            (λ t s2 w.
              continue-Outcome (recv_message x io p fuel s2) _ (recv_message-Outcome s2 w)
                (λ message s3 y.
                  continue-Outcome (lift (as_confirm message) s3) _ (lift-Outcome _ s3 y) (λ c s4 z.
                    continue-Outcome (lift (map_err bad_identity (finalize x c session).0) s4) _
                      (lift-Outcome _ s4 z.0)
                      (λ peer s5 f.
                        save-Outcome session sas c peer s5 key code agreed
                          (map_err-ok bad_identity (finalize x c session).0 peer f.1) f.0)))))

  ask-Outcome :
      (session : PairingSession) (sas : SasVerification) (s : ActiveSession T B)
      → session.local_key ≡ s0.local_identity
      → session.sas ≡ some sas
      → Untouched s
      → Outcome Confirmed Failed (ask x io p fuel confirmer session sas s)
  unfolding ask
  ask-Outcome session sas s key code u = answer (confirmer sas s.remote_name) refl
    where
      answer :
          (b : Bool)
          → confirmer sas s.remote_name ≡ b
          → Outcome Confirmed Failed
              (elim b [ true ↦ conclude x io p fuel session sas s | false ↦ decline x io p fuel s ])
      answer true agrees =
          conclude-Outcome session sas s key code (ap (confirmer sas) (sym u.name) ∙ agrees) u
      answer false refuses = decline-Outcome s u

  module _ (nonce : Bytes) (now : ℕ) where
    initiate-Outcome :
        (s : ActiveSession T B)
        → Untouched s
        → Outcome Confirmed Failed (initiate x io p fuel confirmer nonce now s)
    unfolding initiate
    initiate-Outcome s u =
        let start = new_initiator x s.local_identity s.local_name s.local_device_type nonce now in
        continue-Outcome (send_message x io p fuel (request_message start.1) s) _
          (send_message-Outcome (request_message start.1) s u)
          (λ t s1 v.
            continue-Outcome (recv_message x io p fuel s1) _ (recv_message-Outcome s1 v)
              (λ message s2 w.
                continue-Outcome (lift (as_response message) s2) _ (lift-Outcome _ s2 w)
                  (λ resp s3 y.
                    continue-Outcome
                      (lift (map_err bad_identity (initiator_receive_response x resp now start.0).0)
                        s3)
                      _ (lift-Outcome _ s3 y.0)
                      (λ sas s4 z.
                        let (key, code) = initiator_receive_response-sas x resp now start.0 sas (
                          map_err-ok bad_identity (initiator_receive_response x resp now start.0).0
                            sas z.1) in
                        ask-Outcome (initiator_receive_response x resp now start.0).1 sas s4
                          (key
                            ∙ new_initiator-key x s.local_identity s.local_name s.local_device_type
                                nonce now
                            ∙ u.identity)
                          code z.0))))

    respond-Outcome :
        (s : ActiveSession T B)
        → Untouched s
        → Outcome Confirmed Failed (respond x io p fuel confirmer nonce now s)
    unfolding respond
    respond-Outcome s u =
        continue-Outcome (recv_message x io p fuel s) _ (recv_message-Outcome s u) (λ message s1 v.
          continue-Outcome (lift (as_request message) s1) _ (lift-Outcome _ s1 v) (λ req s2 w.
            let made =
              new_responder x s2.local_identity s2.local_name s2.local_device_type nonce now req in
            continue-Outcome (map_err bad_identity made, s2) _
              (lift-Outcome (map_err bad_identity made) s2 w.0)
              (λ start s3 y.
                continue-Outcome (send_message x io p fuel (response_message start.1) s3) _
                  (send_message-Outcome (response_message start.1) s3 y.0)
                  (λ t s4 z.
                    let (key, code) =
                      new_responder-sas x s2.local_identity s2.local_name s2.local_device_type nonce
                        now req start (map_err-ok bad_identity made start y.1) in
                    ask-Outcome start.0 start.2 s4 (key ∙ w.0.identity) code z))))

-- However a pairing over a session ends: if it succeeds, the user has confirmed the code that is
-- returned, the peer that is now saved as trusted has signed the commitment of that ceremony, made
-- with the session's own key, and the session is trusted; if it fails, the store is as it was and
-- the session is not trusted.
pub execute_pairing-Outcome :
    (x : Crypto) {T B : Type 0} (io : Framed T) (p : Postcard PairingMessage) (fuel : ℕ)
    (confirmer : SasVerification → Str → Bool) (nonce : Bytes) (now : ℕ) (is_initiator : Bool)
    (s : ActiveSession T B)
    → Outcome
        (Confirmed x io p fuel confirmer s)
        (Failed x io p fuel confirmer s)
        (execute_pairing x io p fuel confirmer nonce now is_initiator s)
unfolding execute_pairing
execute_pairing-Outcome x io p fuel confirmer nonce now true s =
    initiate-Outcome x io p fuel confirmer s nonce now (record s { state = pairing })
      (record { store = refl; identity = refl; name = refl; closed_channels = in_pairing })
execute_pairing-Outcome x io p fuel confirmer nonce now false s =
    respond-Outcome x io p fuel confirmer s nonce now (record s { state = pairing })
      (record { store = refl; identity = refl; name = refl; closed_channels = in_pairing })
