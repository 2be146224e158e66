-- ===== src/Session/PairingFlow.antt =====
-- `execute_pairing` and `recv_data_frame` of crates/bridge-session/src/session.rs. The user's answer,
-- the fresh nonce and the times are arguments; the loop that waits for a frame runs on fuel.
pub mod Steps
pub mod Confirmed
pub mod Waiting
use bridgeos.Prelude.{◌==◌, if◌then◌else◌, Bytes, Str, lit, ℕ, zero, suc, Bool, true, false}
use bridgeos.Prelude.Exec.{Exec, ◌>>=◌, ◌>>◌, pure, raise, lift}
use bridgeos.Prelude.Result.{ok, map_err}
use bridgeos.Protocol.Frame.{
  ping, pong, disconnect, DataFrame, Frame, control, app, channel_pairing,
}
use bridgeos.Protocol.Codec.{Postcard}
use bridgeos.Transport.{Framed}
use bridgeos.Identity.Keys.{Crypto}
use bridgeos.Identity.Trust.{save_peer}
use bridgeos.Identity.Pairing.{
  SasVerification, PairingSession, new_initiator, new_responder, initiator_receive_response,
  confirm, finalize,
}
use bridgeos.Session.{
  SessionState, authenticated_untrusted, pairing, session_trusted, SessionError, closed,
  pairing_rejected, out_of_fuel, bad_identity, ActiveSession, Link, recv, send, try_send,
}
use bridgeos.Session.PairingMessage.{
  PairingMessage, request_message, response_message, confirm_message, failed_message, to_data_frame,
  from_data_frame, as_request, as_response, as_confirm,
}

-- What `recv_data_frame` does with a frame.
pub data Reaction : Type 0 where
  take_it : DataFrame → Reaction
  reply_pong : ℕ → Reaction
  hang_up skip : Reaction

unfoldable pub react : ℕ → Frame → Reaction
react expected_channel (app df) = if df.channel == expected_channel then take_it df else skip
react expected_channel (control (ping nonce)) = reply_pong nonce
react expected_channel (control (disconnect reason)) = hang_up
react expected_channel _ = skip

module _ {T : Type 0} (io : Framed T) where
  unfoldable pub recv_data_frame : ℕ → ℕ → Exec (Link T) SessionError DataFrame
  unfolding recv try_send
  recv_data_frame zero expected_channel = raise out_of_fuel
  recv_data_frame (suc fuel) expected_channel = do
    frame ← recv io
    elim (react expected_channel frame) [
      | take_it df ↦ pure df
      | reply_pong nonce ↦ (do
        try_send io (control (pong nonce))
        recv_data_frame fuel expected_channel)
      | hang_up ↦ raise closed
      | skip ↦ recv_data_frame fuel expected_channel
    ]

module _ {T B : Type 0} where
  -- A step on the connection and the store of a session.
  abbrev pub on_link :
      {A : Type 0} → Exec (Link T) SessionError A → Exec (ActiveSession T B) SessionError A
  on_link m s =
      let r = m (record { framed = s.framed; trust_store = s.trust_store }) in
      (r.0, record s { framed = r.1.framed; trust_store = r.1.trust_store })

  abbrev pub set_state : SessionState → Exec (ActiveSession T B) SessionError (Unit {0})
  set_state state s = (ok tt, record s { state = state })

module _ (x : Crypto) {T B : Type 0} (io : Framed T) (p : Postcard PairingMessage) (fuel : ℕ) where
  -- `send_frame(…)?` of an encoded message
  unfoldable pub send_message : PairingMessage → Exec (ActiveSession T B) SessionError (Unit {0})
  unfolding to_data_frame send
  send_message message = do df ← lift (to_data_frame p message); on_link (send io (app df))

  unfoldable pub recv_message : Exec (ActiveSession T B) SessionError PairingMessage
  unfolding recv_data_frame from_data_frame
  recv_message = do
    df ← on_link (recv_data_frame io fuel channel_pairing)
    lift (from_data_frame p df)

  -- The branch for a user who does not confirm.
  unfoldable pub decline : Exec (ActiveSession T B) SessionError SasVerification
  unfolding to_data_frame try_send
  decline = do
    df ← lift (to_data_frame p (failed_message (lit "Local user rejected pairing")))
    on_link (try_send io (app df))
    set_state authenticated_untrusted
    raise pairing_rejected

  -- From the confirmation on, which both roles share.
  unfoldable pub conclude :
      PairingSession → SasVerification → Exec (ActiveSession T B) SessionError SasVerification
  unfolding send_message recv_message as_confirm confirm finalize save_peer
  conclude session sas = do
    my_confirm ← lift (map_err bad_identity (confirm x session))
    send_message (confirm_message my_confirm)
    message ← recv_message
    peer_confirm ← lift (as_confirm message)
    trusted_peer ← lift (map_err bad_identity (finalize x peer_confirm session).0)
    on_link (λ l. (
      map_err bad_identity (save_peer x trusted_peer l.trust_store).0,
      record l { trust_store = (save_peer x trusted_peer l.trust_store).1 },
    ))
    set_state session_trusted
    pure sas

  module _ (confirmer : SasVerification → Str → Bool) where
    -- The user's answer and what follows it.
    unfoldable pub ask :
        PairingSession → SasVerification → Exec (ActiveSession T B) SessionError SasVerification
    unfolding decline conclude
    ask session sas s = elim (confirmer sas s.remote_name) [
      | true ↦ conclude session sas s
      | false ↦ decline s
    ]

    module _ (nonce : Bytes) (now : ℕ) where
      unfoldable pub initiate : Exec (ActiveSession T B) SessionError SasVerification
      unfolding send_message recv_message as_response new_initiator initiator_receive_response ask
      initiate s =
          let start = new_initiator x s.local_identity s.local_name s.local_device_type nonce now in
          (do
            send_message (request_message start.1)
            message ← recv_message
            resp ← lift (as_response message)
            sas ← lift (map_err bad_identity (initiator_receive_response x resp now start.0).0)
            ask (initiator_receive_response x resp now start.0).1 sas)
            s

      unfoldable pub respond : Exec (ActiveSession T B) SessionError SasVerification
      unfolding send_message recv_message as_request new_responder ask
      respond = do
        message ← recv_message
        req ← lift (as_request message)
        start ← λ s. (
          map_err bad_identity
              (new_responder x s.local_identity s.local_name s.local_device_type nonce now req),
          s,
        )
        send_message (response_message start.1)
        ask start.0 start.2

      unfoldable pub execute_pairing : Bool → Exec (ActiveSession T B) SessionError SasVerification
      unfolding initiate respond
      execute_pairing is_initiator = do
        set_state pairing
        elim is_initiator [ true ↦ initiate | false ↦ respond ]
