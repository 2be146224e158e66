-- ===== src/Session/PairingMessage.antt =====
-- crates/bridge-session/src/pairing_flow.rs: the messages of the pairing channel.
use bridgeos.Prelude.{◌==◌, Str, not}
use bridgeos.Prelude.Result.{Result, ok, err, ◌>>=◌, ◌>>◌, reject_if, ok_or}
use bridgeos.Protocol.Frame.{DataFrame, channel_pairing}
use bridgeos.Protocol.Codec.{Postcard}
use bridgeos.Identity.Pairing.{PairingRequest, PairingResponse, PairingConfirm}
use bridgeos.Session.{SessionError, bad_protocol, closed}

pub data PairingMessage : Type 0 where
  request_message : PairingRequest → PairingMessage
  response_message : PairingResponse → PairingMessage
  confirm_message : PairingConfirm → PairingMessage
  failed_message : Str → PairingMessage

module _ (p : Postcard PairingMessage) where
  unfoldable pub to_data_frame : PairingMessage → Result DataFrame SessionError
  to_data_frame m = do
    payload ← ok_or bad_protocol (p.to_allocvec m)
    ok (record { channel = channel_pairing; payload = payload })

  unfoldable pub from_data_frame : DataFrame → Result PairingMessage SessionError
  from_data_frame frame = do
    reject_if (not (frame.channel == channel_pairing)) bad_protocol
    ok_or bad_protocol (p.from_bytes frame.payload)

unfoldable pub as_request : PairingMessage → Result PairingRequest SessionError
as_request (request_message r) = ok r
as_request _ = err bad_protocol

unfoldable pub as_response : PairingMessage → Result PairingResponse SessionError
as_response (response_message r) = ok r
as_response (failed_message reason) = err closed
as_response _ = err bad_protocol

unfoldable pub as_confirm : PairingMessage → Result PairingConfirm SessionError
as_confirm (confirm_message c) = ok c
as_confirm (failed_message reason) = err closed
as_confirm _ = err bad_protocol
