-- ===== src/Transfer/Messages.antt =====
-- crates/bridge-transfer/src/message.rs: the messages of the file transfer channel.
use bridgeos.Prelude.{◌==◌, Bytes, Str, ℕ, not}
use bridgeos.Prelude.Result.{Result, ok, ◌>>=◌, ◌>>◌, reject_if, ok_or}
use bridgeos.Protocol.Frame.{DataFrame, channel_file_transfer}
use bridgeos.Protocol.Codec.{Postcard}
use bridgeos.Transfer.{TransferError, protocol, FileManifest, FileChunk}

pub data TransferMessage : Type 0 where
  offer : FileManifest → TransferMessage
  accept : Str → ℕ → TransferMessage
  chunk_data : FileChunk → TransferMessage
  chunk_ack : Str → ℕ → TransferMessage
  finished : Str → Bytes → TransferMessage
  transfer_complete : Str → TransferMessage
  cancel : Str → Str → TransferMessage

module _ (p : Postcard TransferMessage) where
  unfoldable pub to_bytes : TransferMessage → Result Bytes TransferError
  to_bytes m = ok_or protocol (p.to_allocvec m)

  unfoldable pub message_from_bytes : Bytes → Result TransferMessage TransferError
  message_from_bytes bytes = ok_or protocol (p.from_bytes bytes)

  unfoldable pub to_data_frame : TransferMessage → Result DataFrame TransferError
  unfolding to_bytes
  to_data_frame m = do
    payload ← to_bytes m
    ok (record { channel = channel_file_transfer; payload = payload })

  unfoldable pub from_data_frame : DataFrame → Result TransferMessage TransferError
  unfolding message_from_bytes
  from_data_frame frame = do
    reject_if (not (frame.channel == channel_file_transfer)) protocol
    message_from_bytes frame.payload
