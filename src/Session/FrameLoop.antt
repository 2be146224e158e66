-- ===== src/Session/FrameLoop.antt =====
-- `process_next_frame` and `handle_file_transfer_frame` of crates/bridge-session/src/session.rs. What
-- is printed and logged is left out.
pub mod Boundary
use bridgeos.Prelude.{◌==◌, if◌then◌else◌, Bytes, Str, Bool, true, false, not, Option, none, some}
use bridgeos.Prelude.Exec.{Exec, ◌>>=◌, ◌>>◌, pure, lift}
use bridgeos.Prelude.Result.{ok, err, map_err}
use bridgeos.Protocol.Frame.{
  ping, pong, disconnect, DataFrame, Frame, handshake, control, app, channel_clipboard,
  channel_file_transfer, channel_pairing,
}
use bridgeos.Protocol.Codec.{Postcard}
use bridgeos.Transport.{Framed}
use bridgeos.Clipboard.Content.{ClipboardMessage}
use bridgeos.Clipboard.Backend.{ClipboardBackend}
use bridgeos.Clipboard.Engine.{Engine, handle_incoming_frame}
use bridgeos.Transfer.{TransferError, FileManifest}
use bridgeos.Transfer.Memory.{next_expected_chunk}
use bridgeos.Transfer.Disk.{Files, to_dir}
use bridgeos.Transfer.Messages.{TransferMessage, offer, accept, to_bytes, message_from_bytes}
use bridgeos.Session.{
  terminated, state-is_trusted, SessionError, transport, bad_protocol, ActiveSession,
}

-- A session and the files of the device.
pub record Running (T B F : Type 0) : Type 0 where
  pub session : ActiveSession T B
  pub files : F

module _ {T B F : Type 0} where
  -- A step on the files, whose error is one of the session.
  abbrev pub on_files : {A : Type 0} → Exec F TransferError A → Exec (Running T B F) SessionError A
  on_files m s = let r = m s.files in (map_err (λ _. bad_protocol) r.0, record s { files = r.1 })

module _ {T : Type 0} (io : Framed T) {B F : Type 0} where
  -- `send_frame(…).map_err(…)?`
  unfoldable pub send_reply : Frame → Exec (Running T B F) SessionError (Unit {0})
  send_reply frame s =
      let r = io.send_frame frame s.session.framed in
      (map_err (λ _. transport) r.0, record s { session = record s.session { framed = r.1 } })

  module _ (fs : Files F) (pt : Postcard TransferMessage) where
    unfoldable pub handle_offer : Str → FileManifest → Exec (Running T B F) SessionError (Unit {0})
    unfolding to_dir to_bytes send_reply
    handle_offer receive_dir manifest = do
      receiver ← on_files (to_dir fs receive_dir manifest)
      accept_bytes ← lift (
          map_err (λ _. bad_protocol)
            (to_bytes pt (
              accept receiver.manifest.file_id
                (next_expected_chunk receiver.received_chunks receiver.manifest))))
      send_reply (app (record { channel = channel_file_transfer; payload = accept_bytes }))

    unfoldable pub handle_file_transfer_frame :
        Bytes → Str → Exec (Running T B F) SessionError (Unit {0})
    unfolding message_from_bytes handle_offer
    handle_file_transfer_frame payload receive_dir = do
      msg ← lift (map_err (λ _. bad_protocol) (message_from_bytes pt payload))
      elim msg [ offer manifest ↦ handle_offer receive_dir manifest | _ ↦ pure tt ]

    module _ (blake3 : Bytes → Bytes) (pc : Postcard ClipboardMessage)
        (backend : ClipboardBackend B) where
      -- The engine, if there is one, takes the frame; its error is only logged.
      unfoldable pub to_engine : DataFrame → Option (Engine B) → Option (Engine B)
      to_engine df none = none
      to_engine df (some engine) = some (handle_incoming_frame blake3 pc backend df engine).1

      unfoldable pub to_receive_dir :
          Bytes → Option Str → Exec (Running T B F) SessionError (Unit {0})
      unfolding handle_file_transfer_frame
      to_receive_dir payload none = pure tt
      to_receive_dir payload (some rdir) = handle_file_transfer_frame payload rdir

      -- The `match data_frame.channel`.
      unfoldable pub process_data : DataFrame → Exec (Running T B F) SessionError Bool
      unfolding to_engine to_receive_dir state-is_trusted
      process_data df s =
          let engine = to_engine df s.session.clipboard_engine in
          if df.channel == channel_pairing
          then (ok true, s)
          else if df.channel == channel_clipboard
          then (if not (state-is_trusted s.session.state)
              then (ok true, s)
              else (ok true, record s { session = record s.session { clipboard_engine = engine } }))
          else if df.channel == channel_file_transfer
          then (if not (state-is_trusted s.session.state)
              then (ok true, s)
              else (do to_receive_dir df.payload s.session.receive_dir; pure true) s)
          else (ok true, s)

      unfoldable pub process_frame : Frame → Exec (Running T B F) SessionError Bool
      unfolding process_data send_reply
      process_frame (control (ping nonce)) = do send_reply (control (pong nonce)); pure true
      process_frame (control (pong nonce)) = pure true
      process_frame (control (disconnect reason)) =
          λ s. (ok false, record s { session = record s.session { state = terminated } })
      process_frame (app df) = process_data df
      process_frame (handshake h) = pure true

      unfoldable pub process_next_frame : Exec (Running T B F) SessionError Bool
      unfolding process_frame
      process_next_frame s =
          let r = io.recv_frame s.session.framed in
          let s' = record s { session = record s.session { framed = r.1 } } in
          elim r.0 [
            | err e ↦ (err transport, s')
            | ok none ↦ (ok false, s')
            | ok (some frame) ↦ process_frame frame s'
          ]
