-- ===== src/Session.antt =====
-- crates/bridge-session/src/state.rs, error.rs and the fields of `ActiveSession` (session.rs). The
-- text of an error is not modelled.
pub mod Handshake
pub mod PairingMessage
pub mod PairingFlow
pub mod FrameLoop
use bridgeos.Prelude.{Bytes, Str, Bool, true, false, Option, none, some}
use bridgeos.Prelude.Exec.{Exec}
use bridgeos.Prelude.Result.{ok, err}
use bridgeos.Core.{NodeId, DeviceType}
use bridgeos.Protocol.Frame.{Frame}
use bridgeos.Transport.{Framed}
use bridgeos.Identity.Keys.{IdentityError, PublicKey}
use bridgeos.Identity.Trust.{TrustStore}
use bridgeos.Clipboard.Engine.{Engine}

pub data SessionState : Type 0 where
  handshaking authenticated_untrusted pairing session_trusted terminated : SessionState

unfoldable pub state-is_trusted : SessionState → Bool
state-is_trusted session_trusted = true
state-is_trusted _ = false

pub data SessionError : Type 0 where
  transport bad_protocol rejected_signature closed pairing_rejected : SessionError
  -- not of the code: a loop has run out of fuel
  out_of_fuel : SessionError
  bad_identity : IdentityError → SessionError
  session_key_mismatch : NodeId → Str → Str → SessionError
  session_peer_revoked : NodeId → SessionError

pub record ActiveSession (T B : Type 0) : Type 0 where
  pub local_identity : Bytes
  pub local_name : Str
  pub local_device_type : DeviceType
  pub remote_node_id : NodeId
  pub remote_pubkey : PublicKey
  pub remote_name : Str
  pub remote_device_type : DeviceType
  pub state : SessionState
  pub trust_store : TrustStore
  pub framed : T
  pub clipboard_engine : Option (Engine B)
  pub receive_dir : Option Str

-- What a handshake works on.
pub record Link (T : Type 0) : Type 0 where
  pub framed : T
  pub trust_store : TrustStore

module _ {T : Type 0} (io : Framed T) where
  -- `recv_frame`, its error and the end of the stream being errors of the session
  unfoldable pub recv : Exec (Link T) SessionError Frame
  recv l = elim (io.recv_frame l.framed).0 [
    | err _ ↦ (err transport, record l { framed = (io.recv_frame l.framed).1 })
    | ok none ↦ (err closed, record l { framed = (io.recv_frame l.framed).1 })
    | ok (some frame) ↦ (ok frame, record l { framed = (io.recv_frame l.framed).1 })
  ]

  unfoldable pub send : Frame → Exec (Link T) SessionError (Unit {0})
  send frame l = elim (io.send_frame frame l.framed).0 [
    | err _ ↦ (err transport, record l { framed = (io.send_frame frame l.framed).1 })
    | ok _ ↦ (ok tt, record l { framed = (io.send_frame frame l.framed).1 })
  ]

  -- `let _ = framed.send_frame(…)`
  unfoldable pub try_send : Frame → Exec (Link T) SessionError (Unit {0})
  try_send frame l = (ok tt, record l { framed = (io.send_frame frame l.framed).1 })
