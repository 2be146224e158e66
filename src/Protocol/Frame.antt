-- ===== src/Protocol/Frame.antt =====
-- crates/bridge-protocol/src/frame.rs and the messages of handshake.rs.
use bridgeos.Prelude.{Bytes, Str, ℕ, ◌*◌, Bool, true, false, [], ◌∷◌}
use bridgeos.Core.{ProtocolVersion, NodeId, Capabilities}

-- "BRG1"
abbrev pub magic : Bytes
magic = 0x42 ∷ 0x52 ∷ 0x47 ∷ 0x31 ∷ []

abbrev pub max_frame_length : ℕ
max_frame_length = 16 * 1024 * 1024

pub record ClientHello : Type 0 where
  pub version : ProtocolVersion
  pub node_id : NodeId
  pub device_name : Str
  pub client_nonce : Bytes
  pub capabilities : Capabilities

pub record ServerHello : Type 0 where
  pub agreed_version : ProtocolVersion
  pub node_id : NodeId
  pub device_name : Str
  pub server_nonce : Bytes
  pub negotiated_capabilities : Capabilities

pub record AuthResponse : Type 0 where
  pub signature : Bytes

-- The text of `reason` is not modelled.
pub record AuthResult : Type 0 where
  pub success : Bool
  pub has_reason : Bool

abbrev pub auth_ok : AuthResult
auth_ok = record { success = true; has_reason = false }

abbrev pub auth_failed : AuthResult
auth_failed = record { success = false; has_reason = true }

pub data HandshakeFrame : Type 0 where
  client_hello : ClientHello → HandshakeFrame
  server_hello : ServerHello → HandshakeFrame
  auth_response : AuthResponse → HandshakeFrame
  auth_result : AuthResult → HandshakeFrame

pub data DisconnectReason : Type 0 where
  graceful protocol_error auth_failure timeout : DisconnectReason

pub data ControlFrame : Type 0 where
  ping : ℕ → ControlFrame
  pong : ℕ → ControlFrame
  disconnect : DisconnectReason → ControlFrame

pub record DataFrame : Type 0 where
  pub channel : ℕ
  pub payload : Bytes

pub data Frame : Type 0 where
  handshake : HandshakeFrame → Frame
  control : ControlFrame → Frame
  app : DataFrame → Frame

abbrev pub channel_clipboard : ℕ
channel_clipboard = 1

abbrev pub channel_file_transfer : ℕ
channel_file_transfer = 2

abbrev pub channel_notifications : ℕ
channel_notifications = 3

abbrev pub channel_remote_input : ℕ
channel_remote_input = 4

abbrev pub channel_pairing : ℕ
channel_pairing = 5
