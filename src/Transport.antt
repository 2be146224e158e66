-- ===== src/Transport.antt =====
-- crates/bridge-transport/src/framed.rs. The byte stream (`AsyncRead + AsyncWrite`) is a parameter.

pub mod Delivery
use bridgeos.Prelude.{ltb, if◌then◌else◌, take, drop, Bytes, bytes_eq, ℕ, not, Option, none, some}
use bridgeos.Prelude.Result.{Result, ok, err, ◌>>=◌}
use bridgeos.Core.{BridgeError, framing, invalid_magic, internal, frame_too_large}
use bridgeos.Protocol.Frame.{magic, max_frame_length, Frame}
use bridgeos.Protocol.Codec.{Postcard, from_be_bytes, decode_payload, encode_frame}

-- What `read_exact` may end with.
pub data ReadExact : Type 0 where
  filled : Bytes → ReadExact
  unexpected_eof : ReadExact
  failed : ReadExact

-- An asynchronous byte stream: `read_exact` into a buffer of the given size, `write_all`, `flush`.
pub record ByteStream (T : Type 0) : Type 0 where
  pub read_exact : ℕ → T → ReadExact × T
  pub write_all : Bytes → T → Result (Unit {0}) BridgeError × T
  pub flush : T → Result (Unit {0}) BridgeError × T

-- What the session layer uses of a connection.
pub record Framed (T : Type 0) : Type 0 where
  pub recv_frame : T → Result (Option Frame) BridgeError × T
  pub send_frame : Frame → T → Result (Unit {0}) BridgeError × T

module _ (p : Postcard Frame) {T : Type 0} (io : ByteStream T) where
  -- The second half of `recv_frame`, once the length is known.
  unfoldable pub recv_payload : ℕ → T → Result (Option Frame) BridgeError × T
  recv_payload len s = elim (io.read_exact len s).0 [
    | filled payload ↦
        (do frame ← decode_payload p payload; ok (some frame), (io.read_exact len s).1)
    | _ ↦ (err framing, (io.read_exact len s).1)
  ]

  unfoldable pub recv_header : Bytes → T → Result (Option Frame) BridgeError × T
  recv_header header s =
      let len = from_be_bytes (take 4 (drop 4 header)) in
      if not (bytes_eq (take 4 header) magic)
      then (err invalid_magic, s)
      else if ltb max_frame_length len
      then (err (frame_too_large len max_frame_length), s)
      else recv_payload len s

  unfoldable pub recv_frame : T → Result (Option Frame) BridgeError × T
  recv_frame s = elim (io.read_exact 8 s).0 [
    | filled header ↦ recv_header header (io.read_exact 8 s).1
    | unexpected_eof ↦ (ok none, (io.read_exact 8 s).1)
    | failed ↦ (err internal, (io.read_exact 8 s).1)
  ]

  unfoldable pub flush_after : Result (Unit {0}) BridgeError × T → Result (Unit {0}) BridgeError × T
  flush_after (err e, s) = (err e, s)
  flush_after (ok _, s) = io.flush s

  unfoldable pub send_encoded : Result Bytes BridgeError → T → Result (Unit {0}) BridgeError × T
  unfolding flush_after
  send_encoded (err e) s = (err e, s)
  send_encoded (ok encoded) s = flush_after (io.write_all encoded s)

  unfoldable pub send_frame : Frame → T → Result (Unit {0}) BridgeError × T
  unfolding send_encoded
  send_frame frame s = send_encoded (encode_frame p frame) s

  pub framed_stream : Framed T
  framed_stream = record { recv_frame = recv_frame; send_frame = send_frame }
