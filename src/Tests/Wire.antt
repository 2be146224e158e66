-- ===== src/Tests/Wire.antt =====
-- A ping on the wire.
use bridgeos.Prelude.{take, drop, Bytes, ◌<◌, ◌≡◌, refl, ◌↔◌, [], ◌∷◌, ◌++◌, arith}
use bridgeos.Prelude.Result.{ok}
use bridgeos.Protocol.Frame.{max_frame_length, ping, Frame, control}
use bridgeos.Protocol.Codec.{to_be_bytes, from_be_bytes, encode_frame, decode_frame}
use bridgeos.Protocol.Codec.WireFormat.{
  AllBytes, Holds, decode_frame_iff, decode_frame-encode_frame,
}
use bridgeos.Transport.{flush_after, send_encoded, send_frame}
use bridgeos.Transport.Delivery.{after_sending, Delivers, recv_frame-send_frame}
use bridgeos.Tests.Fixtures.{pings, pings-RoundTrips, Pipe, pipe, pipe_in_order}

abbrev ping_seven : Frame
ping_seven = control (ping 7)

abbrev ping_wire : Bytes
ping_wire = 0x42 ∷ 0x52 ∷ 0x47 ∷ 0x31 ∷ 0 ∷ 0 ∷ 0 ∷ 1 ∷ 7 ∷ []

-- Magic and a length of 2^24 + 1.
abbrev big_header : Bytes
big_header = 0x42 ∷ 0x52 ∷ 0x47 ∷ 0x31 ∷ 1 ∷ 0 ∷ 0 ∷ 1 ∷ []

ping_wire-AllBytes : AllBytes ping_wire
ping_wire-AllBytes = (
  omega arith,
  (
    omega arith,
    (
      omega arith,
      (omega arith, (omega arith, (omega arith, (omega arith, (omega arith, (omega arith, tt)))))),
    ),
  ),
)

ping_encoded : encode_frame pings ping_seven ≡ ok ping_wire
unfolding encode_frame to_be_bytes
ping_encoded = refl

decode_frame_iff_example :
    (decode_frame pings ping_wire ≡ ok ping_seven) ↔ Holds pings ping_seven ping_wire
decode_frame_iff_example = decode_frame_iff pings ping_seven ping_wire ping_wire-AllBytes

decode_frame-encode_frame_example : decode_frame pings (ping_wire ++ 9 ∷ []) ≡ ok ping_seven
decode_frame-encode_frame_example =
    decode_frame-encode_frame pings ping_seven ping_wire (9 ∷ []) pings-RoundTrips ping_encoded

header_length : max_frame_length < from_be_bytes (take 4 (drop 4 big_header))
unfolding from_be_bytes
header_length = omega arith

-- A peer's end after a ping was sent to it.
abbrev sender_end : Pipe
sender_end = after_sending pings pipe pipe_in_order (ping_seven ∷ []) ([], [])

ping_sent : (send_frame pings pipe ping_seven ([], [])).0 ≡ ok tt
unfolding send_frame send_encoded encode_frame to_be_bytes flush_after
ping_sent = refl

recv_frame-send_frame_example :
    Delivers pings pipe pipe_in_order (ping_seven ∷ []) (sender_end.1, [])
recv_frame-send_frame_example =
    recv_frame-send_frame pings pipe pipe_in_order (ping_seven ∷ []) ([], []) (sender_end.1, [])
      pings-RoundTrips (ping_sent, tt) refl refl
