-- ===== src/Protocol/Codec.antt =====
-- crates/bridge-protocol/src/codec.rs. The serializer (postcard) is a parameter: it may refuse a
-- value, and reading back is relied on only through `RoundTrips`.
pub mod WireFormat
use bridgeos.Prelude.{
  ltb, leb, length, get_or, take, drop, Bytes, bytes_eq, ℕ, ◌+◌, ◌*◌, ◌/◌, ◌%◌, ◌^◌, ◌≡◌, not,
  Option, some, [], ◌∷◌, ◌++◌,
}
use bridgeos.Prelude.Result.{Result, ok, ◌>>=◌, ◌>>◌, reject_if, ok_or}
use bridgeos.Core.{BridgeError, framing, invalid_magic, serialization, frame_too_large}
use bridgeos.Protocol.Frame.{magic, max_frame_length, Frame}

-- `postcard::to_allocvec` and `postcard::from_bytes` at one type.
pub record Postcard (A : Type 0) : Type 0 where
  pub to_allocvec : A → Option Bytes
  pub from_bytes : Bytes → Option A

-- What postcard documents: the bytes of a value are read back as that value.
pub record RoundTrips {A : Type 0} (p : Postcard A) : Type 0 where
  pub read_back : (a : A) (b : Bytes) → p.to_allocvec a ≡ some b → p.from_bytes b ≡ some a

-- `u32::to_be_bytes`
unfoldable pub to_be_bytes : ℕ → Bytes
to_be_bytes n = n / 2 ^ 24 % 256 ∷ n / 2 ^ 16 % 256 ∷ n / 2 ^ 8 % 256 ∷ n % 256 ∷ []

-- `u32::from_be_bytes`
unfoldable pub from_be_bytes : Bytes → ℕ
from_be_bytes b =
    get_or b 0 0 * 2 ^ 24 + get_or b 1 0 * 2 ^ 16 + get_or b 2 0 * 2 ^ 8 + get_or b 3 0

module _ (p : Postcard Frame) where
  unfoldable pub decode_payload : Bytes → Result Frame BridgeError
  decode_payload payload = ok_or serialization (p.from_bytes payload)

  unfoldable pub encode_frame : Frame → Result Bytes BridgeError
  encode_frame frame = do
    payload ← ok_or serialization (p.to_allocvec frame)
    let len = length payload
    reject_if (ltb max_frame_length len) (frame_too_large len max_frame_length)
    -- `u32::try_from`
    reject_if (leb (2 ^ 32) len) (frame_too_large len max_frame_length)
    ok (magic ++ (to_be_bytes len ++ payload))

  unfoldable pub decode_frame : Bytes → Result Frame BridgeError
  decode_frame bytes = do
    reject_if (ltb (length bytes) 8) framing
    reject_if (not (bytes_eq (take 4 bytes) magic)) invalid_magic
    let len = from_be_bytes (take 4 (drop 4 bytes))
    reject_if (ltb max_frame_length len) (frame_too_large len max_frame_length)
    reject_if (ltb (length bytes) (8 + len)) framing
    decode_payload (take len (drop 8 bytes))
