-- ===== src/Clipboard/Content.antt =====
-- crates/bridge-clipboard/src/types.rs and error.rs. The hash function (blake3) is a parameter.
use bridgeos.Prelude.{
  ◌==◌, length, Bytes, bytes_eq, Str, lit, str_len, as_bytes, ℕ, ◌+◌, ◌/◌, ◌%◌, ◌^◌, Bool, not,
  Option, none, some, [], ◌∷◌, ◌++◌,
}
use bridgeos.Prelude.Result.{Result, ok, ◌>>=◌, ◌>>◌, reject_if, ok_or}
use bridgeos.Core.{NodeId}
use bridgeos.Protocol.Frame.{DataFrame, channel_clipboard}
use bridgeos.Protocol.Codec.{Postcard}

pub data ClipboardError : Type 0 where
  serialization deserialization unsupported_format sensitive_content_blocked : ClipboardError
  hash_mismatch backend_error : ClipboardError
  oversized_payload : ℕ → ℕ → ClipboardError
  channel_mismatch : ℕ → ℕ → ClipboardError

pub data ImageFormat : Type 0 where
  png jpeg bmp webp : ImageFormat

pub data ClipboardFormat : Type 0 where
  plain_text html_text rtf : ClipboardFormat
  picture : ImageFormat → ClipboardFormat

pub data ClipboardContent : Type 0 where
  text : Str → ClipboardContent
  html : Str → Option Str → ClipboardContent
  image : ImageFormat → Bytes → ℕ → ℕ → ClipboardContent

unfoldable pub format : ClipboardContent → ClipboardFormat
format (text s) = plain_text
format (html h plain) = html_text
format (image f bytes width height) = picture f

-- The `map_or(0, String::len)` of an optional text.
unfoldable pub optional_len : Option Str → ℕ
optional_len none = 0
optional_len (some s) = str_len s

unfoldable pub byte_len : ClipboardContent → ℕ
unfolding optional_len
byte_len (text s) = str_len s
byte_len (html h plain) = str_len h + optional_len plain
byte_len (image f bytes width height) = length bytes

-- `*format as u8`
unfoldable pub discriminant : ImageFormat → ℕ
discriminant png = 0
discriminant jpeg = 1
discriminant bmp = 2
discriminant webp = 3

-- `u32::to_le_bytes`
unfoldable pub to_le_bytes : ℕ → Bytes
to_le_bytes n = n % 256 ∷ n / 2 ^ 8 % 256 ∷ n / 2 ^ 16 % 256 ∷ n / 2 ^ 24 % 256 ∷ []

unfoldable pub hashed_plain : Option Str → Bytes
hashed_plain none = []
hashed_plain (some s) = as_bytes (lit "|PLN:") ++ as_bytes s

-- What `compute_hash` feeds to the hasher.
unfoldable pub hash_input : ClipboardContent → Bytes
unfolding hashed_plain discriminant to_le_bytes
hash_input (text s) = as_bytes (lit "TXT:") ++ as_bytes s
hash_input (html h plain) = as_bytes (lit "HTM:") ++ (as_bytes h ++ hashed_plain plain)
hash_input (image f bytes width height) =
    as_bytes (lit "IMG:") ++ (discriminant f ∷ (to_le_bytes width ++ (to_le_bytes height ++ bytes)))

pub record ClipboardMetadata : Type 0 where
  pub origin : NodeId
  pub sequence : ℕ
  pub timestamp_ms : ℕ
  pub content_hash : Bytes
  pub kind : ClipboardFormat
  pub byte_size : ℕ
  pub is_sensitive : Bool

pub record ClipboardEntry : Type 0 where
  pub metadata : ClipboardMetadata
  pub content : ClipboardContent

pub data ClipboardMessage : Type 0 where
  sync : ClipboardEntry → ClipboardMessage
  clear_all : NodeId → ℕ → ℕ → ClipboardMessage
  ack : NodeId → ℕ → Bytes → ClipboardMessage

module _ (blake3 : Bytes → Bytes) where
  unfoldable pub compute_hash : ClipboardContent → Bytes
  unfolding hash_input
  compute_hash c = blake3 (hash_input c)

  -- `ClipboardEntry::new`, with the clock's reading
  unfoldable pub new_entry : NodeId → ℕ → ClipboardContent → Bool → ℕ → ClipboardEntry
  new_entry origin sequence content is_sensitive now_ms = record {
    metadata = record {
      origin = origin;
      sequence = sequence;
      timestamp_ms = now_ms;
      content_hash = compute_hash content;
      kind = format content;
      byte_size = byte_len content;
      is_sensitive = is_sensitive;
    };
    content = content;
  }

  unfoldable pub validate_integrity : ClipboardEntry → Result (Unit {0}) ClipboardError
  validate_integrity e = do
    reject_if (not (bytes_eq (compute_hash e.content) e.metadata.content_hash)) hash_mismatch
    reject_if (not (byte_len e.content == e.metadata.byte_size)) hash_mismatch
    ok tt

module _ (p : Postcard ClipboardMessage) where
  unfoldable pub to_data_frame : ClipboardMessage → Result DataFrame ClipboardError
  to_data_frame m = do
    payload ← ok_or serialization (p.to_allocvec m)
    ok (record { channel = channel_clipboard; payload = payload })

  unfoldable pub from_data_frame : DataFrame → Result ClipboardMessage ClipboardError
  from_data_frame frame = do
    reject_if (not (frame.channel == channel_clipboard))
        (channel_mismatch channel_clipboard frame.channel)
    ok_or deserialization (p.from_bytes frame.payload)
