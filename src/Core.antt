-- ===== src/Core.antt =====
-- crates/bridge-core/src/types.rs and error.rs. `NodeId` is its 32 bytes. The text of an error
-- message is not modelled; the numbers that an error carries are.
pub mod Laws
use Prim.Native.Nat.{bit_and, bit_or}
use bridgeos.Prelude.{
  ◌==◌, if◌then◌else◌, Bytes, bytes_eq, Str, lit, is_whitespace, trim_start, trim,
  to_ascii_lowercase, ℕ, ◌^◌, Bool, ◌||◌,
}

pub record ProtocolVersion : Type 0 where
  pub major : ℕ
  pub minor : ℕ

abbrev pub current : ProtocolVersion
current = record { major = 1; minor = 0 }

unfoldable pub is_compatible_with : ProtocolVersion → ProtocolVersion → Bool
is_compatible_with v other = v.major == other.major

abbrev pub NodeId : Type 0
NodeId = Bytes

pub data DeviceType : Type 0 where
  windows android linux mac_os unknown : DeviceType

-- `Display`
unfoldable pub to_string : DeviceType → Str
to_string windows = lit "Windows"
to_string android = lit "Android"
to_string linux = lit "Linux"
to_string mac_os = lit "macOS"
to_string unknown = lit "Unknown"

-- `FromStr`, which never fails
unfoldable pub from_str : Str → DeviceType
unfolding trim trim_start is_whitespace to_ascii_lowercase bytes_eq
from_str s =
    let t = to_ascii_lowercase (trim s) in
    if bytes_eq t (lit "windows")
    then windows
    else if bytes_eq t (lit "android")
    then android
    else if bytes_eq t (lit "linux")
    then linux
    else if bytes_eq t (lit "macos") || bytes_eq t (lit "darwin")
    then mac_os
    else unknown

pub record Capabilities : Type 0 where
  pub flags : ℕ

-- FILE_TRANSFER, CLIPBOARD_TEXT, CLIPBOARD_IMAGE, NOTIFICATIONS, REMOTE_INPUT, RELAY_SUPPORT
abbrev pub file_transfer : ℕ
file_transfer = 2 ^ 0

abbrev pub clipboard_text : ℕ
clipboard_text = 2 ^ 1

abbrev pub clipboard_image : ℕ
clipboard_image = 2 ^ 2

abbrev pub notifications : ℕ
notifications = 2 ^ 3

abbrev pub remote_input : ℕ
remote_input = 2 ^ 4

abbrev pub relay_support : ℕ
relay_support = 2 ^ 5

unfoldable pub all : Capabilities
all = record {
  flags = bit_or file_transfer (
      bit_or clipboard_text
        (bit_or clipboard_image (bit_or notifications (bit_or remote_input relay_support))));
}

unfoldable pub contains : Capabilities → ℕ → Bool
contains c flag = bit_and c.flags flag == flag

unfoldable pub intersect : Capabilities → Capabilities → Capabilities
intersect c other = record { flags = bit_and c.flags other.flags }

pub data BridgeError : Type 0 where
  framing invalid_magic identity authentication_failed serialization : BridgeError
  connection_closed internal : BridgeError
  frame_too_large : ℕ → ℕ → BridgeError
