-- ===== src/Core/Laws.antt =====
-- Laws of the types of crates/bridge-core.
use bridgeos.Prelude.{◌≡◌, refl}
use bridgeos.Core.{DeviceType, windows, android, linux, mac_os, unknown, to_string, from_str}

-- Every device type is read back from its own text.
pub from_str-to_string : (d : DeviceType) → from_str (to_string d) ≡ d
unfolding from_str to_string
from_str-to_string windows = refl
from_str-to_string android = refl
from_str-to_string linux = refl
from_str-to_string mac_os = refl
from_str-to_string unknown = refl
