-- ===== src/Service/VidPid/Registry.antt =====
-- A COM port's registry value as vendor and product ids (`TryFrom<RegistryData>` of
-- crates/service/src/device.rs).

use msft.Service.VidPid.{UsbVidPid, try_from}
use msft.Service.VidPid.Hex.{ParseIntError}
use msft.Service.VidPid.Utf16.{to_str, slice}
use msft.Service.Hkey.{RegistryData, UnexpectedRegistryData, RegistryCodes, try_into_os_string}
use msft.Service.Wchar.{OsString}
use msft.Prelude.{ℕ, List, Option, none, some, Result, ok, err, Faulty}

-- `ScanError`. An error of the system is known by its code; `unsupported registry value` is one of the
-- program's own, with no code.
pub data ScanError : Type 0 where
  unexpected_registry_data : UnexpectedRegistryData → ScanError
  io : ℕ → ScanError
  unsupported_registry_value : ScanError
  invalid_registry_data : ParseIntError → OsString → ScanError
  com_port_missing_from_registry : OsString → ScanError

abbrev pub parsed : OsString → Result UsbVidPid ParseIntError → Result UsbVidPid ScanError
parsed s (ok u) = ok u
parsed s (err e) = err (invalid_registry_data e s)

abbrev pub parse_slices :
    OsString → Faulty (List ℕ) → Faulty (List ℕ) → Faulty (Result UsbVidPid ScanError)
parse_slices s none p = none
parse_slices s (some v) none = none
parse_slices s (some v) (some p) = some (parsed s (try_from v p))

abbrev pub parse_str : OsString → Option (List ℕ) → Faulty (Result UsbVidPid ScanError)
parse_str s none = some (err unsupported_registry_value)
parse_str s (some text) = parse_slices s (slice 12 16 text) (slice 21 25 text)

abbrev pub parse_value :
    Faulty (Result OsString UnexpectedRegistryData) → Faulty (Result UsbVidPid ScanError)
parse_value none = none
parse_value (some (err e)) = some (err (unexpected_registry_data e))
parse_value (some (ok s)) = parse_str s (to_str s)

-- `none` is a slice that panics, or a string that ends behind the data.
unfoldable pub from_registry : RegistryCodes → RegistryData → Faulty (Result UsbVidPid ScanError)
from_registry codes d = parse_value (try_into_os_string codes d)
