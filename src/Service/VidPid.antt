-- ===== src/Service/VidPid.antt =====
-- `UsbVidPid` of crates/service/src/device.rs: vendor and product ids, as text and as a registry value.
-- A `str` is the list of its bytes.
pub mod Hex
pub mod Utf16
pub mod Registry
pub mod RoundTrip
use Hex.{ParseIntError, upper_hex, from_str_radix}
use msft.Service.Wchar.{OsString}
use msft.Service.Guid.{bytes_eq}
use msft.Prelude.{
  ℕ, ◌-◌, ◌≤◌, ◌<◌, ◌^◌, Bool, true, false, ◌&&◌, ◌||◌, List, [], ◌∷◌, ◌++◌, Option, none, some,
  Result, ok, err, Faulty, ◌==◌, leb, ltb, if◌then◌else◌, length, take, drop, ◌>>=◌, map_err,
}

pub record UsbVidPid : Type 0 where
  pub vid : ℕ
  pub pid : ℕ

-- The derived equality.
abbrev pub same_ids : UsbVidPid → UsbVidPid → Bool
same_ids a b = a.vid == b.vid && a.pid == b.pid

-- `vid()` and `pid()`: `{:0>4X}`.
unfoldable pub vid : UsbVidPid → List ℕ
vid u = upper_hex u.vid

unfoldable pub pid : UsbVidPid → List ℕ
pid u = upper_hex u.pid

unfoldable pub matches : UsbVidPid → List ℕ → List ℕ → Bool
matches u v p = bytes_eq v (vid u) && bytes_eq p (pid u)

-- `TryFrom<(V, P)>`.
unfoldable pub try_from : List ℕ → List ℕ → Result UsbVidPid ParseIntError
try_from v p = do
  vid ← from_str_radix v
  pid ← from_str_radix p
  ok (record { vid = vid; pid = pid })

-- The ids that `DeviceStreamExt::track` is given, read up to the first that cannot be.
unfoldable pub read_ids : List (List ℕ × List ℕ) → Result (List UsbVidPid) ParseIntError
read_ids [] = ok []
read_ids ((v, p) ∷ ids) = do u ← try_from v p; us ← read_ids ids; ok (u ∷ us)
