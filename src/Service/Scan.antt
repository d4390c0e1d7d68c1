-- ===== src/Service/Scan.antt =====
-- crates/service/src/device.rs: `scan` and `scan_for`, the connected ports with their vendor and product
-- ids. What the kernel answers for the two registry keys is a parameter, one `Key` each.
pub mod Lookup
pub mod Unordered
use msft.Service.Ports.{contains, get, insert}
use msft.Service.VidPid.{UsbVidPid}
use msft.Service.VidPid.Registry.{
  ScanError, com_port_missing_from_registry, from_registry, io, unexpected_registry_data,
}
use msft.Service.Wchar.{OsString}
use msft.Prelude.{
  List, Result, [], err, if◌then◌else◌, map_err, none, ok, ok_or, some, suc, ◌>>=◌, ◌∷◌, Faulty,
  and_then,
}
use msft.Service.Hkey.{
  HkeyValueIter, Item, Key, RegistryCodes, UnexpectedRegistryData, collect_with, into_values,
  open_key, try_into_os_string,
}

-- `value?.1.try_into_os_string().map_err(ScanError::from)`.
abbrev port_or_error :
    Faulty (Result OsString UnexpectedRegistryData) → Faulty (Result OsString ScanError)
port_or_error none = none
port_or_error (some r) = some (map_err unexpected_registry_data r)

abbrev pub connected_port : RegistryCodes → Item → Faulty (Result OsString ScanError)
connected_port codes (err code) = some (err (io code))
connected_port codes (ok v) = port_or_error (try_into_os_string codes v.1)

-- `let (port, data) = value?; UsbVidPid::try_from(data).map(|vidpid| (port, vidpid))`.
abbrev pub port_and_ids : RegistryCodes → Item → Faulty (Result (OsString × UsbVidPid) ScanError)
port_and_ids codes (err code) = some (err (io code))
port_and_ids codes (ok v) = and_then (from_registry codes v.1) (λ u. some (ok (v.0, u)))

-- `open(..)?.into_values()?.map(f).collect()`. The iterator asks for one value more than the key holds
-- at most, which is the fuel.
abbrev iterated {ℓ} :
    {A : Type ℓ}
    → (Item → Faulty (Result A ScanError))
    → Key
    → HkeyValueIter
    → Faulty (Result (List A) ScanError)
iterated f k it = collect_with k.enum_value k.last_os_error f (suc it.num_values) it

unfoldable pub values_of {ℓ} :
    {A : Type ℓ} → (Item → Faulty (Result A ScanError)) → Key → Faulty (Result (List A) ScanError)
values_of f k =
    and_then (some (map_err io (do o ← open_key k; into_values o))) (λ it. iterated f k it)

-- `collect` into a `HashMap`: one insertion for each pair, in order.
abbrev pub insert_all {ℓ} :
    {V : Type ℓ} → List (OsString × V) → List (OsString × V) → List (OsString × V)
insert_all m [] = m
insert_all m (e ∷ es) = insert_all (insert e.0 e.1 m) es

-- `devices.into_iter().filter(..).collect()`: the entries of a map whose ports the test takes.
abbrev pub filter_ports {ℓ} :
    {V : Type ℓ} → List OsString → List (OsString × V) → List (OsString × V)
filter_ports cs [] = []
filter_ports cs (e ∷ es) =
    let rest = filter_ports cs es in if contains cs e.0 then e ∷ rest else rest

unfoldable pub scan :
    RegistryCodes
    → (serialcomm arbiter : Key) → Faulty (Result (List (OsString × UsbVidPid)) ScanError)
scan codes serialcomm arbiter = and_then (values_of (connected_port codes) serialcomm) (λ connected.
    and_then (values_of (port_and_ids codes) arbiter)
      (λ devices. some (ok (filter_ports connected (insert_all [] devices)))))

unfoldable pub scan_for :
    RegistryCodes → (serialcomm arbiter : Key) → OsString → Faulty (Result UsbVidPid ScanError)
scan_for codes serialcomm arbiter p =
    and_then (scan codes serialcomm arbiter)
      (λ devices. some (ok_or (com_port_missing_from_registry p) (get p devices)))
