-- ===== src/Service/Scan/Lookup.antt =====
-- What `scan` and `scan_for` of crates/service/src/device.rs find, and when they fail.
use msft.Service.Ports.{contains, get, get-insert, insert}
use msft.Service.Scan.{
  connected_port, filter_ports, insert_all, port_and_ids, scan_for, values_of, scan,
}
use msft.Service.Guid.{bytes_eq, bytes_eq_iff}
use msft.Service.VidPid.{UsbVidPid}
use msft.Service.VidPid.Registry.{
  ScanError, com_port_missing_from_registry, from_registry, io, unexpected_registry_data,
}
use msft.Service.Wchar.{OsString}
use msft.Service.Hkey.{
  HkeyInfo, Item, Key, RegistryCodes, RegistryData, UnexpectedRegistryData, try_into_os_string,
  into_values, open_key, collect_with,
}
use native.Mathlib.Nat.{zero-add}
use msft.Prelude.{
  Faulty, List, Option, Result, [], ap, arith, err, if◌then◌else◌, length, none, ok, ok_or, refl,
  some, true, false, ◌++◌, ◌∷◌, ◌≡◌, suc, ◌+◌,
}
use msft.Service.Hkey.Values.{Answers, collect_with-values, traverse}

-- The kernel answers for the key with these values.
pub record HoldsValues (k : Key) (vs : List (OsString × RegistryData)) : Type 0 where
  pub is_open : k.opens ≡ true
  pub key_info : HkeyInfo
  pub has_info : k.query_info ≡ some key_info
  pub counts : key_info.num_values ≡ length vs
  pub answers : Answers k.enum_value 0 vs

-- Each value is read without a fault or an error, as the element in its place.
abbrev pub ReadAs :
    {A : Type 0}
    → (Item → Faulty (Result A ScanError))
    → List (OsString × RegistryData)
    → List A
    → Type 0
ReadAs f [] [] = Unit
ReadAs f [] (a ∷ as') = ⊥
ReadAs f (v ∷ vs) [] = ⊥
ReadAs f (v ∷ vs) (a ∷ as') = (f (ok v) ≡ some (ok a)) × ReadAs f vs as'

values_of-traverse :
    {A : Type 0} (f : Item → Faulty (Result A ScanError)) (k : Key)
    (vs : List (OsString × RegistryData))
    → HoldsValues k vs
    → values_of f k ≡ traverse f vs
unfolding values_of open_key into_values
values_of-traverse f k vs h =
    let drawn : collect_with k.enum_value k.last_os_error f (suc (length vs))
          (record { num_values = 0 + length vs; index = 0 })
        ≡ traverse f vs =
      collect_with-values f k.enum_value k.last_os_error 0 vs h.answers in
    rw (h.is_open, h.has_info, h.counts) (rw (zero-add (length vs)) at drawn)

traverse-ReadAs :
    {A : Type 0} (f : Item → Faulty (Result A ScanError)) (vs : List (OsString × RegistryData))
    (as' : List A)
    → ReadAs f vs as'
    → traverse f vs ≡ some (ok as')
traverse-ReadAs f [] [] h = refl
traverse-ReadAs f [] (a ∷ as') h = elim h [ ]
traverse-ReadAs f (v ∷ vs) [] h = elim h [ ]
traverse-ReadAs f (v ∷ vs) (a ∷ as') h = rw (h.0, traverse-ReadAs f vs as' h.1) refl

-- What a list of pairs holds last under a port.
abbrev pub last_of {ℓ} : {V : Type ℓ} → OsString → List (OsString × V) → Option V
last_of p [] = none
last_of p (e ∷ es) = elim (last_of p es) [
  | some v ↦ some v
  | none ↦ if bytes_eq e.0 p then some e.1 else none
]

get-insert_all {ℓ} :
    {V : Type ℓ} (p : OsString) (m es : List (OsString × V))
    → get p (insert_all m es) ≡ elim (last_of p es) [ some v ↦ some v | none ↦ get p m ]
get-insert_all p m [] = refl
get-insert_all p m (e ∷ es) =
    ground (arith, get-insert_all p (insert e.0 e.1 m) es, get-insert p e.0 e.1 m)

contains-bytes_eq :
    (cs : List OsString) (p q : OsString) → bytes_eq q p ≡ true → contains cs q ≡ contains cs p
contains-bytes_eq cs p q h = ap (contains cs) ((bytes_eq_iff q p).0 h)

get-filter_ports {ℓ} :
    {V : Type ℓ} (cs : List OsString) (p : OsString) (m : List (OsString × V))
    → get p (filter_ports cs m) ≡ (if contains cs p then get p m else none)
get-filter_ports cs p [] = ground arith
get-filter_ports cs p (e ∷ m) = ground (arith, get-filter_ports cs p m, contains-bytes_eq cs p e.0)

-- What the map of a scan holds for a port.
pub get-scanned {ℓ} :
    {V : Type ℓ} (cs : List OsString) (ds : List (OsString × V)) (p : OsString)
    → get p (filter_ports cs (insert_all [] ds)) ≡ (if contains cs p then last_of p ds else none)
get-scanned cs ds p =
    ground (arith, get-filter_ports cs p (insert_all [] ds), get-insert_all p [] ds)

pub scan-pairs :
    (codes : RegistryCodes) (serialcomm arbiter : Key) (vs ws : List (OsString × RegistryData))
    (cs : List OsString) (ds : List (OsString × UsbVidPid))
    → HoldsValues serialcomm vs
    → ReadAs (connected_port codes) vs cs
    → HoldsValues arbiter ws
    → ReadAs (port_and_ids codes) ws ds
    → scan codes serialcomm arbiter ≡ some (ok (filter_ports cs (insert_all [] ds)))
unfolding scan
scan-pairs codes serialcomm arbiter vs ws cs ds hv rv hw rw' =
    rw
      (
        values_of-traverse (connected_port codes) serialcomm vs hv,
        traverse-ReadAs (connected_port codes) vs cs rv,
        values_of-traverse (port_and_ids codes) arbiter ws hw,
        traverse-ReadAs (port_and_ids codes) ws ds rw',
      )
      refl

-- Where both keys hold values that are read, `scan` gives a map, with a port where it is connected, and
-- with the ids that the port's last value holds; and `scan_for` gives these ids, or that the port is
-- missing.
pub scan_for-last_of :
    (codes : RegistryCodes) (serialcomm arbiter : Key) (vs ws : List (OsString × RegistryData))
    (cs : List OsString) (ds : List (OsString × UsbVidPid)) (p : OsString)
    → HoldsValues serialcomm vs
    → ReadAs (connected_port codes) vs cs
    → HoldsValues arbiter ws
    → ReadAs (port_and_ids codes) ws ds
    → ((m : List (OsString × UsbVidPid)) × (scan codes serialcomm arbiter ≡ some (ok m))
        × (get p m ≡ (if contains cs p then last_of p ds else none)))
      × (scan_for codes serialcomm arbiter p
          ≡ some (
              ok_or
                (com_port_missing_from_registry p)
                (if contains cs p then last_of p ds else none)))
unfolding scan_for
scan_for-last_of codes serialcomm arbiter vs ws cs ds p hv rv hw rw' =
    let m = filter_ports cs (insert_all [] ds) in
    let s = scan-pairs codes serialcomm arbiter vs ws cs ds hv rv hw rw' in
    let g = get-scanned cs ds p in ((m, s, g), rw (s, g) refl)

-- Why a scan is refused. The first key does not open, or one of its values is no string, whatever the second
-- key is; or the first key is read, and the second does not open, or one of its values holds no ids. The
-- values before it are read, and those behind it are anything.
pub data Refused (codes : RegistryCodes) (serialcomm arbiter : Key) : ScanError → Type 0 where
  ports_not_open :
      serialcomm.opens ≡ false → Refused codes serialcomm arbiter (io serialcomm.last_os_error)
  port_no_string :
      (before after : List (OsString × RegistryData)) (v : OsString × RegistryData)
      (cs : List OsString) {d : UnexpectedRegistryData}
      → HoldsValues serialcomm (before ++ (v ∷ after))
      → ReadAs (connected_port codes) before cs
      → try_into_os_string codes v.1 ≡ some (err d)
      → Refused codes serialcomm arbiter (unexpected_registry_data d)
  ids_not_open :
      (vs : List (OsString × RegistryData)) (cs : List OsString)
      → HoldsValues serialcomm vs
      → ReadAs (connected_port codes) vs cs
      → arbiter.opens ≡ false
      → Refused codes serialcomm arbiter (io arbiter.last_os_error)
  value_no_ids :
      (vs : List (OsString × RegistryData)) (cs : List OsString)
      (before after : List (OsString × RegistryData)) (v : OsString × RegistryData)
      (ds : List (OsString × UsbVidPid)) {e : ScanError}
      → HoldsValues serialcomm vs
      → ReadAs (connected_port codes) vs cs
      → HoldsValues arbiter (before ++ (v ∷ after))
      → ReadAs (port_and_ids codes) before ds
      → from_registry codes v.1 ≡ some (err e)
      → Refused codes serialcomm arbiter e
