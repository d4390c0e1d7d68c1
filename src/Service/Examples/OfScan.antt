-- ===== src/Service/Examples/OfScan.antt =====
-- A registry key that lists two ports in either order (crates/service/src/device.rs).
use msft.Service.Examples.OfVidPid.{
  codes, ids, com3, com3_data, com4, port_data, port_data_ids, serialcomm, serialcomm_ports,
  serialcomm_values,
}
use msft.Service.Hkey.{Enumerated, HkeyInfo, Key, RegistryData}
use msft.Service.Guid.{bytes_eq}
use msft.Service.Scan.{port_and_ids, scan, scan_for}
use msft.Service.Scan.Lookup.{HoldsValues, ReadAs}
use msft.Service.Scan.Unordered
use msft.Service.Scan.Unordered.{PortMap}
use msft.Service.VidPid.{UsbVidPid}
use msft.Service.Wchar.{OsString, to_wide}
use mathlib.Core.List.Permᴰ
use mathlib.Core.List.Permᴰ.{swap}
use mathlib.Core.Quot
use msft.Prelude.{ℕ, zero, suc, ◌≡◌, List, [], ◌∷◌, ◌++◌, true, none, some, ok, refl, arith}

abbrev two_values : (first second : OsString) → ℕ → Enumerated
two_values p q zero = some (to_wide p ++ [], port_data)
two_values p q (suc zero) = some (to_wide q ++ [], port_data)
two_values p q (suc (suc n)) = none

abbrev two_info : HkeyInfo
two_info = record {
  num_subkeys = 0;
  num_values = 2;
  max_subkey_name_len = 0;
  max_value_name_len = 8;
  max_value_len = 64;
}

abbrev listing : (first second : OsString) → Key
listing p q = record {
  opens = true;
  query_info = some two_info;
  enum_value = two_values p q;
  last_os_error = 259;
}

abbrev listed : (first second : OsString) → List (OsString × RegistryData)
listed p q = (p, port_data) ∷ (q, port_data) ∷ []

forward : HoldsValues (listing com3 com4) (listed com3 com4)
forward = record {
  is_open = refl;
  key_info = two_info;
  has_info = refl;
  counts = refl;
  answers = ground arith;
}

backward : HoldsValues (listing com4 com3) (listed com4 com3)
backward = record {
  is_open = refl;
  key_info = two_info;
  has_info = refl;
  counts = refl;
  answers = ground arith;
}

listed_ids : ReadAs (port_and_ids codes) (listed com3 com4) ((com3, ids) ∷ (com4, ids) ∷ [])
listed_ids = (rw port_data_ids refl, (rw port_data_ids refl, tt))

scan-unordered_example :
    ((m m' : List (OsString × UsbVidPid)) × (scan codes serialcomm (listing com3 com4)
        ≡ some (ok m))
      × (scan codes serialcomm (listing com4 com3) ≡ some (ok m'))
      × (Path PortMap (Quot.mk m) (Quot.mk m')))
    × ((p : OsString)
        → scan_for codes serialcomm (listing com3 com4) p
          ≡ scan_for codes serialcomm (listing com4 com3) p)
unfolding bytes_eq
scan-unordered_example =
    Unordered.scan-unordered codes serialcomm serialcomm (listing com3 com4) (listing com4 com3)
      ((b'U' ∷ [], com3_data) ∷ []) ((b'U' ∷ [], com3_data) ∷ []) (listed com3 com4)
      (listed com4 com3) (com3 ∷ []) ((com3, ids) ∷ (com4, ids) ∷ []) serialcomm_values
      serialcomm_values (Permᴰ.refl _) serialcomm_ports forward backward (swap refl refl) listed_ids
      (refl, (refl, tt))
