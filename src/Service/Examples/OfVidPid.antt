-- ===== src/Service/Examples/OfVidPid.antt =====
-- Concrete ports: their ids, and two registry keys to scan (crates/service/src/device.rs).
use msft.Service.Device.Track.{plug_asked, texts_of, track, track-plugged}
use msft.Service.Device.Track
use msft.Service.Device.{poll_next, Tracking, streaming}
use msft.Service.Ports.{get}
use msft.Service.VidPid.RoundTrip.{from_registry-port_text, le_bytes, port_text, try_from-matches}
use msft.Service.Scan.{connected_port, port_and_ids, scan, scan_for}
use msft.Service.VidPid.{UsbVidPid}
use msft.Service.VidPid.Registry.{ScanError, from_registry, unexpected_registry_data}
use msft.Service.Wchar.{OsString, from_wide, to_wide, units}
use msft.Prelude.{List, [], arith, none, ok, refl, some, suc, true, zero, ℕ, ◌++◌, ◌∷◌, ◌≡◌, ready}
use msft.Service.Scan.Lookup.{HoldsValues, ReadAs}
use msft.Service.Hkey.{Enumerated, HkeyInfo, Key, RegistryCodes, RegistryData, try_into_os_string}
use msft.Service.VidPid.RoundTrip
use msft.Service.Guid.{bytes_eq}
use msft.Service.Scan.Lookup

abbrev pub codes : RegistryCodes
codes = record { dword = 4; dword_big_endian = 5; qword = 11; sz = 1; expand_sz = 2 }

abbrev pub ids : UsbVidPid
ids = record { vid = 1155; pid = 22336 }

abbrev others : UsbVidPid
others = record { vid = 1155; pid = 22337 }

-- Before, between and behind the ids of a port's text.
abbrev before : List ℕ
before = b'\\' ∷ b'\\' ∷ b'?' ∷ b'\\' ∷ b'u' ∷ b's' ∷ b'b' ∷ b'#' ∷ b'v' ∷ b'i' ∷ b'd' ∷ b'_' ∷ []

abbrev between : List ℕ
between = b'&' ∷ b'p' ∷ b'i' ∷ b'd' ∷ b'_' ∷ []

abbrev after : List ℕ
after = b'#' ∷ []

abbrev pub port_data : RegistryData
port_data = record {
  bytes = le_bytes (to_wide (port_text before between after ids) ++ (7 ∷ []));
  ty = 1;
}

from_registry-port_text_example : from_registry codes port_data ≡ some (ok ids)
from_registry-port_text_example =
    RoundTrip.from_registry-port_text codes before between after (7 ∷ []) ids (ground arith)
      (ground arith) (ground arith) refl refl (omega arith) (omega arith)

abbrev pub com3 : OsString
com3 = b'C' ∷ b'O' ∷ b'M' ∷ b'3' ∷ []

abbrev pub com4 : OsString
com4 = b'C' ∷ b'O' ∷ b'M' ∷ b'4' ∷ []

abbrev pub com3_data : RegistryData
com3_data = record { bytes = le_bytes (to_wide com3); ty = 1 }

-- A key with one value.
abbrev one_value : OsString → RegistryData → ℕ → Enumerated
one_value name d zero = some (to_wide name ++ [], d)
one_value name d (suc n) = none

abbrev one_info : HkeyInfo
one_info = record {
  num_subkeys = 0;
  num_values = 1;
  max_subkey_name_len = 0;
  max_value_name_len = 8;
  max_value_len = 64;
}

abbrev key_of : OsString → RegistryData → Key
key_of name d = record {
  opens = true;
  query_info = some one_info;
  enum_value = one_value name d;
  last_os_error = 259;
}

abbrev pub serialcomm : Key
serialcomm = key_of (b'U' ∷ []) com3_data

abbrev arbiter : Key
arbiter = key_of com3 port_data

pub serialcomm_values : HoldsValues serialcomm ((b'U' ∷ [], com3_data) ∷ [])
serialcomm_values = record {
  is_open = refl;
  key_info = one_info;
  has_info = refl;
  counts = refl;
  answers = ground arith;
}

arbiter_values : (d : RegistryData) → HoldsValues (key_of com3 d) ((com3, d) ∷ [])
arbiter_values d = record {
  is_open = refl;
  key_info = one_info;
  has_info = refl;
  counts = refl;
  answers = ground arith;
}

pub serialcomm_ports : ReadAs (connected_port codes) ((b'U' ∷ [], com3_data) ∷ []) (com3 ∷ [])
unfolding try_into_os_string units from_wide to_wide
serialcomm_ports = (refl, tt)

pub port_data_ids : from_registry codes port_data ≡ some (ok ids)
port_data_ids =
    from_registry-port_text codes before between after (7 ∷ []) ids (ground arith) (ground arith)
      (ground arith) refl refl (omega arith) (omega arith)

arbiter_ids : ReadAs (port_and_ids codes) ((com3, port_data) ∷ []) ((com3, ids) ∷ [])
arbiter_ids = (rw port_data_ids refl, tt)

scan_for-last_of_example :
    ((m : List (OsString × UsbVidPid)) × (scan codes serialcomm arbiter ≡ some (ok m))
      × (get com3 m ≡ some ids))
    × (scan_for codes serialcomm arbiter com3 ≡ some (ok ids))
unfolding bytes_eq
scan_for-last_of_example =
    Lookup.scan_for-last_of codes serialcomm arbiter ((b'U' ∷ [], com3_data) ∷ [])
      ((com3, port_data) ∷ []) (com3 ∷ []) ((com3, ids) ∷ []) com3 serialcomm_values
      serialcomm_ports (arbiter_values port_data) arbiter_ids

-- A value of another type, of a port that is not connected.
abbrev dword_data : RegistryData
dword_data = record { bytes = 9 ∷ []; ty = 4 }

abbrev refused : ScanError
refused = unexpected_registry_data (record { expect = 1; actual = 4; bytes = 9 ∷ [] })

-- The program tracks two devices, and the second one is plugged.
track-plugged_example :
    (t : Tracking) × (track (texts_of (others ∷ ids ∷ [])) ≡ ok t)
    × (poll_next (plug_asked codes serialcomm arbiter com3 (ok 8) ∷ []) t
        ≡ some (record {
          after = streaming (others ∷ ids ∷ []) ((com3, 8) ∷ []);
          signalled = [];
          result = ready (some (ok (record { name = com3; ids = ids; unplugged = 8 })));
          rest = [];
        }))
unfolding bytes_eq
track-plugged_example =
    Track.track-plugged codes serialcomm arbiter ((b'U' ∷ [], com3_data) ∷ [])
      ((com3, port_data) ∷ []) (com3 ∷ []) ((com3, ids) ∷ []) (others ∷ []) [] ids com3 8
      serialcomm_values serialcomm_ports (arbiter_values port_data) arbiter_ids refl refl
      (omega arith, omega arith, (omega arith, omega arith, tt))
