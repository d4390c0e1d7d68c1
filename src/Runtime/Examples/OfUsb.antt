-- ===== src/Runtime/Examples/OfUsb.antt =====
-- Concrete control blocks for crates/runtime/src/usb/mod.rs.
use msft.Runtime.Usb.{
  DtrControl, RtsControl, Parity, Stop, CommCodes, DeviceControlSettings, default, hardware, toggle,
  odd, even, mark, space, one5, two,
}
use msft.Runtime.Usb.Configure.Written
use msft.Runtime.Usb.Configure.{Dcb, configured}
use msft.Runtime.Usb.Configure.Written.{HasFlags}
use msft.Runtime.Usb.DcbFlags.Fields
use msft.Runtime.Usb.DcbFlags.{Setter, apply_all, dtr, flag, null, out_x, rts}
use msft.Prelude.{List, false, ℕ, ◌≡◌, true, [], ◌∷◌, arith, ◌<◌}

abbrev dtr_code : DtrControl → ℕ
dtr_code DtrControl.disable = 0
dtr_code DtrControl.enable = 1
dtr_code DtrControl.handshake = 2

abbrev rts_code : RtsControl → ℕ
rts_code RtsControl.disable = 0
rts_code RtsControl.enable = 1
rts_code RtsControl.handshake = 2
rts_code toggle = 3

abbrev parity_code : Parity → ℕ
parity_code Parity.none = 0
parity_code odd = 1
parity_code even = 2
parity_code mark = 3
parity_code space = 4

abbrev stop_code : Stop → ℕ
stop_code Stop.one = 0
stop_code one5 = 1
stop_code two = 2

dtr_code-lt : (c : DtrControl) → dtr_code c < 4
dtr_code-lt c = ground arith

rts_code-lt : (c : RtsControl) → rts_code c < 4
rts_code-lt c = ground arith

dtr_code_injective : (c d : DtrControl) → dtr_code c ≡ dtr_code d → c ≡ d
dtr_code_injective c d e = ground arith

rts_code_injective : (c d : RtsControl) → rts_code c ≡ rts_code d → c ≡ d
rts_code_injective c d e = ground arith

-- The values that windows_sys gives the controls, with one speed for all.
abbrev comm_codes : CommCodes
comm_codes = record {
  dtr_code = dtr_code;
  rts_code = rts_code;
  parity_code = parity_code;
  baud_code = λ b. 115200;
  stop_code = stop_code;
  dtr_code-lt = dtr_code-lt;
  rts_code-lt = rts_code-lt;
  dtr_code_injective = dtr_code_injective;
  rts_code_injective = rts_code_injective;
}

abbrev a_dcb : Dcb
a_dcb = record {
  baud_rate = 9600;
  bitfield = 0xFFFF;
  byte_size = 7;
  parity = 2;
  stop_bits = 2;
  xon_char = 0;
  xoff_char = 0;
  error_char = 1;
  eof_char = 0;
  xon_lim = 2048;
  xoff_lim = 512;
  evt_char = 0;
}

abbrev with_hardware : DeviceControlSettings
with_hardware = record default { flow_control = hardware }

configured-HasFlags_example :
    HasFlags comm_codes hardware 0xFFFF (configured comm_codes with_hardware a_dcb).bitfield
    × ((configured comm_codes with_hardware a_dcb).baud_rate ≡ 115200)
    × ((configured comm_codes with_hardware a_dcb).byte_size ≡ 8)
    × ((configured comm_codes with_hardware a_dcb).parity ≡ 0)
    × ((configured comm_codes with_hardware a_dcb).stop_bits ≡ 0)
configured-HasFlags_example = Written.configured-HasFlags comm_codes with_hardware a_dcb

-- Two flags and both controls are set in a word, one flag twice.
abbrev setters : List Setter
setters =
    flag out_x true ∷ dtr DtrControl.handshake ∷ rts toggle ∷ flag null true ∷ flag out_x false ∷ []

apply_all-fields_example :
    Fields.fields_of comm_codes (apply_all comm_codes setters 0xFFFF)
    ≡ Fields.set_fields setters (Fields.fields_of comm_codes 0xFFFF)
apply_all-fields_example = Fields.apply_all-fields comm_codes setters 0xFFFF
