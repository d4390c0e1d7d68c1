-- ===== src/Runtime/Usb/Position.antt =====
-- The positions of the flags: the constants of `DcbFlags` in crates/runtime/src/usb/mod.rs.
use msft.Prelude.{ℕ}

abbrev pub binary : ℕ
binary = 0x00

abbrev pub parity : ℕ
parity = 0x01

abbrev pub outx_cts_flow : ℕ
outx_cts_flow = 0x02

abbrev pub outx_dsr_flow : ℕ
outx_dsr_flow = 0x03

abbrev pub dtr_control : ℕ
dtr_control = 0x04

abbrev pub dsr_sensitivity : ℕ
dsr_sensitivity = 0x06

abbrev pub tx_continue_on_xoff : ℕ
tx_continue_on_xoff = 0x07

abbrev pub out_x : ℕ
out_x = 0x08

abbrev pub in_x : ℕ
in_x = 0x09

abbrev pub error_char : ℕ
error_char = 0x0A

abbrev pub null : ℕ
null = 0x0B

abbrev pub rts_control : ℕ
rts_control = 0x0C

abbrev pub abort_on_error : ℕ
abort_on_error = 0x0E
