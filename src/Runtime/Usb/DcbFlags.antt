-- ===== src/Runtime/Usb/DcbFlags.antt =====
-- crates/runtime/src/usb/mod.rs: `DcbFlags`, with the setters and the getters that its macros make.
pub mod Fields
use msft.Runtime.Usb.{DtrControl, RtsControl, CommCodes, set_flag, get_flag}
use msft.Runtime.Usb.Controls.{set_dtr_control, set_rts_control, get_dtr_control, get_rts_control}
use msft.Runtime.Usb.Position
use msft.Prelude.{ℕ, Bool, List, [], ◌∷◌}

-- The flags of one bit.
pub data Flag : Type 0 where
  binary parity outx_cts_flow outx_dsr_flow dsr_sensitivity tx_continue_on_xoff out_x in_x : Flag
  error_char null abort_on_error : Flag

abbrev pub position_of : Flag → ℕ
position_of binary = Position.binary
position_of parity = Position.parity
position_of outx_cts_flow = Position.outx_cts_flow
position_of outx_dsr_flow = Position.outx_dsr_flow
position_of dsr_sensitivity = Position.dsr_sensitivity
position_of tx_continue_on_xoff = Position.tx_continue_on_xoff
position_of out_x = Position.out_x
position_of in_x = Position.in_x
position_of error_char = Position.error_char
position_of null = Position.null
position_of abort_on_error = Position.abort_on_error

-- `DcbFlags::new` and `DcbFlags::value`: the flags are the u32.
abbrev pub new : ℕ → ℕ
new val = val

abbrev pub value : ℕ → ℕ
value flags = flags

-- The setter and the getter of each flag.
abbrev pub set_f : Flag → Bool → ℕ → ℕ
set_f f val flags = set_flag (position_of f) val flags

abbrev pub get_f : Flag → ℕ → Bool
get_f f flags = get_flag (position_of f) flags

-- A call of a setter.
pub data Setter : Type 0 where
  flag : Flag → Bool → Setter
  dtr : DtrControl → Setter
  rts : RtsControl → Setter

module _ (codes : CommCodes) where
  abbrev pub apply : Setter → ℕ → ℕ
  apply (flag f v) x = set_f f v x
  apply (dtr c) x = set_dtr_control codes c x
  apply (rts c) x = set_rts_control codes c x

  abbrev pub apply_all : List Setter → ℕ → ℕ
  apply_all [] x = x
  apply_all (s ∷ ss) x = apply_all ss (apply s x)
