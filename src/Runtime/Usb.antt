-- ===== src/Runtime/Usb.antt =====
-- crates/runtime/src/usb/mod.rs: the flags of a device control block, packed in a u32, and the
-- configuration of a serial port.
pub mod Flags
pub mod Position
pub mod Controls
pub mod Configure
pub mod DcbFlags
pub mod Shown
use Prim.Native.Nat.{bit_and, bit_or}
use msft.Prelude.{ℕ, ◌-◌, ◌*◌, ◌/◌, ◌^◌, ◌≡◌, ◌<◌, Bool, true, false, ltb}

-- `!m` of a u32.
abbrev pub complement : ℕ → ℕ
complement m = 2 ^ 32 - 1 - m

-- The two arms of `impl_set_bits!`, at a position below 32.
unfoldable pub set_flag : ℕ → Bool → ℕ → ℕ
set_flag offset true flags = bit_or flags (1 * 2 ^ offset)
set_flag offset false flags = bit_and flags (complement (1 * 2 ^ offset))

unfoldable pub set_control : ℕ → ℕ → ℕ → ℕ
set_control offset val flags =
    bit_or (bit_and flags (complement (3 * 2 ^ offset))) (val * 2 ^ offset)

-- The two arms of `impl_get_bits!`, the second before the number is read as a control.
unfoldable pub get_flag : ℕ → ℕ → Bool
get_flag offset flags = ltb 0 (bit_and flags (1 * 2 ^ offset))

unfoldable pub get_control : ℕ → ℕ → ℕ
get_control offset flags = bit_and flags (3 * 2 ^ offset) / 2 ^ offset

pub data DtrControl : Type 0 where
  disable enable handshake : DtrControl

pub data RtsControl : Type 0 where
  disable enable handshake toggle : RtsControl

pub data Parity : Type 0 where
  none even odd mark space : Parity

pub data Baud : Type 0 where
  cbr_110 cbr_300 cbr_600 cbr_1200 cbr_2400 cbr_4800 cbr_9600 cbr_14400 cbr_19200 cbr_38400 : Baud
  cbr_57600 cbr_115200 cbr_128000 cbr_256000 : Baud

pub data Stop : Type 0 where
  one one5 two : Stop

pub data FlowControl : Type 0 where
  none software hardware : FlowControl

-- The constants of windows_sys that are the discriminants of these types (`raw`, and the `as` casts),
-- with what the bit fields rely on: the controls have different codes of two bits.
pub record CommCodes : Type 0 where
  pub dtr_code : DtrControl → ℕ
  pub rts_code : RtsControl → ℕ
  pub parity_code : Parity → ℕ
  pub baud_code : Baud → ℕ
  pub stop_code : Stop → ℕ
  pub dtr_code-lt : (c : DtrControl) → dtr_code c < 4
  pub rts_code-lt : (c : RtsControl) → rts_code c < 4
  pub dtr_code_injective : (c d : DtrControl) → dtr_code c ≡ dtr_code d → c ≡ d
  pub rts_code_injective : (c d : RtsControl) → rts_code c ≡ rts_code d → c ≡ d

pub record DeviceControlSettings : Type 0 where
  pub baud : Baud
  pub bytes : ℕ
  pub parity : Parity
  pub stop : Stop
  pub flow_control : FlowControl

abbrev pub default : DeviceControlSettings
default = record {
  baud = cbr_115200;
  bytes = 8;
  parity = Parity.none;
  stop = Stop.one;
  flow_control = FlowControl.none;
}
