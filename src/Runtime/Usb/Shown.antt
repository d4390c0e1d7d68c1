-- ===== src/Runtime/Usb/Shown.antt =====
-- crates/runtime/src/usb/mod.rs: what `Debug` prints of the flags and of a control block, as the values of
-- its fields. A label or a number is printed by the standard library.
pub mod Configured
use msft.Runtime.Usb.Configure.{Dcb}
use msft.Runtime.Usb.Controls.{get_dtr_control, get_rts_control}
use msft.Runtime.Usb.Position
use msft.Runtime.Usb.{
  get_flag, DtrControl, RtsControl, Parity, even, odd, mark, space, Baud, cbr_110, cbr_300, cbr_600,
  cbr_1200, cbr_2400, cbr_4800, cbr_9600, cbr_14400, cbr_19200, cbr_38400, cbr_57600, cbr_115200,
  cbr_128000, cbr_256000, Stop, one, one5, two, CommCodes,
}
use msft.Prelude.{ℕ, Bool, List, [], ◌∷◌, Option, none, some, Faulty, ◌==◌, if◌then◌else◌}

-- `FromPrimitive` as it is derived: the first variant with this discriminant.
unfoldable pub from_code : {A : Type 0} → (A → ℕ) → List A → ℕ → Option A
from_code code [] n = none
from_code code (a ∷ as') n = let rest = from_code code as' n in if n == code a then some a else rest

abbrev pub bauds : List Baud
bauds =
    cbr_110 ∷ cbr_300 ∷ cbr_600 ∷ cbr_1200 ∷ cbr_2400 ∷ cbr_4800 ∷ cbr_9600 ∷ cbr_14400 ∷ cbr_19200
    ∷ cbr_38400 ∷ cbr_57600 ∷ cbr_115200 ∷ cbr_128000 ∷ cbr_256000 ∷ []

abbrev pub parities : List Parity
parities = Parity.none ∷ even ∷ odd ∷ mark ∷ space ∷ []

abbrev pub stops : List Stop
stops = one ∷ one5 ∷ two ∷ []

-- The fields of `DcbFlags` that are printed.
pub record FlagsShown : Type 0 where
  pub binary : Bool
  pub parity : Bool
  pub outx_cts_flow : Bool
  pub outx_dsr_flow : Bool
  pub dsr_sensitivity : Bool
  pub out_x : Bool
  pub error_char : Bool
  pub null : Bool
  pub abort_on_error : Bool
  pub dtr_control : DtrControl
  pub rts_control : RtsControl

pub record DcbShown : Type 0 where
  pub baud : Baud
  pub parity : Parity
  pub stop : Stop
  pub flags : FlagsShown
  pub byte_size : ℕ
  pub xon_lim : ℕ
  pub xoff_lim : ℕ
  pub xon_char : ℕ
  pub xoff_char : ℕ
  pub error_char : ℕ
  pub eof_char : ℕ
  pub evt_char : ℕ

module _ (codes : CommCodes) where
  abbrev flags_with : ℕ → Faulty DtrControl → Faulty RtsControl → Faulty FlagsShown
  flags_with x none r = none
  flags_with x (some d) none = none
  flags_with x (some d) (some r) = some (record {
    binary = get_flag Position.binary x;
    parity = get_flag Position.parity x;
    outx_cts_flow = get_flag Position.outx_cts_flow x;
    outx_dsr_flow = get_flag Position.outx_dsr_flow x;
    dsr_sensitivity = get_flag Position.dsr_sensitivity x;
    out_x = get_flag Position.out_x x;
    error_char = get_flag Position.error_char x;
    null = get_flag Position.null x;
    abort_on_error = get_flag Position.abort_on_error x;
    dtr_control = d;
    rts_control = r;
  })

  -- `DcbFlags::fmt`; `none` where a getter is undefined.
  unfoldable pub flags_shown : ℕ → Faulty FlagsShown
  flags_shown x = flags_with x (get_dtr_control codes x) (get_rts_control codes x)

  abbrev dcb_with : Dcb → Baud → Parity → Stop → Faulty FlagsShown → Faulty (Option DcbShown)
  dcb_with d b p s none = none
  dcb_with d b p s (some f) = some (
      some (record {
        baud = b;
        parity = p;
        stop = s;
        flags = f;
        byte_size = d.byte_size;
        xon_lim = d.xon_lim;
        xoff_lim = d.xoff_lim;
        xon_char = d.xon_char;
        xoff_char = d.xoff_char;
        error_char = d.error_char;
        eof_char = d.eof_char;
        evt_char = d.evt_char;
      }))

  abbrev known_with :
      Dcb → Option Baud → Option Parity → Option Stop → Faulty FlagsShown → Faulty (Option DcbShown)
  known_with d none p s f = some none
  known_with d (some b) none s f = some none
  known_with d (some b) (some p) none f = some none
  known_with d (some b) (some p) (some s) f = dcb_with d b p s f

  -- `Dcb::fmt`: an error, `some none`, where the baud rate, the parity or the stop bits are no variants.
  unfoldable pub dcb_shown : Dcb → Faulty (Option DcbShown)
  unfolding flags_shown from_code
  dcb_shown d =
      known_with d (from_code codes.baud_code bauds d.baud_rate)
        (from_code codes.parity_code parities d.parity)
        (from_code codes.stop_code stops d.stop_bits) (flags_shown d.bitfield)
