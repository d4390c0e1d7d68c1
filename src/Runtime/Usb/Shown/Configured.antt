-- ===== src/Runtime/Usb/Shown/Configured.antt =====
-- Printing a control block that is configured (crates/runtime/src/usb/mod.rs).
use msft.Runtime.Usb.Shown.{from_code, bauds, parities, stops, flags_shown, dcb_shown, FlagsShown}
use msft.Runtime.Usb.{
  Parity, Baud, cbr_110, Stop, one, CommCodes, FlowControl, get_flag, DeviceControlSettings,
  DtrControl, RtsControl,
}
use msft.Runtime.Usb.Position
use msft.Runtime.Usb.Configure.Written.{HasFlags, configured-HasFlags, is_hardware, is_software}
use msft.Runtime.Usb.Configure.{Dcb, configured}
use msft.Prelude.{
  ℕ, ◌≡◌, ◌⊎◌, inl, inr, List, [], ◌∷◌, some, ◌==◌, refl, arith, Bool-cases, ap, true, false,
  if◌then◌else◌,
}

-- The discriminants that windows_sys gives differ.
pub record Distinct (codes : CommCodes) : Type 0 where
  pub baud : (a b : Baud) → codes.baud_code a ≡ codes.baud_code b → a ≡ b
  pub parity : (a b : Parity) → codes.parity_code a ≡ codes.parity_code b → a ≡ b
  pub stop : (a b : Stop) → codes.stop_code a ≡ codes.stop_code b → a ≡ b

abbrev In : {A : Type 0} → A → List A → Type 0
In a [] = ⊥
In a (b ∷ bs) = (b ≡ a) ⊎ In a bs

from_code-code :
    {A : Type 0} (code : A → ℕ) (a : A) (l : List A)
    → ((b c : A) → code b ≡ code c → b ≡ c)
    → In a l
    → from_code code l (code a) ≡ some a
unfolding from_code
from_code-code code a [] inj h = elim h [ ]
from_code-code code a (b ∷ bs) inj h = elim (Bool-cases (code a == code b)) [
  | inl e ↦ rw e (ap some (inj b a (ground arith)))
  | inr e ↦ rw e (from_code-code code a bs inj (ground arith))
]

baud-In : (b : Baud) → In b bauds
baud-In cbr_110 = inl refl
baud-In _ = ground arith

parity-In : (p : Parity) → In p parities
parity-In Parity.none = inl refl
parity-In _ = ground arith

stop-In : (s : Stop) → In s stops
stop-In one = inl refl
stop-In _ = ground arith

-- The flags of a configured control block as they are printed, by its flow control.
abbrev pub flags_of : (codes : CommCodes) → FlowControl → (before : ℕ) → FlagsShown
flags_of codes flow before = record {
  binary = true;
  parity = get_flag Position.parity before;
  outx_cts_flow = is_hardware flow;
  outx_dsr_flow = false;
  dsr_sensitivity = false;
  out_x = is_software flow;
  error_char = false;
  null = false;
  abort_on_error = false;
  dtr_control = DtrControl.enable;
  rts_control = if is_hardware flow then RtsControl.enable else RtsControl.disable;
}

flags_shown-HasFlags :
    (codes : CommCodes) (flow : FlowControl) (before after : ℕ)
    → HasFlags codes flow before after
    → flags_shown codes after ≡ some (flags_of codes flow before)
unfolding flags_shown
flags_shown-HasFlags codes flow before after h =
    rw
      (
        h.dtr_control, h.rts_control, h.binary, h.parity, h.outx_cts_flow, h.outx_dsr_flow,
        h.dsr_sensitivity, h.out_x, h.error_char, h.null, h.abort_on_error,
      )
      refl

-- A control block that is configured can be printed, whatever flags the port had: no getter is undefined
-- and there is no error; what is printed are the settings, the flags that the flow control asks for, the
-- parity flag and the limits as the port had them, and the characters that `configure` writes.
pub configured-shown :
    (codes : CommCodes) (distinct : Distinct codes) (config : DeviceControlSettings) (dcb : Dcb)
    → dcb_shown codes (configured codes config dcb)
      ≡ some (
          some (record {
            baud = config.baud;
            parity = config.parity;
            stop = config.stop;
            flags = flags_of codes config.flow_control dcb.bitfield;
            byte_size = config.bytes;
            xon_lim = dcb.xon_lim;
            xoff_lim = dcb.xoff_lim;
            xon_char = 17;
            xoff_char = 19;
            error_char = 0;
            eof_char = 26;
            evt_char = dcb.evt_char;
          }))
unfolding dcb_shown configured
configured-shown codes distinct config dcb =
    let (flags, b, y, p, s) = configured-HasFlags codes config dcb in
    rw
      (
        from_code-code codes.baud_code config.baud bauds distinct.baud (baud-In config.baud),
        from_code-code codes.parity_code config.parity parities distinct.parity
            (parity-In config.parity),
        from_code-code codes.stop_code config.stop stops distinct.stop (stop-In config.stop),
        flags_shown-HasFlags codes config.flow_control dcb.bitfield
            (configured codes config dcb).bitfield flags,
      )
      refl
