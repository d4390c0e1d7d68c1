-- ===== src/Runtime/Usb/Configure.antt =====
-- `configure` of crates/runtime/src/usb/mod.rs: the control block that a serial port gets, and the
-- order of the kernel calls. The kernel's answers are a parameter.
mod Writes
pub mod Written
use msft.Runtime.Usb.{
  set_flag, DtrControl, RtsControl, FlowControl, hardware, software, CommCodes,
  DeviceControlSettings,
}
use msft.Runtime.Usb.Controls.{set_dtr_control, set_rts_control}
use msft.Runtime.Usb.Position
use msft.Prelude.{
  ℕ, Bool, true, false, Option, none, some, Result, ok, err, List, [], ◌∷◌, if◌then◌else◌,
}

-- The fields of `DCB` that the code names; the last three it only prints.
pub record Dcb : Type 0 where
  pub baud_rate : ℕ
  pub bitfield : ℕ
  pub byte_size : ℕ
  pub parity : ℕ
  pub stop_bits : ℕ
  pub xon_char : ℕ
  pub xoff_char : ℕ
  pub error_char : ℕ
  pub eof_char : ℕ
  pub xon_lim : ℕ
  pub xoff_lim : ℕ
  pub evt_char : ℕ

pub record CommTimeouts : Type 0 where
  pub read_interval_timeout : ℕ
  pub read_total_timeout_multiplier : ℕ
  pub read_total_timeout_constant : ℕ
  pub write_total_timeout_constant : ℕ
  pub write_total_timeout_multiplier : ℕ

-- How the kernel answers for one port: the control block that `GetCommState` fills in, if it does,
-- whether the two setters succeed, and the code of `last_os_error` after a failure.
pub record Port : Type 0 where
  pub comm_state : Option Dcb
  pub accepts_state : Dcb → Bool
  pub accepts_timeouts : CommTimeouts → Bool
  pub last_os_error : ℕ

-- The kernel calls that change the port.
pub data Call : Type 0 where
  set_comm_state : Dcb → Call
  set_comm_timeouts : CommTimeouts → Call

abbrev pub timeouts : CommTimeouts
timeouts = record {
  read_interval_timeout = 100;
  read_total_timeout_multiplier = 0;
  read_total_timeout_constant = 0;
  write_total_timeout_constant = 0;
  write_total_timeout_multiplier = 0;
}

abbrev pub set_up : Port → Dcb → Result (Unit {0}) ℕ × List Call
set_up port dcb =
    if port.accepts_state dcb
    then (
      if port.accepts_timeouts timeouts then ok tt else err port.last_os_error,
      set_comm_state dcb ∷ set_comm_timeouts timeouts ∷ [],
    )
    else (err port.last_os_error, set_comm_state dcb ∷ [])

module _ (codes : CommCodes) where
  unfoldable pub flow_flags : FlowControl → ℕ → ℕ
  flow_flags FlowControl.none x = set_flag Position.in_x false (
      set_flag Position.out_x false
        (set_rts_control codes RtsControl.disable (set_flag Position.outx_cts_flow false x)))
  flow_flags software x = set_flag Position.in_x true (
      set_flag Position.out_x true
        (set_rts_control codes RtsControl.disable (set_flag Position.outx_cts_flow false x)))
  flow_flags hardware x = set_flag Position.in_x false (
      set_flag Position.out_x false
        (set_rts_control codes RtsControl.enable (set_flag Position.outx_cts_flow true x)))

  unfoldable pub default_flags : ℕ → ℕ
  default_flags x = set_flag Position.abort_on_error false (
      set_flag Position.null false (
        set_flag Position.error_char false (
          set_flag Position.dsr_sensitivity false (
            set_dtr_control codes DtrControl.enable
              (set_flag Position.outx_dsr_flow false (set_flag Position.binary true x))))))

  unfoldable pub configured : DeviceControlSettings → Dcb → Dcb
  unfolding default_flags flow_flags
  configured config dcb = record dcb {
    xon_char = 17;
    xoff_char = 19;
    error_char = 0;
    eof_char = 26;
    bitfield = flow_flags config.flow_control (default_flags dcb.bitfield);
    baud_rate = codes.baud_code config.baud;
    byte_size = config.bytes;
    parity = codes.parity_code config.parity;
    stop_bits = codes.stop_code config.stop;
  }

  abbrev configure_from :
      Port → DeviceControlSettings → Option Dcb → Result (Unit {0}) ℕ × List Call
  configure_from port config none = (err port.last_os_error, [])
  configure_from port config (some dcb) = set_up port (configured config dcb)

  -- The handle that the source returns is the one that it was given.
  unfoldable pub configure : Port → DeviceControlSettings → Result (Unit {0}) ℕ × List Call
  configure port config = configure_from port config port.comm_state
