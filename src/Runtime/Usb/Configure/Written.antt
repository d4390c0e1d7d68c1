-- ===== src/Runtime/Usb/Configure/Written.antt =====
-- The control block that `configure` of crates/runtime/src/usb/mod.rs writes.
use msft.Runtime.Usb.{
  get_flag, DtrControl, RtsControl, FlowControl, software, hardware, CommCodes,
  DeviceControlSettings,
}
use msft.Runtime.Usb.Controls.{get_dtr_control, get_rts_control}
use msft.Runtime.Usb.Configure.{Dcb, configured}
use msft.Runtime.Usb.Position
use msft.Runtime.Usb.Configure.Writes.{
  writes, all_writes, is_flag, flag_after, get_flag-writes, get_dtr-writes, get_rts-writes,
  flags-writes,
}
use msft.Prelude.{ℕ, ◌≡◌, Bool, true, false, some, arith, refl, if◌then◌else◌}

abbrev pub is_software : FlowControl → Bool
is_software software = true
is_software _ = false

abbrev pub is_hardware : FlowControl → Bool
is_hardware hardware = true
is_hardware _ = false

-- The flags that a configured control block has, against the flags that it had.
pub record HasFlags (codes : CommCodes) (flow : FlowControl) (before after : ℕ) : Type 0 where
  pub binary : get_flag Position.binary after ≡ true
  pub outx_cts_flow : get_flag Position.outx_cts_flow after ≡ is_hardware flow
  pub outx_dsr_flow : get_flag Position.outx_dsr_flow after ≡ false
  pub dsr_sensitivity : get_flag Position.dsr_sensitivity after ≡ false
  pub out_x : get_flag Position.out_x after ≡ is_software flow
  pub in_x : get_flag Position.in_x after ≡ is_software flow
  pub error_char : get_flag Position.error_char after ≡ false
  pub null : get_flag Position.null after ≡ false
  pub abort_on_error : get_flag Position.abort_on_error after ≡ false
  pub parity : get_flag Position.parity after ≡ get_flag Position.parity before
  pub tx_continue_on_xoff :
      get_flag Position.tx_continue_on_xoff after ≡ get_flag Position.tx_continue_on_xoff before
  pub dtr_control : get_dtr_control codes after ≡ some DtrControl.enable
  pub rts_control :
      get_rts_control codes after
      ≡ some (if is_hardware flow then RtsControl.enable else RtsControl.disable)

module _ (codes : CommCodes) (x : ℕ) where
  written-flag :
      (flow : FlowControl) (j : ℕ)
      → is_flag j ≡ true
      → get_flag j (writes codes (all_writes flow) x)
        ≡ flag_after j (all_writes flow) (get_flag j x)
  written-flag FlowControl.none j h = get_flag-writes codes j (all_writes FlowControl.none) x h refl
  written-flag software j h = get_flag-writes codes j (all_writes software) x h refl
  written-flag hardware j h = get_flag-writes codes j (all_writes hardware) x h refl

  writes-HasFlags : (flow : FlowControl) → HasFlags codes flow x (writes codes (all_writes flow) x)
  writes-HasFlags flow = record {
    binary = ground (arith, written-flag flow Position.binary refl);
    outx_cts_flow = ground (arith, written-flag flow Position.outx_cts_flow refl);
    outx_dsr_flow = ground (arith, written-flag flow Position.outx_dsr_flow refl);
    dsr_sensitivity = ground (arith, written-flag flow Position.dsr_sensitivity refl);
    out_x = ground (arith, written-flag flow Position.out_x refl);
    in_x = ground (arith, written-flag flow Position.in_x refl);
    error_char = ground (arith, written-flag flow Position.error_char refl);
    null = ground (arith, written-flag flow Position.null refl);
    abort_on_error = ground (arith, written-flag flow Position.abort_on_error refl);
    parity = ground (arith, written-flag flow Position.parity refl);
    tx_continue_on_xoff = ground (arith, written-flag flow Position.tx_continue_on_xoff refl);
    dtr_control = written-dtr flow;
    rts_control = written-rts flow;
  }
    where
      written-dtr :
          (f : FlowControl)
          → get_dtr_control codes (writes codes (all_writes f) x) ≡ some DtrControl.enable
      written-dtr FlowControl.none = get_dtr-writes codes (all_writes FlowControl.none) x refl
      written-dtr software = get_dtr-writes codes (all_writes software) x refl
      written-dtr hardware = get_dtr-writes codes (all_writes hardware) x refl

      written-rts :
          (f : FlowControl)
          → get_rts_control codes (writes codes (all_writes f) x)
            ≡ some (if is_hardware f then RtsControl.enable else RtsControl.disable)
      written-rts FlowControl.none = get_rts-writes codes (all_writes FlowControl.none) x refl
      written-rts software = get_rts-writes codes (all_writes software) x refl
      written-rts hardware = get_rts-writes codes (all_writes hardware) x refl

-- Whatever flags the port had, a configured control block has the flags that the flow control asks
-- for, keeps the parity flag and the continue-on-xoff flag, and holds the settings.
pub configured-HasFlags :
    (codes : CommCodes) (config : DeviceControlSettings) (dcb : Dcb)
    → let d = configured codes config dcb in
      HasFlags codes config.flow_control dcb.bitfield d.bitfield
      × (d.baud_rate ≡ codes.baud_code config.baud)
      × (d.byte_size ≡ config.bytes)
      × (d.parity ≡ codes.parity_code config.parity)
      × (d.stop_bits ≡ codes.stop_code config.stop)
unfolding configured
configured-HasFlags codes config dcb = (
  rw (flags-writes codes config.flow_control dcb.bitfield)
      (writes-HasFlags codes dcb.bitfield config.flow_control),
  refl,
  refl,
  refl,
  refl,
)
