-- ===== src/Runtime/Usb/Controls.antt =====
-- The DTR and RTS controls in the flags of a device control block (crates/runtime/src/usb/mod.rs).
use msft.Runtime.Usb.{
  set_control, get_control, DtrControl, disable, enable, handshake, RtsControl, toggle, CommCodes,
}
use msft.Runtime.Usb.Flags.{get_control-set_control_same, get_control-set_control_apart}
use msft.Runtime.Usb.Position
use msft.Prelude.{
  ℕ, ◌≡◌, ◌≢◌, ◌<◌, Option, none, some, Faulty, arith, ◌==◌, if◌then◌else◌, inl, inr, refl,
}

-- `FromPrimitive`: the constructor with that discriminant, the first one first.
unfoldable pub dtr_from_u32 : CommCodes → ℕ → Option DtrControl
dtr_from_u32 codes n =
    if n == codes.dtr_code DtrControl.disable
    then some DtrControl.disable
    else if n == codes.dtr_code DtrControl.enable
    then some DtrControl.enable
    else if n == codes.dtr_code DtrControl.handshake
    then some DtrControl.handshake
    else none

unfoldable pub rts_from_u32 : CommCodes → ℕ → Option RtsControl
rts_from_u32 codes n =
    if n == codes.rts_code RtsControl.disable
    then some RtsControl.disable
    else if n == codes.rts_code RtsControl.enable
    then some RtsControl.enable
    else if n == codes.rts_code RtsControl.handshake
    then some RtsControl.handshake
    else if n == codes.rts_code RtsControl.toggle
    then some RtsControl.toggle
    else none

unfoldable pub set_dtr_control : CommCodes → DtrControl → ℕ → ℕ
set_dtr_control codes c = set_control Position.dtr_control (codes.dtr_code c)

unfoldable pub set_rts_control : CommCodes → RtsControl → ℕ → ℕ
set_rts_control codes c = set_control Position.rts_control (codes.rts_code c)

-- `unwrap_unchecked` of a value that is none of the enumeration is undefined: `none`.
unfoldable pub get_dtr_control : CommCodes → ℕ → Faulty DtrControl
get_dtr_control codes flags = dtr_from_u32 codes (get_control Position.dtr_control flags)

unfoldable pub get_rts_control : CommCodes → ℕ → Faulty RtsControl
get_rts_control codes flags = rts_from_u32 codes (get_control Position.rts_control flags)

dtr_from_u32-dtr_code :
    (codes : CommCodes) (c : DtrControl) → dtr_from_u32 codes (codes.dtr_code c) ≡ some c
unfolding dtr_from_u32
dtr_from_u32-dtr_code codes disable = ground arith
dtr_from_u32-dtr_code codes enable = ground (arith, codes.dtr_code_injective enable disable)
dtr_from_u32-dtr_code codes handshake =
    ground
      (arith, codes.dtr_code_injective handshake disable, codes.dtr_code_injective handshake enable)

rts_from_u32-rts_code :
    (codes : CommCodes) (c : RtsControl) → rts_from_u32 codes (codes.rts_code c) ≡ some c
unfolding rts_from_u32
rts_from_u32-rts_code codes RtsControl.disable = ground arith
rts_from_u32-rts_code codes RtsControl.enable =
    ground (arith, codes.rts_code_injective RtsControl.enable RtsControl.disable)
rts_from_u32-rts_code codes RtsControl.handshake = ground (
  arith,
  codes.rts_code_injective RtsControl.handshake RtsControl.disable,
  codes.rts_code_injective RtsControl.handshake RtsControl.enable,
)
rts_from_u32-rts_code codes toggle = ground (
  arith,
  codes.rts_code_injective toggle RtsControl.disable,
  codes.rts_code_injective toggle RtsControl.enable,
  codes.rts_code_injective toggle RtsControl.handshake,
)

-- Each control reads back as it was set, in any flags, and leaves the other control as it was.
pub controls-read_back :
    (codes : CommCodes) (d : DtrControl) (r : RtsControl) (flags : ℕ)
    → (get_dtr_control codes (set_dtr_control codes d flags) ≡ some d)
      × (get_rts_control codes (set_rts_control codes r flags) ≡ some r)
      × (get_rts_control codes (set_dtr_control codes d flags) ≡ get_rts_control codes flags)
      × (get_dtr_control codes (set_rts_control codes r flags) ≡ get_dtr_control codes flags)
unfolding get_dtr_control get_rts_control set_dtr_control set_rts_control
controls-read_back codes d r flags = (
  rw (get_control-set_control_same 4 (codes.dtr_code d) flags (omega arith) (codes.dtr_code-lt d))
      (dtr_from_u32-dtr_code codes d),
  rw (get_control-set_control_same 12 (codes.rts_code r) flags (omega arith) (codes.rts_code-lt r))
      (rts_from_u32-rts_code codes r),
  rw
      (get_control-set_control_apart 12 4 (codes.dtr_code d) flags (omega arith) (omega arith)
        (codes.dtr_code-lt d) (inr (omega arith)))
      refl,
  rw
      (get_control-set_control_apart 4 12 (codes.rts_code r) flags (omega arith) (omega arith)
        (codes.rts_code-lt r) (inl (omega arith)))
      refl,
)

-- A two-bit value that is no DTR control can stand in the flags, since they are any u32: there the
-- getter's `unwrap_unchecked` is undefined.
pub get_dtr_control_undefined :
    (codes : CommCodes) (raw flags : ℕ)
    → raw < 4
    → ((c : DtrControl) → raw ≢ codes.dtr_code c)
    → get_dtr_control codes (set_control Position.dtr_control raw flags) ≡ none
unfolding get_dtr_control dtr_from_u32
get_dtr_control_undefined codes raw flags small no_code =
    rw (get_control-set_control_same 4 raw flags (omega arith) small) (
      ground (
        arith,
        no_code DtrControl.disable,
        no_code DtrControl.enable,
        no_code DtrControl.handshake,
      ))
