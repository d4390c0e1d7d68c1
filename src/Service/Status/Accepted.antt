-- ===== src/Service/Status/Accepted.antt =====
-- What a service that crates/service/src/status.rs registers reports to accept.
use msft.Prelude.Bits.{bit, bit-zero, bit-pow, bit-bit_or}
use msft.Prelude.Bits.{bit, bit-bit_or, bit-pow, bit-zero}
use msft.Service.Status.{
  CurrentState, ServiceControlAccept, ServiceStatus, ServiceType, StatusCodes, StatusHandle, bits,
  new, set_check_point, set_control_accept, set_current_state, set_exit_code, set_service_exit_code,
  set_service_type, set_status, set_wait_hint,
}
use msft.Prelude.{
  Bool, List, [], arith, err, false, if◌then◌else◌, ok, refl, ℕ, ◌==◌, ◌^◌, ◌||◌, ◌∷◌, ◌≡◌,
}

-- One call of a setter.
pub data Setting : Type 0 where
  setting_type : List ServiceType → Setting
  setting_state : List CurrentState → Setting
  setting_accept : List ServiceControlAccept → Setting
  setting_hint setting_check_point setting_exit setting_service_exit : ℕ → Setting

abbrev pub apply : StatusCodes → StatusHandle → Setting → StatusHandle
apply codes h (setting_type ty) = set_service_type codes h ty
apply codes h (setting_state state) = set_current_state codes h state
apply codes h (setting_accept accepted) = set_control_accept codes h accepted
apply codes h (setting_hint n) = set_wait_hint h n
apply codes h (setting_check_point n) = set_check_point h n
apply codes h (setting_exit n) = set_exit_code h n
apply codes h (setting_service_exit n) = set_service_exit_code h n

abbrev pub apply_all : StatusCodes → StatusHandle → List Setting → StatusHandle
apply_all codes h [] = h
apply_all codes h (s ∷ ss) = apply_all codes (apply codes h s) ss

-- The controls of the last call of `set_control_accept`.
abbrev pub last_accept : List Setting → List ServiceControlAccept → List ServiceControlAccept
last_accept [] now = now
last_accept (setting_accept fs ∷ ss) now = last_accept ss fs
last_accept (setting_type t ∷ ss) now = last_accept ss now
last_accept (setting_state t ∷ ss) now = last_accept ss now
last_accept (setting_hint n ∷ ss) now = last_accept ss now
last_accept (setting_check_point n ∷ ss) now = last_accept ss now
last_accept (setting_exit n ∷ ss) now = last_accept ss now
last_accept (setting_service_exit n ∷ ss) now = last_accept ss now

-- The controls have bits of their own: the place of each.
abbrev pub OwnBits : StatusCodes → (ServiceControlAccept → ℕ) → Type 0
OwnBits codes place = (f : ServiceControlAccept) → codes.accept f ≡ 2 ^ place f

abbrev pub among :
    (ServiceControlAccept → ℕ) → ServiceControlAccept → List ServiceControlAccept → Bool
among place f [] = false
among place f (g ∷ gs) = place f == place g || among place f gs

bits-among :
    (codes : StatusCodes) (place : ServiceControlAccept → ℕ) (f : ServiceControlAccept)
    (fs : List ServiceControlAccept)
    → OwnBits codes place
    → bit (place f) (bits codes.accept fs) ≡ (if among place f fs then 1 else 0)
bits-among codes place f [] own = bit-zero (place f)
bits-among codes place f (g ∷ fs) own = rw (own g) (
    ground (
      arith,
      bit-bit_or (place f) (2 ^ place g) (bits codes.accept fs),
      bit-pow (place f) (place g),
      bits-among codes place f fs own,
    ))

apply_all-accepted :
    (codes : StatusCodes) (h : StatusHandle) (fs : List ServiceControlAccept) (ss : List Setting)
    → h.status.controls_accepted ≡ bits codes.accept fs
    → ((apply_all codes h ss).status.controls_accepted ≡ bits codes.accept (last_accept ss fs))
      × ((apply_all codes h ss).handle ≡ h.handle)
apply_all-accepted codes h fs [] e = (e, refl)
apply_all-accepted codes h fs (setting_accept gs ∷ ss) e =
    apply_all-accepted codes (set_control_accept codes h gs) gs ss refl
apply_all-accepted codes h fs (setting_type t ∷ ss) e =
    apply_all-accepted codes (apply codes h (setting_type t)) fs ss e
apply_all-accepted codes h fs (setting_state t ∷ ss) e =
    apply_all-accepted codes (apply codes h (setting_state t)) fs ss e
apply_all-accepted codes h fs (setting_hint t ∷ ss) e =
    apply_all-accepted codes (apply codes h (setting_hint t)) fs ss e
apply_all-accepted codes h fs (setting_check_point t ∷ ss) e =
    apply_all-accepted codes (apply codes h (setting_check_point t)) fs ss e
apply_all-accepted codes h fs (setting_exit t ∷ ss) e =
    apply_all-accepted codes (apply codes h (setting_exit t)) fs ss e
apply_all-accepted codes h fs (setting_service_exit t ∷ ss) e =
    apply_all-accepted codes (apply codes h (setting_service_exit t)) fs ss e

new-ok :
    (register : ℕ → ℕ → ℕ) (last_os_error name stream : ℕ) (h : StatusHandle)
    → new register last_os_error name stream ≡ ok h
    → (h.status.controls_accepted ≡ 0) × (h.handle ≡ register name stream)
unfolding new
new-ok register last_os_error name stream h e = ground arith

-- A handle that is registered, after its setters are called, reports to accept a control where the last
-- list of controls it was given has it, and only there: the bit of that control, in the status that
-- `set_status` hands the kernel with the registered handle. It succeeds where the kernel takes the
-- status.
pub set_status-accepts :
    (codes : StatusCodes) (place : ServiceControlAccept → ℕ) (register : ℕ → ℕ → ℕ)
    (set_service_status : ℕ → ServiceStatus → ℕ) (last_os_error name stream : ℕ) (h : StatusHandle)
    (ss : List Setting) (f : ServiceControlAccept)
    → OwnBits codes place
    → new register last_os_error name stream ≡ ok h
    → (status : ServiceStatus) × (bit (place f) status.controls_accepted
        ≡ (if among place f (last_accept ss []) then 1 else 0))
      × (set_status set_service_status last_os_error (apply_all codes h ss) ≡ (
          if set_service_status (register name stream) status == 0
          then err last_os_error
          else ok tt))
unfolding new set_status
set_status-accepts codes place register set_service_status last_os_error name stream h ss f own
      ok_h =
    let (zero, same) = new-ok register last_os_error name stream h ok_h in
    let (accepted, handle) = apply_all-accepted codes h [] ss zero in
    (
      (apply_all codes h ss).status,
      rw accepted (bits-among codes place f (last_accept ss []) own),
      rw (handle, same) refl,
    )
