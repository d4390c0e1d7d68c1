-- ===== src/Service/Status.antt =====
-- crates/service/src/status.rs: the status that a service reports, and the handle it reports it with. The
-- bits of windows_sys, and what the kernel answers, are parameters.
pub mod Accepted
use Prim.Native.Nat.{bit_or}
use msft.Prelude.{List, Result, [], err, if◌then◌else◌, ok, ℕ, ◌==◌, ◌∷◌}

pub data ServiceType : Type 0 where
  file_system_driver kernel_driver win32_own_process win32_share_process user_own_process
        user_share_process interactive_process :
      ServiceType

pub data CurrentState : Type 0 where
  continue_pending service_pause_pending service_paused service_running service_start_pending
        service_stop_pending service_stopped :
      CurrentState

pub data ServiceControlAccept : Type 0 where
  netbindchange paramchange pause_continue preshutdown shutdown stop hardwareprofilechange
        powerevent sessionchange timechange triggerevent :
      ServiceControlAccept

-- The bits of a flag in each of the three words.
pub record StatusCodes : Type 0 where
  pub service_type : ServiceType → ℕ
  pub current_state : CurrentState → ℕ
  pub accept : ServiceControlAccept → ℕ

-- `bits()` of the flags that are set.
abbrev pub bits : {F : Type 0} → (F → ℕ) → List F → ℕ
bits code [] = 0
bits code (f ∷ fs) = bit_or (code f) (bits code fs)

-- `SERVICE_STATUS`, and the structure of zeroes.
pub record ServiceStatus : Type 0 where
  pub service_type : ℕ
  pub current_state : ℕ
  pub controls_accepted : ℕ
  pub win32_exit_code : ℕ
  pub service_specific_exit_code : ℕ
  pub check_point : ℕ
  pub wait_hint : ℕ

abbrev pub zeroed : ServiceStatus
zeroed = record {
  service_type = 0;
  current_state = 0;
  controls_accepted = 0;
  win32_exit_code = 0;
  service_specific_exit_code = 0;
  check_point = 0;
  wait_hint = 0;
}

pub record StatusHandle : Type 0 where
  pub handle : ℕ
  pub status : ServiceStatus

-- `StatusHandle::new`, from what `RegisterServiceCtrlHandlerExW` answers for the name and the stream's
-- state.
unfoldable pub new :
    (register : ℕ → ℕ → ℕ) (last_os_error : ℕ) (name stream : ℕ) → Result StatusHandle ℕ
new register last_os_error name stream =
    if register name stream == 0
    then err last_os_error
    else ok (record { handle = register name stream; status = zeroed })

module _ (codes : StatusCodes) where
  abbrev pub set_service_type : StatusHandle → List ServiceType → StatusHandle
  set_service_type h ty = record h {
    status = record (h.status) { service_type = bits codes.service_type ty };
  }

  abbrev pub set_current_state : StatusHandle → List CurrentState → StatusHandle
  set_current_state h state = record h {
    status = record (h.status) { current_state = bits codes.current_state state };
  }

  abbrev pub set_control_accept : StatusHandle → List ServiceControlAccept → StatusHandle
  set_control_accept h accepted = record h {
    status = record (h.status) { controls_accepted = bits codes.accept accepted };
  }

abbrev pub set_wait_hint : StatusHandle → ℕ → StatusHandle
set_wait_hint h hints = record h { status = record (h.status) { wait_hint = hints } }

abbrev pub set_check_point : StatusHandle → ℕ → StatusHandle
set_check_point h check_point = record h {
  status = record (h.status) { check_point = check_point };
}

abbrev pub set_exit_code : StatusHandle → ℕ → StatusHandle
set_exit_code h exit_code = record h { status = record (h.status) { win32_exit_code = exit_code } }

abbrev pub set_service_exit_code : StatusHandle → ℕ → StatusHandle
set_service_exit_code h exit_code = record h {
  status = record (h.status) { service_specific_exit_code = exit_code };
}

-- `set_status`, from what `SetServiceStatus` answers for the handle and the status.
unfoldable pub set_status :
    (set_service_status : ℕ → ServiceStatus → ℕ) (last_os_error : ℕ)
    → StatusHandle
    → Result (Unit {0}) ℕ
set_status set_service_status last_os_error h =
    if set_service_status h.handle h.status == 0 then err last_os_error else ok tt
