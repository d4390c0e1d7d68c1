-- ===== src/Service/Examples/OfStatus.antt =====
-- A service that registers and reports its status (crates/service/src/status.rs).

use msft.Service.Status.{
  netbindchange, paramchange, pause_continue, preshutdown, shutdown, stop, hardwareprofilechange,
  powerevent, sessionchange, timechange, triggerevent, continue_pending, service_pause_pending,
  service_paused, service_running, service_start_pending, service_stop_pending, service_stopped,
  file_system_driver, kernel_driver, win32_own_process, win32_share_process, user_own_process,
  user_share_process, interactive_process,
}
use msft.Service.Status.Accepted.{Setting}
use msft.Prelude.Bits.{bit}
use msft.Prelude.Bits.{bit}
use msft.Service.Status.Accepted.{
  apply_all, set_status-accepts, setting_accept, setting_state, setting_type,
}
use msft.Prelude.{List, [], ok, refl, ℕ, ◌^◌, ◌∷◌, ◌≡◌}
use msft.Service.Status.{
  CurrentState, ServiceControlAccept, ServiceStatus, ServiceType, StatusCodes, StatusHandle, new,
  set_status, zeroed, preshutdown, user_share_process, service_running,
}
use msft.Service.Status.Accepted

-- The places of the bits in windows_sys.
abbrev place : ServiceControlAccept → ℕ
place stop = 0
place pause_continue = 1
place shutdown = 2
place paramchange = 3
place netbindchange = 4
place hardwareprofilechange = 5
place powerevent = 6
place sessionchange = 7
place preshutdown = 8
place timechange = 9
place triggerevent = 10

abbrev type_bits : ServiceType → ℕ
type_bits kernel_driver = 1
type_bits file_system_driver = 2
type_bits win32_own_process = 16
type_bits win32_share_process = 32
type_bits user_own_process = 80
type_bits user_share_process = 96
type_bits interactive_process = 256

abbrev state_bits : CurrentState → ℕ
state_bits service_stopped = 1
state_bits service_start_pending = 2
state_bits service_stop_pending = 3
state_bits service_running = 4
state_bits continue_pending = 5
state_bits service_pause_pending = 6
state_bits service_paused = 7

abbrev codes : StatusCodes
codes = record { service_type = type_bits; current_state = state_bits; accept = λ f. 2 ^ place f }

abbrev settings : List Setting
settings =
    setting_type (user_share_process ∷ [])
    ∷ setting_accept (stop ∷ preshutdown ∷ [])
    ∷ setting_state (service_running ∷ [])
    ∷ []

abbrev given : StatusHandle
given = record { handle = 7; status = zeroed }

set_status-accepts_example :
    (status : ServiceStatus) × (bit 8 status.controls_accepted ≡ 1)
    × (set_status (λ h s. h) 6 (apply_all codes given settings) ≡ ok tt)
unfolding new
set_status-accepts_example =
    Accepted.set_status-accepts codes place (λ name stream. 7) (λ h s. h) 6 1 2 given settings
      preshutdown (λ f. refl) refl
