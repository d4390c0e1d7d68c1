-- ===== src/Service/Examples/OfWindow.antt =====
-- A listener's thread that registers for serial ports, gets two messages and ends at the second
-- (crates/service/src/device.rs).

use msft.Prelude.{List, [], ◌∷◌}
use msft.Service.Window.Guards.{Guarded, dispatcher-Guarded}
use msft.Service.Window.Guards
use msft.Service.Window.{
  received, create_device_notification_window, GetMessage, WindowCalls, WindowCodes,
  device_notification_window_dispatcher, with_serial_port,
}

abbrev calls : WindowCalls
calls = record {
  create_window = 7;
  previous_user_data = 0;
  user_data_error = 0;
  register_notification = λ recipient g kind. g.data3;
  last_os_error = 6;
}

-- `WM_CLOSE` is 16 in windows_sys.
abbrev codes : WindowCodes
codes = record { wm_close = 16; notify_window_handle = 0; notify_service_handle = 1 }

abbrev messages : List GetMessage
messages = received 537 ∷ received 16 ∷ received 537 ∷ []

dispatcher-Guarded_example :
    Guarded calls codes
      (7 ∷ [])
      (device_notification_window_dispatcher calls codes (with_serial_port []) messages)
unfolding device_notification_window_dispatcher create_device_notification_window
dispatcher-Guarded_example = Guards.dispatcher-Guarded calls codes (with_serial_port []) messages
