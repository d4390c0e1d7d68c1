-- ===== src/Service/Window.antt =====
-- crates/service/src/device.rs: the thread of a notification listener, from the creation of its window
-- and the registration for notifications to the end of its message loop, with the guards that are
-- dropped. What the kernel answers is a parameter; a handle of 0 is null.
pub mod Class
pub mod Close
pub mod Guards
pub mod Sent
pub mod Stream
use msft.Service.Status.{StatusHandle}
use msft.Service.Guid.{Guid, guid_of_bytes}
use msft.Prelude.{
  Result, List, Option, [], err, if◌then◌else◌, none, not, ok, some, ℕ, ◌&&◌, ◌++◌, ◌==◌, ◌∷◌,
}

-- The calls that open or close something, and the messages that are dispatched.
pub data Call : Type 0 where
  window_created window_destroyed : ℕ → Call
  registered unregistered : ℕ → Call
  dispatched : ℕ → Call

-- What `GetMessageW` answers: 0, -1, or a message.
pub data GetMessage : Type 0 where
  quit_received get_failed : GetMessage
  received : ℕ → GetMessage

pub record WindowCalls : Type 0 where
  -- `CreateWindowExW`; what `SetWindowLongPtrW` gives for the window; and the error set behind it.
  pub create_window : ℕ
  pub previous_user_data : ℕ
  pub user_data_error : ℕ
  -- `RegisterDeviceNotificationW`, for a recipient, a class and a kind of recipient.
  pub register_notification : (recipient : ℕ) → Guid → (kind : ℕ) → ℕ
  pub last_os_error : ℕ

-- `WM_CLOSE`, `DEVICE_NOTIFY_WINDOW_HANDLE` and `DEVICE_NOTIFY_SERVICE_HANDLE`.
pub record WindowCodes : Type 0 where
  pub wm_close : ℕ
  pub notify_window_handle : ℕ
  pub notify_service_handle : ℕ

-- `RecepientHandle`, of a window or of a service.
pub data RecepientHandle : Type 0 where
  of_window of_service : ℕ → RecepientHandle

abbrev pub discriminant : WindowCodes → RecepientHandle → ℕ
discriminant codes (of_window h) = codes.notify_window_handle
discriminant codes (of_service h) = codes.notify_service_handle

abbrev pub as_raw_handle : RecepientHandle → ℕ
as_raw_handle (of_window h) = h
as_raw_handle (of_service h) = h

abbrev pub from_status : StatusHandle → RecepientHandle
from_status s = of_service s.handle

-- `NotificationRegistry`.
abbrev pub NotificationRegistry : Type 0
NotificationRegistry = List Guid

abbrev pub with_guid : NotificationRegistry → Guid → NotificationRegistry
with_guid gs g = gs ++ (g ∷ [])

abbrev pub wceusbs : Guid
wceusbs = guid_of_bytes 0x25dbce51 0x6c8f 0x4a72 0x8a 0x6d 0xb5 0x4c 0x2b 0x4f 0xc8 0x35

abbrev pub usbdevice : Guid
usbdevice = guid_of_bytes 0x88BAE032 0x5A81 0x49f0 0xBC 0x3D 0xA4 0xFF 0x13 0x82 0x16 0xD6

abbrev pub ports : Guid
ports = guid_of_bytes 0x4d36e978 0xe325 0x11ce 0xbf 0xc1 0x08 0x00 0x2b 0xe1 0x03 0x18

abbrev pub with_serial_port : NotificationRegistry → NotificationRegistry
with_serial_port gs = with_guid (with_guid (with_guid gs wceusbs) usbdevice) ports

-- The guards that a vector drops, in order.
abbrev pub unregister_all : List ℕ → List Call
unregister_all [] = []
unregister_all (n ∷ ns) = unregistered n ∷ unregister_all ns

abbrev pub then_calls {ℓ} : {A : Type ℓ} → List Call → List Call × A → List Call × A
then_calls cs (ds, a) = (cs ++ ds, a)

module _ (calls : WindowCalls) (codes : WindowCodes) where
  -- `Window(handle)` is made only where this succeeds.
  unfoldable pub create_device_notification_window : List Call × Result ℕ ℕ
  create_device_notification_window =
      if calls.create_window == 0
      then ([], err calls.last_os_error)
      else if calls.previous_user_data == 0 && not (calls.user_data_error == 0)
      then (window_created calls.create_window ∷ [], err calls.user_data_error)
      else (window_created calls.create_window ∷ [], ok calls.create_window)

  -- `NotificationRegistry::register`: at a failure the guards collected so far are dropped.
  abbrev pub register_from :
      (recipient kind : ℕ) → List ℕ → NotificationRegistry → List Call × Result (List ℕ) ℕ
  register_from recipient kind held [] = ([], ok held)
  register_from recipient kind held (g ∷ gs) =
      let n = calls.register_notification recipient g kind in
      let rest = register_from recipient kind (held ++ (n ∷ [])) gs in
      if n == 0
      then (unregister_all held, err calls.last_os_error)
      else then_calls (registered n ∷ []) rest

  abbrev pub register : (recipient kind : ℕ) → NotificationRegistry → List Call × Result (List ℕ) ℕ
  register recipient kind gs = register_from recipient kind [] gs

  -- The message loop; `none` while it waits for a message.
  abbrev pub message_loop : List GetMessage → List Call × Option (Result (Unit {0}) ℕ)
  message_loop [] = ([], none)
  message_loop (quit_received ∷ ms) = ([], some (ok tt))
  message_loop (get_failed ∷ ms) = ([], some (err calls.last_os_error))
  message_loop (received m ∷ ms) =
      let rest = message_loop ms in
      if m == codes.wm_close
      then (dispatched m ∷ [], some (ok tt))
      else then_calls (dispatched m ∷ []) rest

  -- At the end the guards are dropped, the registrations before the window.
  abbrev pub dropped_guards :
      ℕ
      → List ℕ
      → List Call × Option (Result (Unit {0}) ℕ)
      → List Call × Option (Result (Unit {0}) ℕ)
  dropped_guards window held (cs, none) = (cs, none)
  dropped_guards window held (cs, some r) =
      (cs ++ (unregister_all held ++ (window_destroyed window ∷ [])), some r)

  abbrev pub listening :
      ℕ → List GetMessage → List Call × Result (List ℕ) ℕ → List Call × Option (Result (Unit {0}) ℕ)
  listening window ms (cs, err e) = (cs ++ (window_destroyed window ∷ []), some (err e))
  listening window ms (cs, ok held) = then_calls cs (dropped_guards window held (message_loop ms))

  abbrev with_window :
      NotificationRegistry
      → List GetMessage
      → List Call × Result ℕ ℕ
      → List Call × Option (Result (Unit {0}) ℕ)
  with_window gs ms (cs, err e) = (cs, some (err e))
  with_window gs ms (cs, ok window) =
      let hwnd = of_window window in
      then_calls cs
        (listening window ms (register (as_raw_handle hwnd) (discriminant codes hwnd) gs))

  unfoldable pub device_notification_window_dispatcher :
      NotificationRegistry → List GetMessage → List Call × Option (Result (Unit {0}) ℕ)
  device_notification_window_dispatcher gs ms = with_window gs ms create_device_notification_window
