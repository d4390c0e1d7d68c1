-- ===== src/Service/Window/Close.antt =====
-- crates/service/src/device.rs: a listener that is spawned, closed and dropped. The kernel finds windows by
-- name and queues messages for the thread of a window; both are parameters.
pub mod Closed
pub mod Strays
use msft.Service.Listener.{Shared, new}
use msft.Service.Wchar.{OsString, to_wide}
use msft.Service.Window.Class.{RegisterClass, get_window_class}
use msft.Service.Window.{
  Call, GetMessage, NotificationRegistry, WindowCalls, WindowCodes,
  device_notification_window_dispatcher,
}
use msft.Prelude.{ℕ, ◌==◌, if◌then◌else◌, List, Option, none, some, Result, ok, err, Faulty}

-- The calls of `close`, on a state of the kernel, and the messages that a thread is going to get.
pub record ListenerCalls (K : Type 0) : Type 0 where
  pub register_class : RegisterClass K
  pub find_window : K → (name : List ℕ) → ℕ
  pub post_message : K → (window message : ℕ) → K × ℕ
  pub messages_of : K → (thread : ℕ) → List GetMessage
  pub last_os_error : K → ℕ

-- A thread of `device_notification_window_dispatcher`: its registrations, and what
-- `get_window_class` gave it; `none` is the panic.
pub record Thread : Type 0 where
  pub id : ℕ
  pub registrations : NotificationRegistry
  pub atom : Faulty ℕ

-- `DeviceNotificationListener`, without the queue that it shares with the thread.
pub record Listener : Type 0 where
  pub window : OsString
  pub join_handle : Option Thread

-- `close` fails with an error of the kernel, or of the thread; or because the listener is closed, or its
-- thread panicked.
pub data CloseError : Type 0 where
  os : ℕ → CloseError
  already_closed join_error : CloseError

module _ {K : Type 0} (calls : ListenerCalls K) (window : WindowCalls) (codes : WindowCodes) where
  -- The thread begins with `get_window_class`, which is taken as made when it is spawned.
  abbrev begun : OsString → ℕ → NotificationRegistry → K × Faulty ℕ → K × Listener
  begun name id gs (k, atom) = (
    k,
    record {
      window = name;
      join_handle = some (record { id = id; registrations = gs; atom = atom });
    },
  )

  -- `NotificationRegistry::spawn`, by what the scan of the shared data answers: the queue, and the
  -- listener with its thread, which `std::thread::spawn` gives an id.
  abbrev spawned :
      {E : Type 0} → K × Listener → K → Result Shared E → K × Result (Shared × Listener) E
  spawned (k', l) k (err e) = (k, err e)
  spawned (k', l) k (ok shared) = (k', ok (shared, l))

  unfoldable pub spawn :
      {E : Type 0}
      → K
      → Result (List OsString) E
      → (thread : ℕ) → NotificationRegistry
      → OsString
      → K × Result (Shared × Listener) E
  spawn k found id gs name =
      spawned (begun name id gs (get_window_class calls.register_class k)) k (new found)

  -- How a thread ends: by a panic, or with a result; `none` while it waits for messages.
  abbrev returned : Option (Result (Unit {0}) ℕ) → Option (Faulty (Result (Unit {0}) ℕ))
  returned none = none
  returned (some r) = some (some r)

  abbrev thread_end :
      Faulty ℕ → NotificationRegistry → List GetMessage → Option (Faulty (Result (Unit {0}) ℕ))
  thread_end none gs ms = some none
  thread_end (some atom) gs ms =
      returned (device_notification_window_dispatcher window codes gs ms).1

  -- `jh.join()`, and what `close` makes of it.
  abbrev join_result : Option (Faulty (Result (Unit {0}) ℕ)) → Option (Result (Unit {0}) CloseError)
  join_result none = none
  join_result (some none) = some (err join_error)
  join_result (some (some (err e))) = some (err (os e))
  join_result (some (some (ok u))) = some (ok u)

  abbrev joined :
      K → Listener → Option Thread → K × Listener × Option (Result (Unit {0}) CloseError)
  joined k l none = (k, l, some (err already_closed))
  joined k l (some t) = (
    k,
    record l { join_handle = none },
    join_result (thread_end t.atom t.registrations (calls.messages_of k t.id)),
  )

  abbrev posted : Listener → K × ℕ → K × Listener × Option (Result (Unit {0}) CloseError)
  posted l (k, answer) =
      if answer == 0
      then (k, l, some (err (os (calls.last_os_error k))))
      else joined k l l.join_handle

  -- `DeviceNotificationListener::close`; its result is `none` where it does not return, as the thread
  -- that it joins does not end.
  unfoldable pub close : K → Listener → K × Listener × Option (Result (Unit {0}) CloseError)
  close k l =
      let hwnd = calls.find_window k (to_wide l.window) in
      if hwnd == 0
      then (k, l, some (err (os (calls.last_os_error k))))
      else posted l (calls.post_message k hwnd codes.wm_close)

  -- `DeviceNotificationListener::drop`, which leaves the kernel as `close` does; a thread that is not
  -- joined goes on.
  abbrev pub drop_listener : K → Listener → K
  drop_listener k l = (close k l).0
