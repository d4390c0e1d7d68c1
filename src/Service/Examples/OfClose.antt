-- ===== src/Service/Examples/OfClose.antt =====
-- A listener that is closed, and followed by another (crates/service/src/device.rs).
use msft.Service.Window.Close.Closed
use msft.Service.Window.Close.Strays
use msft.Service.Window.Close.Closed.{PostLaws}
use msft.Service.Window.Close.Strays.{HasPanicked}
use msft.Service.Window.Class.{ClassLaws, get_window_class}
use msft.Service.Window.Close.{ListenerCalls, Listener, Thread, spawn, close}
use msft.Service.Window.{
  GetMessage, WindowCalls, WindowCodes, received, with_serial_port,
  create_device_notification_window, device_notification_window_dispatcher,
}
use msft.Service.Listener.Order
use msft.Service.Listener.Order.{window, polls, Event}
use msft.Service.Listener.{Shared, WindowMessage, destroy, other, device_change}
use msft.Service.Examples.OfMessages.{event_codes, com4_data}
use msft.Prelude.{
  ℕ, ◌≡◌, ◌≢◌, ◌==◌, if◌then◌else◌, Bool, true, false, List, [], ◌∷◌, ◌++◌, none, some, ok, Result,
  refl, arith,
}

-- One thread, 3, and its window, 7; the messages that wait for the thread, and whether the class is
-- registered. Every name finds the window.
pub record Desktop : Type 0 where
  pub waiting : List GetMessage
  pub has_class : Bool

abbrev class_at : Bool → Desktop → Desktop × ℕ
class_at true k = (k, 0)
class_at false k = (record k { has_class = true }, 49152)

abbrev calls : ListenerCalls Desktop
calls = record {
  register_class = λ k. class_at k.has_class k;
  find_window = λ k name. 7;
  post_message = λ k w m. (record k { waiting = k.waiting ++ received m ∷ [] }, 1);
  messages_of = λ k t. if t == 3 then k.waiting else [];
  last_os_error = λ k. 2;
}

post_laws : PostLaws calls
post_laws = record {
  thread_of = λ k w. 3;
  posts = λ k w m taken. refl;
  leaves = λ k w m t apart. ground arith;
}

class_at-true :
    (b : Bool) (k : Desktop)
    → k.has_class ≡ true
    → b ≡ true
    → ((class_at b k).1 ≡ 0) × ((class_at b k).0.has_class ≡ true)
class_at-true b k h e = rw e (refl, h)

class_at-nonzero :
    (b : Bool) (k : Desktop) → (class_at b k).1 ≢ 0 → (class_at b k).0.has_class ≡ true
class_at-nonzero true k h = absurd (h refl)
class_at-nonzero false k h = refl

class_laws : ClassLaws calls.register_class
class_laws = record {
  class_registered = λ k. k.has_class;
  again = λ k h. class_at-true k.has_class k h h;
  at_first = λ k h. class_at-nonzero k.has_class k h;
}

abbrev answers : WindowCalls
answers = record {
  create_window = 7;
  previous_user_data = 0;
  user_data_error = 0;
  register_notification = λ recipient g kind. g.data3;
  last_os_error = 6;
}

-- `WM_CLOSE` is 16 in windows_sys, and `WM_DEVICECHANGE` 537.
abbrev codes : WindowCodes
codes = record { wm_close = 16; notify_window_handle = 0; notify_service_handle = 1 }

abbrev as_message : ℕ → WindowMessage
as_message m = if m == 537 then device_change 0x8000 com4_data else other

abbrev empty : Shared
empty = record { queue = []; waker = none }

-- A port arrives; then the window is closed, and the task polls in between.
abbrev happenings : List Event
happenings =
    window (device_change 0x8000 com4_data) ∷ polls 7 ∷ window other ∷ window destroy ∷ polls 7 ∷ []

abbrev thread : Thread
thread = record { id = 3; registrations = with_serial_port []; atom = some 49152 }

abbrev listener : Listener
listener = record { window = b'w' ∷ []; join_handle = some thread }

abbrev arrived : Desktop
arrived = record { waiting = received 537 ∷ []; has_class = true }

close-ends_example :
    ((close calls answers codes arrived listener).2 ≡ some (ok tt))
    × ((close calls answers codes arrived listener).1 ≡ record listener { join_handle = none })
    × (Order.received event_codes happenings empty ++ (Order.run event_codes happenings empty).queue
        ≡ Order.brought event_codes (window (device_change 0x8000 com4_data) ∷ []) ++ none ∷ [])
unfolding device_notification_window_dispatcher create_device_notification_window close post_laws
close-ends_example =
    Closed.close-ends answers codes calls post_laws as_message event_codes arrived listener thread
      49152 (537 ∷ []) happenings empty refl refl
      (record {
        by_default = refl;
        created = refl;
        user_data = refl;
        registered = (refl, (refl, (refl, tt)));
      })
      (ground arith) refl (ground arith) refl (refl, tt) tt refl

abbrev no_class : Desktop
no_class = record { waiting = []; has_class = false }

abbrev panicked : Listener
panicked = record {
  window = b'v' ∷ [];
  join_handle = some (record { id = 4; registrations = []; atom = none });
}

abbrev no_ports : Result (List (List ℕ)) ℕ
no_ports = ok []

spawn-second_example :
    HasPanicked calls answers codes panicked
    × ((close calls answers codes arrived panicked).2 ≢ some (ok tt))
unfolding spawn get_window_class
spawn-second_example =
    Strays.spawn-second calls answers codes class_laws no_class
      (record no_class { has_class = true }) arrived no_ports no_ports 3 4 (with_serial_port []) []
      (b'w' ∷ []) (b'v' ∷ []) empty empty listener panicked refl (thread, 49152, refl, refl) refl
      refl
