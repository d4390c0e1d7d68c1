-- ===== src/Service/Listener/Order.antt =====
-- The order in which the listener of crates/service/src/device.rs hands out what it queues.
use mathlib.Core.List.{append_assoc, append-nil}
use msft.Service.Wchar.{OsString}
use msft.Service.Message.{DeviceEvent, EventCodes}
use msft.Service.Listener.{
  Shared, WindowMessage, arrived, push_all, queued_by, delivered, try_wake_with, window_proceedure,
  register, popped, poll_next,
}
use msft.Prelude.{
  refl, sym, ◌≡◌, List, [], ◌∷◌, ◌++◌, map, Option, none, some, Faulty, Poll, pending, ready,
}
use msft.Prelude.Wakers.{Waker}

-- What happens to a listener: a window message, a scan by the user that answers with these ports, or a
-- poll.
pub data Event : Type 0 where
  window : WindowMessage → Event
  scans : List OsString → Event
  polls : Waker → Event

abbrev pub after : Shared → Faulty (Shared × Option Waker) → Shared
after s none = s
after s (some r) = r.0

abbrev pub events_of : Faulty (Option (Option DeviceEvent)) → List (Option DeviceEvent)
events_of (some (some ev)) = ev ∷ []
events_of _ = []

abbrev pub returned : Poll (Option DeviceEvent) → List (Option DeviceEvent)
returned pending = []
returned (ready i) = i ∷ []

module _ (codes : EventCodes) where
  abbrev pub happen : Event → Shared → Shared
  happen (window m) s = after s (window_proceedure codes m s)
  happen (scans ports) s = push_all (map arrived ports) s
  happen (polls cx) s = (poll_next cx s).0

  abbrev pub run : List Event → Shared → Shared
  run [] s = s
  run (e ∷ es) s = run es (happen e s)

  -- What the events bring: of a window message what it queues, of a scan an arrival for each port.
  abbrev pub brought : List Event → List (Option DeviceEvent)
  brought [] = []
  brought (window m ∷ es) = events_of (queued_by codes m) ++ brought es
  brought (scans ports ∷ es) = map arrived ports ++ brought es
  brought (polls cx ∷ es) = brought es

  abbrev pub received : List Event → Shared → List (Option DeviceEvent)
  received [] s = []
  received (window m ∷ es) s = received es (happen (window m) s)
  received (scans ports ∷ es) s = received es (happen (scans ports) s)
  received (polls cx ∷ es) s = returned (poll_next cx s).1 ++ received es (happen (polls cx) s)

delivered-queue :
    (s : Shared) (o : Faulty (Option (Option DeviceEvent)))
    → (after s (delivered s o)).queue ≡ s.queue ++ events_of o
unfolding try_wake_with
delivered-queue s none = sym (append-nil s.queue)
delivered-queue s (some none) = sym (append-nil s.queue)
delivered-queue s (some (some ev)) = refl

window-queue :
    (codes : EventCodes) (m : WindowMessage) (s : Shared)
    → (after s (window_proceedure codes m s)).queue ≡ s.queue ++ events_of (queued_by codes m)
unfolding window_proceedure
window-queue codes m s = delivered-queue s (queued_by codes m)

popped-queue :
    (evs rest : List (Option DeviceEvent)) (s : Shared)
    → s.queue ≡ evs
    → returned (popped evs s).1 ++ ((popped evs s).0.queue ++ rest) ≡ evs ++ rest
popped-queue [] rest s h = rw h refl
popped-queue (ev ∷ evs) rest s h = refl

poll_next-queue :
    (cx : Waker) (rest : List (Option DeviceEvent)) (s : Shared)
    → returned (poll_next cx s).1 ++ ((poll_next cx s).0.queue ++ rest) ≡ s.queue ++ rest
unfolding poll_next register
poll_next-queue cx rest s = popped-queue s.queue rest (register cx s) refl

-- The listener is a queue: over any window messages, scans and polls, what the polls return, followed by
-- what is still queued, is what was queued and what the messages and scans brought, in order. A message
-- that cannot be read, or is of another kind, brings nothing.
pub listener_fifo :
    (codes : EventCodes) (es : List Event) (s : Shared)
    → received codes es s ++ (run codes es s).queue ≡ s.queue ++ brought codes es
listener_fifo codes [] s = sym (append-nil s.queue)
listener_fifo codes (window m ∷ es) s =
    rw (listener_fifo codes es (happen codes (window m) s), window-queue codes m s, append_assoc)
      refl
listener_fifo codes (scans ports ∷ es) s =
    rw (listener_fifo codes es (happen codes (scans ports) s), append_assoc) refl
listener_fifo codes (polls cx ∷ es) s =
    rw (append_assoc, listener_fifo codes es (poll_next cx s).0)
      (poll_next-queue cx (brought codes es) s)
