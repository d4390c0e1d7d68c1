-- ===== src/Service/Listener.antt =====
-- The notification listener of crates/service/src/device.rs: the window procedure that queues device
-- events, and the stream that hands them out. The registry scan answers with a list of ports.
pub mod Order
pub mod Race
use msft.Service.Wchar.{OsString}
use msft.Service.Message.{DeviceEvent, EventCodes, EventData, arrival, port, parse_device}
use msft.Prelude.{
  ℕ, List, [], ◌∷◌, ◌++◌, map, Option, none, some, Result, ok, err, Faulty, Poll, pending, ready,
}
use msft.Prelude.Wakers.{Waker, update_waker}

-- `DeviceNotificationData`: the queue, the oldest first, where `none` is the end of the stream.
pub record Shared : Type 0 where
  pub queue : List (Option DeviceEvent)
  pub waker : Option Waker

-- The event that the code makes up for a port that is there.
abbrev pub arrived : OsString → Option DeviceEvent
arrived p = some (record { ty = arrival; payload = port p })

-- `DeviceNotificationData::new`, by what the scan answers.
abbrev pub new {ℓ} : {E : Type ℓ} → Result (List OsString) E → Result Shared E
new (err e) = err e
new (ok ports) = ok (record { queue = map arrived ports; waker = none })

abbrev pub push_all : List (Option DeviceEvent) → Shared → Shared
push_all evs s = record s { queue = s.queue ++ evs }

-- `DeviceNotificationListener::scan`: no task is woken.
abbrev pub scan {ℓ} : {E : Type ℓ} → Result (List OsString) E → Shared → Result Shared E
scan (err e) s = err e
scan (ok ports) s = ok (push_all (map arrived ports) s)

-- `try_wake_with`, with the waker that it wakes.
unfoldable pub try_wake_with : Option DeviceEvent → Shared → Shared × Option Waker
try_wake_with ev s = (push_all (ev ∷ []) s, s.waker)

unfoldable pub register : Waker → Shared → Shared
register cx s = record s { waker = update_waker s.waker cx }

-- The window messages that the procedure tells apart, with the arguments of a device change.
pub data WindowMessage : Type 0 where
  device_change : ℕ → EventData → WindowMessage
  destroy : WindowMessage
  other : WindowMessage

-- The event that a window message queues, if it queues one; a read of the data may fault.
abbrev pub to_queue : Faulty (Option DeviceEvent) → Faulty (Option (Option DeviceEvent))
to_queue none = none
to_queue (some none) = some none
to_queue (some (some e)) = some (some (some e))

abbrev pub queued_by : EventCodes → WindowMessage → Faulty (Option (Option DeviceEvent))
queued_by codes (device_change event_type d) = to_queue (parse_device codes event_type d)
queued_by codes destroy = some (some none)
queued_by codes other = some none

abbrev pub delivered :
    Shared → Faulty (Option (Option DeviceEvent)) → Faulty (Shared × Option Waker)
delivered s none = none
delivered s (some none) = some (s, none)
delivered s (some (some ev)) = some (try_wake_with ev s)

-- `device_notification_window_proceedure`, where the window has its data.
unfoldable pub window_proceedure :
    EventCodes → WindowMessage → Shared → Faulty (Shared × Option Waker)
unfolding try_wake_with
window_proceedure codes m s = delivered s (queued_by codes m)

abbrev pub popped : List (Option DeviceEvent) → Shared → Shared × Poll (Option DeviceEvent)
popped [] s = (s, pending)
popped (ev ∷ evs) s = (record s { queue = evs }, ready ev)

-- `DeviceNotificationStream::poll_next`.
unfoldable pub poll_next : Waker → Shared → Shared × Poll (Option DeviceEvent)
unfolding register
poll_next cx s = popped s.queue (register cx s)
