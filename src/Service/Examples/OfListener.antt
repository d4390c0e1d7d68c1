-- ===== src/Service/Examples/OfListener.antt =====
-- A port that a listener reports (crates/service/src/device.rs).
use msft.Service.Listener.{Shared, destroy, other, device_change}
use msft.Service.Listener.Order
use msft.Service.Listener.Race
use msft.Service.Listener.Order.{window, scans, polls}
use msft.Service.Examples.OfMessages.{event_codes, com4_data}
use msft.Service.Wchar.{OsString}
use msft.Prelude.{◌≡◌, false, none, some, List, [], ◌∷◌, ◌++◌}
use msft.Prelude.Tasks.{polling, runnable, sleeping}

abbrev com7 : OsString
com7 = b'C' ∷ b'O' ∷ b'M' ∷ b'7' ∷ []

abbrev fresh : Shared
fresh = record { queue = []; waker = none }

abbrev some_events : List Order.Event
some_events =
    polls 7
    ∷ window (device_change 0x8000 com4_data)
    ∷ window other
    ∷ polls 7
    ∷ scans (com7 ∷ [])
    ∷ window destroy
    ∷ polls 7
    ∷ []

listener_fifo_example :
    Order.received event_codes some_events fresh ++ (Order.run event_codes some_events fresh).queue
    ≡ Order.brought event_codes some_events
listener_fifo_example = Order.listener_fifo event_codes some_events fresh

-- Two tasks sleep, and the window is destroyed.
abbrev closing : Race.World
closing = record {
  shared = record { queue = none ∷ []; waker = some 8 };
  tasks = Race.put 8 sleeping (
      Race.put 8 (polling Race.registered false)
        (Race.put 7 sleeping (Race.put 7 (polling Race.registered false) (λ i. runnable))));
  window = Race.due;
  scanned = false;
}
