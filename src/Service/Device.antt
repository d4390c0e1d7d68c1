-- ===== src/Service/Device.antt =====
-- crates/service/src/device.rs: the plug events of serial ports, and the stream that tracks the ports
-- of chosen devices. The registry scan and the kernel's event objects answer as a parameter says.
pub mod Resolved
pub mod Track
pub mod Tracked
pub mod Unplugged
use msft.Service.Wchar.{OsString}
use msft.Service.VidPid.Registry.{ScanError}
use msft.Service.VidPid.{UsbVidPid, same_ids}
use msft.Service.Ports.{get, remove, insert}
use msft.Service.Message.{
  DeviceEventType, DeviceEventData, DeviceEvent, arrival, remove_complete, port,
}
use msft.Prelude.{
  ℕ, Bool, true, false, ◌&&◌, List, [], ◌∷◌, ◌++◌, Option, none, some, Result, ok, err, Faulty,
  Poll, pending, ready, ◌==◌, if◌then◌else◌,
}

pub data PlugEvent : Type 0 where
  plug : OsString → PlugEvent
  unplug : OsString → PlugEvent

abbrev plug_event_of : DeviceEventType → DeviceEventData → Option PlugEvent
plug_event_of arrival (port p) = some (plug p)
plug_event_of remove_complete (port p) = some (unplug p)
plug_event_of _ _ = none

unfoldable pub plug_events : DeviceEvent → Option PlugEvent
plug_events e = plug_event_of e.ty e.payload

-- `ids.iter().find(..)`.
abbrev pub find : List UsbVidPid → UsbVidPid → Option UsbVidPid
find [] id = none
find (test ∷ ids) id = let rest = find ids id in if same_ids test id then some test else rest

-- A `Sender` is known by its event object, and so is the `Unplugged` future that it resolves. Errors
-- are known by a code.
abbrev pub Sender : Type 0
Sender = ℕ

pub record TrackedPort : Type 0 where
  pub name : OsString
  pub ids : UsbVidPid
  pub unplugged : Sender

pub data TrackingError : Type 0 where
  io : ℕ → TrackingError
  scan : ScanError → TrackingError

-- `HashMap<OsString, Sender>`.
abbrev pub Cache : Type 0
Cache = List (OsString × Sender)

-- The inner stream's answer to one poll; and, for the port in it, what `scan_for`, which may panic,
-- `wait::oneshot` and `Sender::set` answer where they are called.
pub record Asked : Type 0 where
  pub inner : Poll (Option PlugEvent)
  pub scanned : Faulty (Result UsbVidPid ScanError)
  pub oneshot : Result Sender ℕ
  pub set : Result (Unit {0}) ℕ

pub data Tracking : Type 0 where
  streaming : (ids : List UsbVidPid) → Cache → Tracking
  complete : Tracking

abbrev pub Item : Type 0
Item = Option (Result TrackedPort TrackingError)

-- One round of the loop: the state, the senders that are set, and what the loop breaks with, if it does.
pub record Round : Type 0 where
  pub after : Tracking
  pub signalled : List Sender
  pub result : Option (Poll Item)

module _ (ids : List UsbVidPid) (cache : Cache) where
  abbrev pub opened : OsString → UsbVidPid → Result Sender ℕ → Round
  opened p id (err e) = record {
    after = streaming ids cache;
    signalled = [];
    result = some (ready (some (err (io e))));
  }
  opened p id (ok s) = record {
    after = streaming ids (insert p s cache);
    signalled = [];
    result = some (ready (some (ok (record { name = p; ids = id; unplugged = s }))));
  }

  abbrev pub found : OsString → Result Sender ℕ → Option UsbVidPid → Round
  found p o none = record { after = streaming ids cache; signalled = []; result = none }
  found p o (some id) = opened p id o

  -- A panic of `scan_for` is one of the poll.
  abbrev pub plugged :
      OsString → Result Sender ℕ → Faulty (Result UsbVidPid ScanError) → Faulty Round
  plugged p o none = none
  plugged p o (some (err e)) = some (record {
    after = streaming ids cache;
    signalled = [];
    result = some (ready (some (err (scan e))));
  })
  plugged p o (some (ok id)) = some (found p o (find ids id))

  abbrev pub set_result : Result (Unit {0}) ℕ → Option (Poll Item)
  set_result (ok _) = none
  set_result (err e) = some (ready (some (err (io e))))

  abbrev pub unplugged_port : OsString → Result (Unit {0}) ℕ → Option Sender → Round
  unplugged_port p r none = record { after = streaming ids cache; signalled = []; result = none }
  unplugged_port p r (some s) = record {
    after = streaming ids (remove p cache);
    signalled = s ∷ [];
    result = set_result r;
  }

  abbrev pub on_event : Asked → PlugEvent → Faulty Round
  on_event a (plug p) = plugged p a.oneshot a.scanned
  on_event a (unplug p) = some (unplugged_port p a.set (get p cache))

  abbrev pub on_answer : Asked → Poll (Option PlugEvent) → Faulty Round
  on_answer a pending =
      some (record { after = streaming ids cache; signalled = []; result = some pending })
  on_answer a (ready none) =
      some (record { after = complete; signalled = []; result = some (ready none) })
  on_answer a (ready (some e)) = on_event a e

  unfoldable pub round : Asked → Faulty Round
  round a = on_answer a a.inner

-- What a poll leaves, with the answers that it has not asked for.
pub record Polled : Type 0 where
  pub after : Tracking
  pub signalled : List Sender
  pub result : Poll Item
  pub rest : List Asked

abbrev pub prepend : List Sender → Polled → Polled
prepend ss p = record p { signalled = ss ++ p.signalled }

abbrev pub broken : Round → List Asked → Option (Poll Item) → Faulty Polled → Faulty Polled
broken r rest (some p) later =
    some (record { after = r.after; signalled = r.signalled; result = p; rest = rest })
broken r rest none none = none
broken r rest none (some q) = some (prepend r.signalled q)

-- What a round leaves to the loop; a panic ends it, and the state that it leaves is of no use.
abbrev after_round : Tracking → Faulty Round → Tracking
after_round before none = before
after_round before (some r) = r.after

abbrev pub looped : Faulty Round → List Asked → Faulty Polled → Faulty Polled
looped none rest later = none
looped (some r) rest later = broken r rest r.result later

-- `Tracking::poll_next`; `none` is a panic, after completion or in a scan. An inner stream with no more
-- answers is pending.
unfoldable pub poll_next : List Asked → Tracking → Faulty Polled
poll_next answers complete = none
poll_next [] (streaming ids cache) =
    some (record { after = streaming ids cache; signalled = []; result = pending; rest = [] })
poll_next (a ∷ answers) (streaming ids cache) =
    let r = round ids cache a in
    let later = poll_next answers (after_round (streaming ids cache) r) in looped r answers later
