-- ===== src/Service/Wait.antt =====
-- crates/service/src/util/wait.rs: the state that a wait callback resolves, the event listener over it,
-- and the one-shot sender and receiver, which share it with an event object.
pub mod Paired
pub mod Pool
pub mod Lifetime
use msft.Prelude.{
  ℕ, ◌/◌, ◌%◌, ◌^◌, ◌≢◌, Bool, true, false, Option, none, some, Result, ok, err, Faulty, Poll,
  pending, ready, ◌==◌, if◌then◌else◌,
}
use msft.Prelude.Wakers.{Waker, update_waker}
use msft.Runtime.FileTime.{Duration, as_millis, u32, FileTime}

pub data WaitError : Type 0 where
  cancelled timeout in_progress : WaitError

abbrev pub WaitResult : Type 0
WaitResult = Result (Unit {0}) WaitError

pub record WaitState : Type 0 where
  pub waker : Option Waker
  pub result : Option WaitResult

abbrev pub default : WaitState
default = record { waker = none; result = none }

-- `WAIT_OBJECT_0` and `WAIT_TIMEOUT` of windows_sys: two different codes.
pub record WaitCodes : Type 0 where
  pub wait_object_0 : ℕ
  pub wait_timeout : ℕ
  pub differ : wait_object_0 ≢ wait_timeout

-- What a poll leaves, returns, and wakes.
pub record PolledWait : Type 0 where
  pub after : WaitState
  pub result : Poll WaitResult
  pub woken : Option Waker

-- `Waiting::poll` and `Receiver::poll`, which are the same.
unfoldable pub poll : Waker → WaitState → PolledWait
poll cx s = elim s.result [
  | some r ↦ record { after = record s { waker = none }; result = ready r; woken = s.waker }
  | none ↦ record {
    after = record s { waker = update_waker s.waker cx };
    result = pending;
    woken = none;
  }
]

-- `wait_callback` and `oneshot_callback`: the waker stays in its slot. `none` is the panic.
unfoldable pub callback : WaitCodes → ℕ → WaitState → Faulty (WaitState × Option Waker)
callback codes code s =
    if code == codes.wait_object_0
    then some (record s { result = some (ok tt) }, s.waker)
    else if code == codes.wait_timeout
    then some (record s { result = some (err timeout) }, s.waker)
    else none

-- What `SetThreadpoolWait` was last called with: an object and a timeout, or no object.
abbrev pub Armed : Type 0
Armed = Option (ℕ × Option FileTime)

abbrev pub timeout_of : Option Duration → Option FileTime
timeout_of none = none
timeout_of (some d) =
    some (record { low_date_time = u32 (as_millis d); high_date_time = u32 (as_millis d / 2 ^ 32) })

pub record EventListener : Type 0 where
  pub pool : Armed
  pub state : WaitState

-- `EventListener::start`; `none` is the panic.
unfoldable pub start : ℕ → Option Duration → EventListener → Faulty EventListener
start waitable t l = elim l.state.result [
  | none ↦ some (record l { pool = some (waitable, timeout_of t) })
  | some _ ↦ none
]

-- `EventListener::restart`.
unfoldable pub restart : ℕ → Option Duration → EventListener → EventListener × WaitResult
restart waitable t l = elim l.state.result [
  | none ↦ (l, err in_progress)
  | some _ ↦ (
    record l { pool = some (waitable, timeout_of t); state = record (l.state) { result = none } },
    ok tt,
  )
]

-- `EventListener::cancel`, with the waker that it wakes.
unfoldable pub cancel : EventListener → EventListener × Option Waker
cancel l = elim l.state.result [
  | none ↦ (
    record { pool = none; state = record { waker = none; result = some (err cancelled) } },
    l.state.waker,
  )
  | some _ ↦ (record l { pool = none }, none)
]

-- A sender: not yet used, used by `set`, or dropped.
pub data Sender : Type 0 where
  held used dropped : Sender

-- `oneshot`: the state, the event object, whether the pool waits for it, and the sender.
pub record Oneshot : Type 0 where
  pub state : WaitState
  pub event : Bool
  pub waits : Bool
  pub sender : Sender

-- `oneshot`, where the kernel grants the event and the wait.
abbrev pub oneshot : Oneshot
oneshot = record { state = default; event = false; waits = true; sender = held }

-- `Sender::set`, where the kernel sets the event.
abbrev pub set : Oneshot → Oneshot
set o = record o { event = true; sender = used }
