-- ===== src/Runtime/Wait.antt =====
-- crates/runtime/src/wait/mod.rs: a thread pool wait and the future that its callback resolves.
-- The kernel is what may call `callback`, with one of the wait codes.
pub mod Resolved
pub mod Restart
use msft.Prelude.{
  ℕ, ◌/◌, ◌%◌, ◌^◌, ◌≢◌, Bool, true, false, Option, none, some, Result, ok, err, Faulty, Poll,
  pending, ready, ◌==◌, if◌then◌else◌,
}
use msft.Prelude.Wakers.{Waker, update_waker}
use msft.Runtime.FileTime.{Duration, as_millis, u32, FileTime}

pub data WaitError : Type 0 where
  cancelled timeout in_progress : WaitError

abbrev pub WaitResult : Type 0
WaitResult = Result (Unit {0}) WaitError

abbrev pub Handle : Type 0
Handle = ℕ

-- `WAIT_OBJECT_0` and `WAIT_TIMEOUT` of windows_sys: two different codes.
pub record WaitCodes : Type 0 where
  pub wait_object_0 : ℕ
  pub wait_timeout : ℕ
  pub differ : wait_object_0 ≢ wait_timeout

pub record Shared : Type 0 where
  pub waker : Option Waker
  pub result : Option WaitResult

abbrev pub default : Shared
default = record { waker = none; result = none }

-- What `SetThreadpoolWait` was last called with: a handle and a timeout, or no handle.
abbrev pub Armed : Type 0
Armed = Option (Handle × Option FileTime)

pub record WaitPool : Type 0 where
  pub pool : Armed
  pub shared : Shared
  pub started : Bool

-- `WaitPool::new` and `WaitPool::with_environment`, where the thread pool grants a wait.
abbrev pub new : WaitPool
new = record { pool = none; shared = default; started = false }

-- The timeout of `OwnedWaitHandle::start`: the milliseconds, split in two words.
unfoldable pub wait_timeout_of : Duration → FileTime
wait_timeout_of d = record {
  low_date_time = u32 (as_millis d);
  high_date_time = u32 (as_millis d / 2 ^ 32);
}

-- `OwnedWaitHandle::start` and `OwnedWaitHandle::stop`.
unfoldable pub arm : Handle → Option Duration → Armed
arm handle none = some (handle, none)
arm handle (some d) = some (handle, some (wait_timeout_of d))

abbrev pub disarm : Armed
disarm = none

-- `WaitPool::start`; `none` is the panic.
unfoldable pub start : Handle → Option Duration → WaitPool → Faulty WaitPool
start handle t p =
    if p.started then none else some (record p { started = true; pool = arm handle t })

abbrev restart_with :
    Handle → Option Duration → WaitPool → Option WaitResult → WaitPool × WaitResult
restart_with handle t p none = (p, err in_progress)
restart_with handle t p (some old) =
    (record p { shared = record (p.shared) { result = none }; pool = arm handle t }, ok tt)

-- `WaitPool::restart`: on success the caller gets a future over the same shared state.
unfoldable pub restart : Handle → Option Duration → WaitPool → WaitPool × WaitResult
restart handle t p = restart_with handle t p p.shared.result

-- `Shared::maybe_wake_with`, with the waker that it wakes.
unfoldable pub maybe_wake_with : WaitResult → Shared → Shared × Option Waker
maybe_wake_with result s = elim s.result [
  | some old ↦ (s, none)
  | none ↦ (record { waker = none; result = some result }, s.waker)
]

-- `WaitPool::cancel`.
unfoldable pub cancel : WaitPool → WaitPool × Option Waker
unfolding maybe_wake_with
cancel p =
    let (s, woken) = maybe_wake_with (err cancelled) p.shared in
    (record p { pool = disarm; shared = s }, woken)

-- `WaitFuture::poll`, with the waker that it wakes.
pub record PolledWait : Type 0 where
  pub after : Shared
  pub result : Poll WaitResult
  pub woken : Option Waker

unfoldable pub poll : Waker → Shared → PolledWait
poll cx s = elim s.result [
  | some r ↦ record { after = record s { waker = none }; result = ready r; woken = s.waker }
  | none ↦ record {
    after = record s { waker = update_waker s.waker cx };
    result = pending;
    woken = none;
  }
]

module _ (codes : WaitCodes) where
  -- `wait_callback`: the waker stays in its slot. `none` is the panic on another code.
  unfoldable pub callback : ℕ → Shared → Faulty (Shared × Option Waker)
  callback code s =
      if code == codes.wait_object_0
      then some (record s { result = some (ok tt) }, s.waker)
      else if code == codes.wait_timeout
      then some (record s { result = some (err timeout) }, s.waker)
      else none
