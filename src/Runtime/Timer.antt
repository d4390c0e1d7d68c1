-- ===== src/Runtime/Timer.antt =====
-- crates/runtime/src/timer/mod.rs: thread pool timers, as a future that is ready once and as a
-- stream of timeouts. The kernel is what may call `callback` while a timer is set.
pub mod DueTime
pub mod Queue
pub mod Cancel
pub mod FutureRace
pub mod StreamRace
use msft.Prelude.{
  ℕ, zero, suc, ◌+◌, ◌-◌, ◌*◌, ◌/◌, ◌%◌, ◌^◌, Bool, true, false, ◌&&◌, Option, none, some, Faulty,
  Poll, pending, ready, ltb, leb, if◌then◌else◌,
}
use msft.Prelude.Wakers.{Waker, update_waker}
use msft.Runtime.FileTime.{Duration, as_millis, u32, u64, FileTime}
use msft.Runtime.Watch.{Inner, poll_signal}

-- `timeouts` is the length of the `ArrayQueue<()>`, and `capacity` its bound.
pub record Shared : Type 0 where
  pub waker : Option Waker
  pub stopped : Bool
  pub timeouts : ℕ
  pub capacity : ℕ

-- What `SetThreadpoolTimer` was last called with.
pub record Setting : Type 0 where
  pub due : FileTime
  pub period : ℕ
  pub window : ℕ

pub record TimerPool : Type 0 where
  pub pool : Option Setting
  pub shared : Shared
  pub window : ℕ
  pub timer : Option Inner

abbrev window_of : Option Duration → ℕ
window_of none = 0
window_of (some d) = u32 (as_millis d)

-- `TimerPool::new`, where the thread pool grants a timer; `ArrayQueue::new` panics at 0.
unfoldable pub new : ℕ → Option Duration → Faulty TimerPool
new zero window = none
new (suc n) window = some (record {
  pool = none;
  shared = record { waker = none; stopped = false; timeouts = 0; capacity = suc n };
  window = window_of window;
  timer = none;
})

-- `Shared::update_waker`, `fire`, `stop` and `reset`. A push onto a full queue is dropped.
unfoldable pub register : Waker → Shared → Shared
register cx s = record s { waker = update_waker s.waker cx }

unfoldable pub fire : Shared → Shared
fire s = if ltb s.timeouts s.capacity then record s { timeouts = s.timeouts + 1 } else s

abbrev pub stop : Shared → Shared
stop s = record s { stopped = true }

abbrev pub reset : Shared → Shared
reset s = record s { stopped = false; timeouts = 0 }

-- `timer_callback`, with the waker that it wakes.
unfoldable pub callback : Shared → Shared × Option Waker
unfolding fire
callback s = (fire s, s.waker)

-- `TimerPool::cancel`.
unfoldable pub cancel : TimerPool → TimerPool × Option Waker
cancel p = (record p { pool = none; shared = stop p.shared }, p.shared.waker)

-- `TimerFuture::poll`.
unfoldable pub poll : Waker → Shared → Shared × Poll (Unit {0})
unfolding register
poll cx s = if ltb 0 s.timeouts then (s, ready tt) else (register cx s, pending)

abbrev pub pop : Shared → Shared × Poll (Option (Unit {0}))
pop s =
    if ltb 0 s.timeouts
    then (record s { timeouts = s.timeouts - 1 }, ready (some tt))
    else (s, pending)

-- `TimerStream::poll_next`.
unfoldable pub poll_next : Waker → Shared → Shared × Poll (Option (Unit {0}))
unfolding register
poll_next cx s = if s.stopped then (s, ready none) else pop (register cx s)

-- The product `due.as_millis() as i64 * -10_000` as a bit pattern. It panics on overflow in a build
-- with overflow checks, and wraps in one without.
abbrev overflows : ℕ → Bool
overflows ms =
    if ltb ms (2 ^ 63) then ltb (2 ^ 63) (ms * 10_000) else leb (2 ^ 63) ((2 ^ 64 - ms) * 10_000)

-- The due time of `OwnedTimerHandle::start_relative`.
unfoldable pub due_time : Bool → Duration → Faulty FileTime
due_time overflow_checks d =
    let ms = u64 (as_millis d) in
    let tick = u64 (ms * (2 ^ 64 - 10_000)) in
    if overflow_checks && overflows ms
    then none
    else some (record { low_date_time = u32 tick; high_date_time = u32 (tick / 2 ^ 32) })

abbrev set_with : TimerPool → ℕ → ℕ → Faulty FileTime → Faulty TimerPool
set_with p period window none = none
set_with p period window (some due) =
    some (record p { pool = some (record { due = due; period = period; window = window }) })

-- `OneshotTimer::start` and `PeriodicTimer::start`: a period of 0 fires once.
unfoldable pub start_oneshot : Bool → Duration → TimerPool → Faulty TimerPool
unfolding due_time
start_oneshot checks due p = set_with p 0 p.window (due_time checks due)

unfoldable pub start_periodic : Bool → Duration → Duration → TimerPool → Faulty TimerPool
unfolding due_time
start_periodic checks due period p =
    set_with p (u32 (as_millis period)) p.window (due_time checks due)

-- `TimerPool::oneshot` and `TimerPool::periodic`, up to the wait for the timer before: the new
-- timer's signal takes its place, and the signal that was there is what is waited for.
unfoldable pub replace_timer : Inner → TimerPool → TimerPool × Option Inner
replace_timer signal p = (record p { timer = some signal }, p.timer)

-- The wait itself, then the reset: pending as long as the earlier signal is.
abbrev pub after_previous : Waker → Option Inner → TimerPool → Poll TimerPool
after_previous cx none p = ready (record p { shared = reset p.shared })
after_previous cx (some signal) p = elim (poll_signal cx signal).1 [
  | pending ↦ pending
  | ready _ ↦ ready (record p { shared = reset p.shared })
]
