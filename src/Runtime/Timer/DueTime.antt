-- ===== src/Runtime/Timer/DueTime.antt =====
-- The times that timers and waits hand to the thread pool.

use mathlib.Core.Path.{ap}
use msft.Prelude.{
  ◌≢◌, ◌%◌, false, ℕ, ◌+◌, ◌-◌, ◌*◌, ◌/◌, ◌^◌, ◌<◌, ◌≤◌, ◌≡◌, Bool, some, arith, ◌≢◌,
}
use msft.Runtime.FileTime.{u32, u64, Duration, as_millis, FileTime, ticks}
use msft.Runtime.Timer.{overflows, due_time}
use msft.Runtime.Wait.{wait_timeout_of}

no_overflow : (ms : ℕ) → ms * 10_000 < 2 ^ 63 → overflows (u64 ms) ≡ false
no_overflow ms h = ground arith

tick-eq :
    (ms : ℕ) → ms * 10_000 < 2 ^ 63 → (u64 (u64 ms * (2 ^ 64 - 10_000)) + ms * 10_000) % 2 ^ 64 ≡ 0
tick-eq ms h = omega arith

halves : (t : ℕ) → t < 2 ^ 64 → t / 2 ^ 32 % 2 ^ 32 * 2 ^ 32 + t % 2 ^ 32 ≡ t
halves t h = omega arith

whole_millis :
    (d : Duration) → (as_millis d * 10_000 ≤ d / 100) × (d / 100 < as_millis d * 10_000 + 10_000)
whole_millis d = (omega arith, omega arith)

-- Let the whole milliseconds of a duration fit 2 ^ 63 ticks of 100 nanoseconds. Then the due time of a
-- timer is as many ticks from now as these milliseconds have, as the negative number modulo 2 ^ 64, with or
-- without overflow checks. That is never later than the duration, and less than a millisecond, or 10000
-- ticks, earlier: what the duration has beyond its whole milliseconds is cut off.
pub due_time-ticks :
    (checks : Bool) (d : Duration)
    → as_millis d * 10_000 < 2 ^ 63
    → (t : FileTime) × (due_time checks d ≡ some t)
      × ((ticks t + as_millis d * 10_000) % 2 ^ 64 ≡ 0)
      × (as_millis d * 10_000 ≤ d / 100)
      × (d / 100 < as_millis d * 10_000 + 10_000)
unfolding due_time
due_time-ticks checks d h =
    let ms = as_millis d in
    let tick = u64 (u64 ms * (2 ^ 64 - 10_000)) in
    (
      record { low_date_time = u32 tick; high_date_time = u32 (tick / 2 ^ 32) },
      ground (arith, no_overflow ms h),
      rw (halves tick (omega arith)) (tick-eq ms h),
      (whole_millis d).0,
      (whole_millis d).1,
    )

due_time-ne :
    (checks : Bool) (d : Duration) (w : FileTime)
    → 0 < as_millis d
    → as_millis d * 10_000 < 2 ^ 63
    → ticks w ≡ as_millis d
    → due_time checks d ≢ some w
due_time-ne checks d w pos h same e =
    let (t, e', z, below, above) = due_time-ticks checks d h in
    let q : t ≡ w = cc in omega (arith, z, ap ticks q)

-- The timeout of a wait is not such a time: below 2 ^ 63 milliseconds, its ticks are the
-- milliseconds themselves, as a date and not as a time from now.
pub wait_timeout-ticks :
    (checks : Bool) (d : Duration)
    → 0 < as_millis d
    → as_millis d * 10_000 < 2 ^ 63
    → (ticks (wait_timeout_of d) ≡ as_millis d)
      × (ticks (wait_timeout_of d) < 2 ^ 63)
      × (due_time checks d ≢ some (wait_timeout_of d))
unfolding wait_timeout_of
wait_timeout-ticks checks d pos h = (
  halves (as_millis d) (omega arith),
  omega (arith, halves (as_millis d) (omega arith)),
  due_time-ne checks d (wait_timeout_of d) pos h (halves (as_millis d) (omega arith)),
)
