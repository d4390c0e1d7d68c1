-- ===== src/Runtime/FileTime.antt =====
-- Times as the thread pool takes them: the `FILETIME` that crates/runtime/src/wait/mod.rs and
-- crates/runtime/src/timer/mod.rs fill in. `std::time::Duration` counts nanoseconds.
use msft.Prelude.{ℕ, ◌+◌, ◌*◌, ◌/◌, ◌%◌, ◌^◌}

abbrev pub Duration : Type 0
Duration = ℕ

-- `Duration::as_millis`.
abbrev pub as_millis : Duration → ℕ
as_millis d = d / 1_000_000

abbrev pub u32 : ℕ → ℕ
u32 n = n % 2 ^ 32

abbrev pub u64 : ℕ → ℕ
u64 n = n % 2 ^ 64

pub record FileTime : Type 0 where
  pub low_date_time : ℕ
  pub high_date_time : ℕ

-- The 64-bit count of 100-nanosecond intervals: from 2 ^ 63 on it is a negative number, which the
-- thread pool reads as a time from now, and below that as a date.
abbrev pub ticks : FileTime → ℕ
ticks t = t.high_date_time * 2 ^ 32 + t.low_date_time
