-- ===== src/Prelude/Tasks.antt =====
-- A task that polls one future or stream, step by step, while others wake it.
use mathlib.Core.Bool.{Bool, true, false}
use mathlib.Core.Option.{Option, none, some}
use msft.Prelude.Tests.{◌==◌, if◌then◌else◌}
use msft.Prelude.Wakers.{Waker}

-- `phase` is how far a poll has come. A wake that comes during a poll is kept, as `notified`: the
-- executor polls again when this poll is pending.
pub data Task {ℓ} (P : Type ℓ) : Type ℓ where
  runnable : Task P
  polling : (phase : P) → (notified : Bool) → Task P
  sleeping : Task P
  finished : Task P

module _ {ℓ} {P : Type ℓ} where
  abbrev pub wake_task : Task P → Task P
  wake_task runnable = runnable
  wake_task (polling phase notified) = polling phase true
  wake_task sleeping = runnable
  wake_task finished = finished

  -- Waking the waker of a slot wakes this task if it is its own.
  abbrev pub wake_slot : Waker → Option Waker → Task P → Task P
  wake_slot me none t = t
  wake_slot me (some w) t = if w == me then wake_task t else t

  -- The poll returns pending.
  abbrev pub suspend : Bool → Task P
  suspend true = runnable
  suspend false = sleeping
