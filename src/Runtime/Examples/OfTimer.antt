-- ===== src/Runtime/Examples/OfTimer.antt =====
-- Concrete runs of the timers of crates/runtime/src/timer/mod.rs.
use msft.Runtime.Timer.{Shared, due_time, fire, register}
use msft.Runtime.Timer.DueTime
use msft.Runtime.Timer.Queue
use msft.Runtime.Timer.FutureRace
use msft.Runtime.Timer.StreamRace
use msft.Runtime.FileTime.{Duration, FileTime, ticks, as_millis}
use msft.Prelude.{
  ◌≡◌, ◌⊎◌, ◌≤◌, ◌/◌, ◌+◌, ◌*◌, ◌%◌, ◌^◌, ◌<◌, refl, true, false, none, some, List, [], ◌∷◌, arith,
}
use msft.Runtime.Timer.Queue.{fires, polls}
use msft.Prelude.Tasks.{sleeping}
use msft.Prelude.Wakers.{update_waker}

-- 250 milliseconds and a half.
abbrev quarter_second : Duration
quarter_second = 250_500_000

due_time-ticks_example :
    (t : FileTime) × (due_time true quarter_second ≡ some t)
    × ((ticks t + as_millis quarter_second * 10_000) % 2 ^ 64 ≡ 0)
    × (as_millis quarter_second * 10_000 ≤ quarter_second / 100)
    × (quarter_second / 100 < as_millis quarter_second * 10_000 + 10_000)
due_time-ticks_example = DueTime.due_time-ticks true quarter_second (omega arith)

abbrev room_for_two : Shared
room_for_two = record { waker = none; stopped = false; timeouts = 0; capacity = 2 }

abbrev three_fire : List Queue.Event
three_fire = fires ∷ polls 7 ∷ fires ∷ fires ∷ fires ∷ polls 7 ∷ []

timeouts_conserved_example :
    Queue.yielded three_fire room_for_two
      + Queue.dropped three_fire room_for_two
      + (Queue.run three_fire room_for_two).timeouts
    ≡ room_for_two.timeouts + Queue.fired three_fire
timeouts_conserved_example = Queue.timeouts_conserved three_fire room_for_two

wakeup_lost_example :
    let w = FutureRace.lost 7 (FutureRace.unpolled false 0) in
    FutureRace.Reach 7 (FutureRace.before (FutureRace.unpolled false 0)) w
    × (w.task ≡ sleeping)
    × (0 < w.shared.timeouts)
    × ((FutureRace.idle ≡ FutureRace.pushed) ⊎ (FutureRace.stop_stored ≡ FutureRace.stop_stored))
wakeup_lost_example = FutureRace.wakeup_lost 7 false 0 (FutureRace.stores_stop refl)

abbrev about_to_wake : StreamRace.World
about_to_wake = record {
  shared = record { waker = some 7; stopped = false; timeouts = 1; capacity = 2 };
  task = sleeping;
  callback = StreamRace.due;
  cancel = StreamRace.idle;
}

timeout_wakes_example :
    (about_to_wake.callback ≡ StreamRace.due) × (about_to_wake.shared.waker ≡ some 7)
unfolding register fire update_waker
timeout_wakes_example =
    StreamRace.timeout_wakes 7 (some 3) 2 {w = about_to_wake}
      (StreamRace.later
        (StreamRace.later
          (StreamRace.later (StreamRace.later StreamRace.here (StreamRace.sees_go refl refl))
            (StreamRace.stores_waker false refl))
          (StreamRace.pops_none false refl refl))
        (StreamRace.pushes refl))
      refl (omega arith)
