-- ===== src/Runtime/Examples/OfDropped.antt =====
-- A pool that is dropped while a callback runs, before its future (crates/runtime/src/timer/mod.rs).
use msft.Runtime.Dropped.Kept
use msft.Runtime.Dropped.{
  World, Reach, fresh, later, of_timer, starts_timer, gives_future, fires, begins, drops, acts,
  returns, drops_future, nothing_open,
}
use msft.Runtime.Handles.{Answers}
use msft.Runtime.Timer.{due_time}
use msft.Prelude.{◌≡◌, ◌⊎◌, true, false, none, some, [], refl}

abbrev answers : Answers
answers = record { handle = 5; last_os_error = 0 }

abbrev over : World
over = record { kernel = nothing_open; owner = some []; futures = 0; holders = 0; freed = true }

-- A periodic timer has fired, and the callback returns before the handle is closed.
over-Reach : Reach of_timer answers 5 none over
unfolding due_time
over-Reach =
    let set =
      later (later (fresh refl refl) (gives_future refl))
        (starts_timer refl refl true 1_000_000 10 0 refl) in
    let called = later (later set (fires refl true)) (begins refl) in
    let dropping = later (later called (drops refl)) (acts refl tt) in
    let returned = later dropping (returns refl) in
    later (later (later (later returned (acts refl refl)) (acts refl tt)) (acts refl tt))
      (drops_future refl)

callbacks_over_example :
    (true ≡ false)
    ⊎ (over.owner ≡ some [])
      × (over.futures ≡ 0)
      × (over.kernel.handle_open ≡ false)
      × (over.kernel.running ≡ 0)
      × (over.kernel.queued ≡ 0)
      × (over.kernel.armed ≡ false)
callbacks_over_example = Kept.callbacks_over of_timer answers 5 none over-Reach
