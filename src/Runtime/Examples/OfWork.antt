-- ===== src/Runtime/Examples/OfWork.antt =====
-- A worker that adds one, run by a thread pool (crates/runtime/src/work/mod.rs).
use msft.Runtime.Work.{take_inner, resolve, poll, over}
use msft.Runtime.Work.Once
use msft.Runtime.Work.Handle.Over
use msft.Runtime.Work.Handle.{Answers}
use msft.Runtime.Work.Once.{World, Reach, start, later, submits, begins, returns, polls, init}
use msft.Prelude.{true, false, [], ℕ, ◌≡◌, ◌+◌, ◌≤◌, ◌⊎◌, ◌≢◌, refl, none, some, suc}
use msft.Prelude.Wakers.{Waker, awoken, nobody, update_waker, with_sleeper}

abbrev add_one : ℕ → ℕ
add_one n = suc n

-- After the submission, a poll of two tasks each, and the callback up to its return.
abbrev resolved : World ℕ ℕ
resolved = record {
  shared = record { inner = none; state = record { waker = none; result = some 5 } };
  handle = over;
  asleep = awoken (some 8) (with_sleeper 8 true (with_sleeper 7 true nobody));
  last = some 8;
  runs = 1;
  cancels = 0;
  delivered = 0;
}

run_to_resolved : Reach add_one 4 resolved
unfolding take_inner resolve poll update_waker
run_to_resolved =
    later
      (later (later (later (later start (submits refl)) (polls 7)) (polls 8)) (begins refl 4 refl))
      (returns 4 refl)

delivered_once_example :
    (resolved.delivered ≤ resolved.runs + resolved.cancels)
    × ((i : Waker)
        → resolved.shared.state.result ≢ none
        → resolved.asleep i ≡ true
        → (j : Waker) × (resolved.last ≡ some j) × (j ≢ i) × (resolved.asleep j ≡ false))
delivered_once_example = Once.delivered_once add_one run_to_resolved

-- A pool that is created, submitted and dropped while its callback runs; the future is dropped last.
abbrev answers : Answers
answers = record { handle = 5; last_os_error = 0 }

abbrev dropped : Over.World
dropped = record {
  kernel = Over.nothing_open;
  submitted = true;
  owner = some [];
  futures = 0;
  holders = 0;
  worker_there = false;
}

dropped-Reach : Over.Reach answers 5 0 dropped
dropped-Reach =
    let submitted =
      Over.later (Over.later (Over.fresh refl refl) (Over.submits refl refl))
        (Over.gives_future refl refl) in
    let called = Over.later (Over.later submitted (Over.begins refl)) (Over.drops refl) in
    let returned = Over.later called (Over.returns refl) in
    Over.later
      (Over.later (Over.later (Over.later returned (Over.acts refl refl)) (Over.acts refl tt))
        (Over.acts refl tt))
      (Over.drops_future refl)

work_over_example :
    ((true ≡ true) × (dropped.kernel.queued + dropped.kernel.running ≤ 1)
      ⊎ (true ≡ false) × (dropped.kernel.queued ≡ 0) × (dropped.kernel.running ≡ 0))
    × ((false ≡ true)
        ⊎ (false ≡ false)
          × (dropped.owner ≡ some [])
          × (dropped.futures ≡ 0)
          × (dropped.kernel.handle_open ≡ false)
          × (dropped.kernel.queued ≡ 0)
          × (dropped.kernel.running ≡ 0))
work_over_example = Over.work_over answers 5 0 dropped-Reach
