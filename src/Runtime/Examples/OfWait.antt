-- ===== src/Runtime/Examples/OfWait.antt =====
-- Concrete runs of the thread pool wait of crates/runtime/src/wait/mod.rs.
use msft.Runtime.Wait.{
  WaitCodes, Shared, WaitPool, in_progress, arm, start, restart, poll, callback,
}
use msft.Runtime.Wait.Resolved
use msft.Runtime.Wait.Restart
use msft.Runtime.Wait.Resolved.{
  World, Reach, fresh, later, started, fired, polled, cancelled, restarted,
}
use msft.Runtime.Wait.Restart.{Run, here, next, quietly, polls, restarts}
use msft.Prelude.{
  ◌≡◌, ◌≢◌, refl, true, false, Option, none, some, ok, err, pending, ready, [], ◌∷◌, arith,
}
use msft.Prelude.Wakers.{Waker, awoken, nobody, update_waker, with_sleeper}

-- The values that windows_sys gives these codes.
abbrev wait_codes : WaitCodes
wait_codes = record { wait_object_0 = 0; wait_timeout = 258; differ = omega arith }

abbrev on_handle_5 : WaitPool
on_handle_5 = record {
  pool = some (5, none);
  shared = record { waker = none; result = none };
  started = true;
}

-- Two tasks have polled before the callback.
abbrev signalled : World
signalled = record {
  pool = record on_handle_5 { shared = record { waker = some 8; result = some (ok tt) } };
  asleep =
      awoken (some 8)
        (with_sleeper 8 true (awoken none (with_sleeper 7 true (awoken none nobody))));
  last = some 8;
}

resolved-awake_example :
    (j : Waker) × (signalled.last ≡ some j) × (j ≢ 7) × (signalled.asleep j ≡ false)
unfolding start arm poll callback update_waker
resolved-awake_example =
    Resolved.resolved-awake wait_codes {w = signalled}
      (later (later (later (later fresh (started 5 none refl)) (polled 7)) (polled 8))
        (fired 0 refl))
      (ground arith) 7 refl

wait_lifecycle_example :
    let q = quietly (polls 7 ∷ restarts 5 none ∷ []) on_handle_5 in
    ((poll 8 q.shared).result ≡ pending)
    × (restart 5 none q ≡ (q, err in_progress))
    × (s : Shared) × (woken : Option Waker) × (callback wait_codes 0 q.shared ≡ some (s, woken))
    × ((poll 8 s).result ≡ ready (ok tt))
    × ((restart 5 none (record q { shared = s })).1 ≡ ok tt)
    × ((poll 8 (restart 5 none (record q { shared = s })).0.shared).result ≡ pending)
wait_lifecycle_example =
    Restart.wait_lifecycle wait_codes (polls 7 ∷ restarts 5 none ∷ []) on_handle_5 5 none 8 refl
