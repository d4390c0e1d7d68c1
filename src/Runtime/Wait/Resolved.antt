-- ===== src/Runtime/Wait/Resolved.antt =====
-- Who sleeps on a wait that is resolved, whatever the pool, its futures and the kernel do
-- (crates/runtime/src/wait/mod.rs).
use msft.Runtime.Wait.{
  WaitCodes, WaitResult, Handle, Shared, WaitPool, new, start, restart, cancel, poll, callback,
}
use msft.Runtime.FileTime.{Duration}
use msft.Prelude.{
  ℕ, ◌≡◌, ◌≢◌, Bool, true, false, Option, none, some, Poll, pending, ready, arith, Option-cases,
  inl, inr, refl,
}
use msft.Prelude.Wakers.{
  Waker, Sleepers, nobody, awoken, with_sleeper, Attended, has_result, has_result-true,
  awoken-Attended, awake-Attended, taken-Attended, pending-Attended, Attended-replaced,
}

-- The pool; the tasks that sleep on its futures, of which there may be any number over its one state; and
-- the task whose poll was the last to find the wait unresolved.
pub record World : Type 0 where
  pub pool : WaitPool
  pub asleep : Sleepers
  pub last : Option Waker

abbrev pub is_pending : Poll WaitResult → Bool
is_pending pending = true
is_pending (ready _) = false

abbrev pub last_pending : Waker → Option Waker → Poll WaitResult → Option Waker
last_pending cx before pending = some cx
last_pending cx before (ready _) = before

module _ (codes : WaitCodes) where
  -- A callback fires at any time: one that is queued still fires after `cancel`. A task polls one of the
  -- futures, or is woken by something else.
  pub data Step (w : World) : World → Type 0 where
    started :
        (h : Handle) (t : Option Duration) {p : WaitPool}
        → start h t w.pool ≡ some p
        → Step w (record w { pool = p })
    restarted :
        (h : Handle) (t : Option Duration) → Step w (record w { pool = (restart h t w.pool).0 })
    cancelled :
        Step w (record w { pool = (cancel w.pool).0; asleep = awoken (cancel w.pool).1 w.asleep })
    fired :
        (code : ℕ) {s : Shared} {woken : Option Waker}
        → callback codes code w.pool.shared ≡ some (s, woken)
        → Step w
            (record w { pool = record (w.pool) { shared = s }; asleep = awoken woken w.asleep })
    polled :
        (cx : Waker)
        → Step w (record {
          pool = record (w.pool) { shared = (poll cx w.pool.shared).after };
          asleep =
              with_sleeper cx
                (is_pending (poll cx w.pool.shared).result)
                (awoken (poll cx w.pool.shared).woken w.asleep);
          last = last_pending cx w.last (poll cx w.pool.shared).result;
        })
    woken_elsewhere : (i : Waker) → Step w (record w { asleep = awoken (some i) w.asleep })

  pub data Reach : World → Type 0 where
    fresh : Reach (record { pool = new; asleep = nobody; last = none })
    later : {w v : World} → Reach w → Step w v → Reach v

abbrev pub Inv : World → Type 0
Inv w = Attended w.pool.shared.waker w.last w.asleep (has_result w.pool.shared.result)

cancelled-Inv :
    (r : Option WaitResult) (w : World)
    → w.pool.shared.result ≡ r
    → Inv w
    → Inv (record w { pool = (cancel w.pool).0; asleep = awoken (cancel w.pool).1 w.asleep })
unfolding cancel
cancelled-Inv none w e inv = rw e (awoken-Attended none true inv)
cancelled-Inv (some r) w e inv = rw e (rw e at inv)

polled-Inv :
    (cx : Waker) (r : Option WaitResult) (w : World)
    → w.pool.shared.result ≡ r
    → Inv w
    → Inv (record {
      pool = record (w.pool) { shared = (poll cx w.pool.shared).after };
      asleep =
          with_sleeper cx
            (is_pending (poll cx w.pool.shared).result)
            (awoken (poll cx w.pool.shared).woken w.asleep);
      last = last_pending cx w.last (poll cx w.pool.shared).result;
    })
unfolding poll
polled-Inv cx none w e inv = rw e (pending-Attended w.pool.shared.waker cx w.asleep)
polled-Inv cx (some r) w e inv = rw e (awake-Attended cx (awoken-Attended none true inv))

fired-Inv :
    (codes : WaitCodes) (code : ℕ) (w : World) (s : Shared) (woken : Option Waker)
    → callback codes code w.pool.shared ≡ some (s, woken)
    → (woken ≡ w.pool.shared.waker)
unfolding callback
fired-Inv codes code w s woken e = ground arith

Step-Inv : (codes : WaitCodes) {w v : World} → Step codes w v → Inv w → Inv v
unfolding start restart cancel callback poll
Step-Inv codes {w} (started h t {p} e) inv =
    let same : p.shared ≡ w.pool.shared = ground arith in rw same inv
Step-Inv codes {w} (restarted h t) inv = elim (Option-cases w.pool.shared.result) [
  | inl e ↦ rw e (rw e at inv)
  | inr (r, e) ↦ rw e (taken-Attended inv)
]
Step-Inv codes {w} (cancelled) inv = cancelled-Inv w.pool.shared.result w refl inv
Step-Inv codes {w} (fired code {s} {woken} e) inv =
    rw (fired-Inv codes code w s woken e) (awoken-Attended s.waker (has_result s.result) inv)
Step-Inv codes {w} (polled cx) inv = polled-Inv cx w.pool.shared.result w refl inv
Step-Inv codes {w} (woken_elsewhere i) inv = awake-Attended i inv

Reach-Inv : (codes : WaitCodes) {w : World} → Reach codes w → Inv w
Reach-Inv codes fresh = record {
  registered = inl refl;
  woken = inl refl;
  has_polled = λ i a. ground arith;
}
Reach-Inv codes (later r s) = Step-Inv codes s (Reach-Inv codes r)

-- Any number of tasks poll the futures of a pool, which share one slot for a waker. In every state that the
-- pool reaches, a resolved wait leaves asleep no task but those that polled before another one did: the task
-- whose poll was the last to be pending is awake.
pub resolved-awake :
    (codes : WaitCodes) {w : World}
    → Reach codes w
    → w.pool.shared.result ≢ none
    → (i : Waker) → w.asleep i ≡ true
    → (j : Waker) × (w.last ≡ some j) × (j ≢ i) × (w.asleep j ≡ false)
resolved-awake codes {w} r h i a =
    Attended-replaced i (Reach-Inv codes r) (has_result-true w.pool.shared.result h) a
