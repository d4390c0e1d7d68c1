-- ===== src/Runtime/Wait/Restart.antt =====
-- When a wait can be started and restarted, and what its future returns then
-- (crates/runtime/src/wait/mod.rs).
use msft.Runtime.Wait.{
  WaitCodes, Handle, Shared, WaitPool, start, restart, cancel, poll, callback, cancelled,
  in_progress, arm, WaitError,
}
use msft.Runtime.Wait.Resolved.{
  World, Step, started, restarted, cancelled, fired, polled, woken_elsewhere,
}
use msft.Runtime.FileTime.{Duration}
use msft.Prelude.{
  ◌≡◌, ◌≢◌, true, false, Option, none, some, ok, err, pending, ready, List, [], ◌∷◌, arith,
}
use msft.Prelude.Wakers.{Sleepers, Waker}

pub data Run (codes : WaitCodes) (w : World) : World → Type 0 where
  here : Run codes w w
  next : {v u : World} → Run codes w v → Step codes v u → Run codes w u

Step-started :
    (codes : WaitCodes) {w v : World}
    → Step codes w v
    → w.pool.started ≡ true
    → v.pool.started ≡ true
unfolding start restart cancel
Step-started codes (started h t e) on = ground arith
Step-started codes {w} (restarted h t) on = ground arith
Step-started codes {w} cancelled on = ground arith
Step-started codes (fired code e) on = on
Step-started codes (polled cx) on = on
Step-started codes (woken_elsewhere i) on = on

Run-started :
    (codes : WaitCodes) {w v : World}
    → Run codes w v
    → w.pool.started ≡ true
    → v.pool.started ≡ true
Run-started codes here on = on
Run-started codes (next r s) on = Step-started codes s (Run-started codes r on)

-- After one successful `start`, every later `start` panics, whatever happens in between:
-- `restart`, `cancel`, callbacks and polls.
pub start-once :
    (codes : WaitCodes) (h : Handle) (t : Option Duration) (p : WaitPool) {q : WaitPool}
    {asleep : Sleepers} {last : Option Waker} {v : World}
    → start h t p ≡ some q
    → Run codes (record { pool = q; asleep = asleep; last = last }) v
    → (h' : Handle) (t' : Option Duration) → start h' t' v.pool ≡ none
unfolding start
start-once codes h t p e r h' t' = ground (arith, Run-started codes r (ground arith))

-- What callers do while they wait: poll the future, or try to restart.
pub data Quiet : Type 0 where
  polls : Waker → Quiet
  restarts : Handle → Option Duration → Quiet

abbrev pub quiet : Quiet → WaitPool → WaitPool
quiet (polls cx) p = record p { shared = (poll cx p.shared).after }
quiet (restarts h t) p = (restart h t p).0

abbrev pub quietly : List Quiet → WaitPool → WaitPool
quietly [] p = p
quietly (q ∷ qs) p = quietly qs (quiet q p)

quiet-pending :
    (q : Quiet) (p : WaitPool) → p.shared.result ≡ none → (quiet q p).shared.result ≡ none
unfolding poll restart
quiet-pending (polls cx) p h = ground arith
quiet-pending (restarts h' t) p h = ground arith

quietly-pending :
    (qs : List Quiet) (p : WaitPool) → p.shared.result ≡ none → (quietly qs p).shared.result ≡ none
quietly-pending [] p h = h
quietly-pending (q ∷ qs) p h = quietly-pending qs (quiet q p) (quiet-pending q p h)

-- A wait that nothing has resolved stays so however often its future is polled or a restart is
-- tried: the future is pending, and a restart is refused as in progress and changes nothing.
-- When the callback reports the object, the future is ready with success, a restart is granted,
-- and the restarted future is pending.
pub wait_lifecycle :
    (codes : WaitCodes) (qs : List Quiet) (p : WaitPool) (h : Handle) (t : Option Duration)
    (cx : Waker)
    → p.shared.result ≡ none
    → let q = quietly qs p in
      ((poll cx q.shared).result ≡ pending)
      × (restart h t q ≡ (q, err in_progress))
      × (s : Shared) × (woken : Option Waker) × (callback codes codes.wait_object_0 q.shared
          ≡ some (s, woken))
      × ((poll cx s).result ≡ ready (ok tt))
      × ((restart h t (record q { shared = s })).1 ≡ ok tt)
      × ((poll cx (restart h t (record q { shared = s })).0.shared).result ≡ pending)
unfolding poll restart callback
wait_lifecycle codes qs p h t cx e =
    let q = quietly qs p in
    let e' = quietly-pending qs p e in
    (
      ground arith,
      ground arith,
      record (q.shared) { result = some (ok tt) },
      q.shared.waker,
      ground arith,
      ground arith,
      ground arith,
      ground arith,
    )

-- `start` does not clear a result: on a pool that was cancelled before its first start, the new
-- wait is armed, and its future is at once ready as cancelled.
pub start-cancel_stale :
    (p : WaitPool) (h : Handle) (t : Option Duration) (cx : Waker)
    → p.started ≡ false
    → p.shared.result ≡ none
    → (q : WaitPool) × (start h t (cancel p).0 ≡ some q)
      × (q.pool ≢ none)
      × ((poll cx q.shared).result ≡ ready (err WaitError.cancelled))
unfolding start cancel poll arm
start-cancel_stale p h t cx fresh e = (
  record ((cancel p).0) { started = true; pool = arm h t },
  ground arith,
  ground arith,
  ground arith,
)
