-- ===== src/Runtime/Work/Once.antt =====
-- The runs of a worker, its result and who sleeps on it, in every order of submission, callback,
-- cancellation and polls (crates/runtime/src/work/mod.rs).
use msft.Runtime.Work.{
  Oneshot, Submitted, not_yet, queued, running, over, new, take_inner, resolve, cancel_with, poll,
}
use msft.Prelude.{
  ℕ, ◌+◌, ◌≤◌, ◌≡◌, ◌≢◌, ◌⊎◌, Bool, true, false, Option, none, some, Poll, pending, ready, arith,
  refl, inl,
}
use msft.Prelude.Wakers.{
  Waker, Sleepers, nobody, awoken, with_sleeper, Attended, has_result, has_result-true,
  awoken-Attended, awake-Attended, taken-Attended, pending-Attended, Attended-replaced,
}

-- The shared state and the work handle; the tasks that sleep on the futures, of which there may be any
-- number over the one state, and the task whose poll was the last to be pending; and how often the worker
-- has begun, the guard cancelled with a result, and a future was ready.
pub record World (W O : Type 0) : Type 0 where
  pub shared : Oneshot W O
  pub handle : Submitted W
  pub asleep : Sleepers
  pub last : Option Waker
  pub runs : ℕ
  pub cancels : ℕ
  pub delivered : ℕ

abbrev pub init : {W O : Type 0} → W → World W O
init work = record {
  shared = new work;
  handle = not_yet;
  asleep = nobody;
  last = none;
  runs = 0;
  cancels = 0;
  delivered = 0;
}

abbrev is_pending : {O : Type 0} → Poll O → Bool
is_pending pending = true
is_pending (ready _) = false

abbrev last_pending : {O : Type 0} → Waker → Option Waker → Poll O → Option Waker
last_pending cx before pending = some cx
last_pending cx before (ready _) = before

abbrev ready_count : {O : Type 0} → Poll O → ℕ
ready_count pending = 0
ready_count (ready _) = 1

abbrev pub IsRunning : {W : Type 0} → Submitted W → Type 0
IsRunning (running _) = Unit
IsRunning _ = ⊥

-- What `WaitForThreadpoolWorkCallbacks` leaves with pending callbacks cancelled. It returns when no
-- callback runs.
abbrev pub drained : {W : Type 0} → Submitted W → Submitted W
drained not_yet = not_yet
drained _ = over

module _ {W O : Type 0} (work_once : W → O) where
  pub data Step (w : World W O) : World W O → Type 0 where
    submits : w.handle ≡ not_yet → Step w (record w { handle = queued })
    begins :
        w.handle ≡ queued
        → (work : W) {s : Oneshot W O} → take_inner w.shared ≡ some (work, s)
        → Step w (record w { shared = s; handle = running work; runs = w.runs + 1 })
    returns :
        (work : W)
        → w.handle ≡ running work
        → Step w (record w {
          shared = (resolve (work_once work) w.shared).0;
          handle = over;
          asleep = awoken (resolve (work_once work) w.shared).1 w.asleep;
        })
    cancels_with :
        (result : O)
        → w.handle ≢ not_yet
        → ¬ IsRunning w.handle
        → Step w (record w {
          shared = (cancel_with result w.shared).0;
          handle = drained w.handle;
          asleep = awoken (cancel_with result w.shared).1 w.asleep;
          cancels = w.cancels + 1;
        })
    polls :
        (cx : Waker)
        → Step w (record w {
          shared = (poll cx w.shared).0;
          asleep = with_sleeper cx (is_pending (poll cx w.shared).1) w.asleep;
          last = last_pending cx w.last (poll cx w.shared).1;
          delivered = w.delivered + ready_count (poll cx w.shared).1;
        })
    woken_elsewhere : (i : Waker) → Step w (record w { asleep = awoken (some i) w.asleep })

  pub data Reach (work : W) : World W O → Type 0 where
    start : Reach work (init work)
    later : {w v : World W O} → Reach work w → Step w v → Reach work v

abbrev held : {O : Type 0} → Option O → ℕ
held none = 0
held (some _) = 1

-- A worker that waits to run is in its place, and has not run; a running one has run once and left
-- no result of its own.
abbrev Phase : {W : Type 0} → Submitted W → Option W → ℕ → Type 0
Phase not_yet inner runs = (inner ≢ none) × (runs ≡ 0)
Phase queued inner runs = (inner ≢ none) × (runs ≡ 0)
Phase (running _) inner runs = runs ≡ 1
Phase over inner runs = runs ≤ 1

abbrev finished : {W : Type 0} → Submitted W → ℕ → ℕ
finished (running _) runs = 0
finished _ runs = runs

pub record Inv {W O : Type 0} (w : World W O) : Type 0 where
  pub phase : Phase w.handle w.shared.inner w.runs
  pub once : w.delivered + held w.shared.state.result ≤ finished w.handle w.runs + w.cancels

Step-Inv : {W O : Type 0} (work_once : W → O) {w v : World W O} → Step work_once w v → Inv w → Inv v
unfolding take_inner resolve cancel_with poll
Step-Inv work_once {w} (submits e) inv = ground arith
Step-Inv work_once {w} (begins e work t) inv = ground arith
Step-Inv work_once {w} (returns work e) inv = ground arith
Step-Inv work_once {w} (cancels_with result e f) inv = ground arith
Step-Inv work_once {w} (polls cx) inv = ground arith
Step-Inv work_once {w} (woken_elsewhere i) inv = ground arith

Reach-Inv :
    {W O : Type 0} (work_once : W → O) {work : W} {w : World W O} → Reach work_once work w → Inv w
Reach-Inv work_once start = ground arith
Reach-Inv work_once (later r st) = Step-Inv work_once st (Reach-Inv work_once r)

-- In every reachable state the worker has begun at most once, and a callback that is about to begin
-- finds the worker in its place: its `take` does not reach `unreachable!`.
pub worker_once :
    {W O : Type 0} (work_once : W → O) {work : W} {w : World W O}
    → Reach work_once work w
    → (w.runs ≤ 1) × ((w.handle ≢ queued) ⊎ (take_inner w.shared ≢ none))
unfolding take_inner
worker_once work_once r = ground (arith, Reach-Inv work_once r)

abbrev Watched : {W O : Type 0} → World W O → Type 0
Watched w = Attended w.shared.state.waker w.last w.asleep (has_result w.shared.state.result)

polled-Watched :
    {W O : Type 0} (cx : Waker) (r : Option O) (w : World W O)
    → w.shared.state.result ≡ r
    → Watched w
    → Watched (record w {
      shared = (poll cx w.shared).0;
      asleep = with_sleeper cx (is_pending (poll cx w.shared).1) w.asleep;
      last = last_pending cx w.last (poll cx w.shared).1;
    })
unfolding poll
polled-Watched cx none w e h = rw e (pending-Attended w.shared.state.waker cx w.asleep)
polled-Watched cx (some r) w e h = rw e (taken-Attended (awake-Attended cx h))

Step-Watched :
    {W O : Type 0} (work_once : W → O) {w v : World W O}
    → Step work_once w v
    → Watched w
    → Watched v
unfolding take_inner resolve cancel_with
Step-Watched work_once (submits e) h = h
Step-Watched work_once {w} (begins e work {s} t) h =
    let same : s.state ≡ w.shared.state = ground arith in rw same h
Step-Watched work_once (returns work e) h = awoken-Attended none true h
Step-Watched work_once (cancels_with result e f) h = awoken-Attended none true h
Step-Watched work_once {w} (polls cx) h = polled-Watched cx w.shared.state.result w refl h
Step-Watched work_once (woken_elsewhere i) h = awake-Attended i h

Reach-Watched :
    {W O : Type 0} (work_once : W → O) {work : W} {w : World W O}
    → Reach work_once work w
    → Watched w
Reach-Watched work_once start = record {
  registered = inl refl;
  woken = inl refl;
  has_polled = λ i a. ground arith;
}
Reach-Watched work_once (later r st) = Step-Watched work_once st (Reach-Watched work_once r)

-- Any number of tasks poll the futures of a worker, which share one slot for a waker. In every reachable
-- state the futures have been ready at most as often as the worker began and the guard cancelled together;
-- and while a result is there, no task is asleep but those that polled before another one did: the task whose
-- poll was the last to be pending is awake.
pub delivered_once :
    {W O : Type 0} (work_once : W → O) {work : W} {w : World W O}
    → Reach work_once work w
    → (w.delivered ≤ w.runs + w.cancels)
      × ((i : Waker)
          → w.shared.state.result ≢ none
          → w.asleep i ≡ true
          → (j : Waker) × (w.last ≡ some j) × (j ≢ i) × (w.asleep j ≡ false))
delivered_once work_once {w = w} r = (
  ground (arith, Reach-Inv work_once r),
  λ i h a.
      Attended-replaced i (Reach-Watched work_once r) (has_result-true w.shared.state.result h) a,
)
