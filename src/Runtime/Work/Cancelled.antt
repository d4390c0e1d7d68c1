-- ===== src/Runtime/Work/Cancelled.antt =====
-- Where the result that the future of a worker returns comes from.
use msft.Runtime.Work.{Submitted, running, take_inner, resolve, cancel_with, poll}
use msft.Runtime.Work.Once.{
  World, Step, submits, begins, returns, cancels_with, polls, woken_elsewhere, Reach, start, later,
}
use msft.Prelude.{◌<◌, ◌≡◌, ◌⊎◌, none, some, ready, arith}
use msft.Prelude.Wakers.{Waker}

abbrev Runs : {W : Type 0} → W → Submitted W → Type 0
Runs work (running w) = w ≡ work
Runs work _ = Unit

record Origin {W O : Type 0} (work_once : W → O) (work : W) (w : World W O) : Type 0 where
  inner : (w.shared.inner ≡ none) ⊎ (w.shared.inner ≡ some work)
  runs : Runs work w.handle
  result :
      (w.shared.state.result ≡ none)
      ⊎ ((w.shared.state.result ≡ some (work_once work)) ⊎ (0 < w.cancels))

Step-Origin :
    {W O : Type 0} (work_once : W → O) (work : W) {w v : World W O}
    → Step work_once w v
    → Origin work_once work w
    → Origin work_once work v
unfolding take_inner resolve cancel_with poll
Step-Origin work_once work {w} (submits e) o = ground arith
Step-Origin work_once work {w} (begins e work' t) o = ground arith
Step-Origin work_once work {w} (returns work' e) o = ground arith
Step-Origin work_once work {w} (cancels_with result e f) o = ground arith
Step-Origin work_once work {w} (polls cx) o = ground arith
Step-Origin work_once work {w} (woken_elsewhere i) o = ground arith

Reach-Origin :
    {W O : Type 0} (work_once : W → O) (work : W) {w : World W O}
    → Reach work_once work w
    → Origin work_once work w
Reach-Origin work_once work start = ground arith
Reach-Origin work_once work (later r st) =
    Step-Origin work_once work st (Reach-Origin work_once work r)

-- In every reachable state in which the guard was not cancelled, a poll that is ready returns what the
-- worker returns.
pub poll-work_once :
    {W O : Type 0} (work_once : W → O) (work : W) {w : World W O}
    → Reach work_once work w
    → w.cancels ≡ 0
    → (cx : Waker) {o : O} → (poll cx w.shared).1 ≡ ready o
    → o ≡ work_once work
unfolding poll
poll-work_once work_once work r none_cancelled cx e = ground (arith, Reach-Origin work_once work r)
