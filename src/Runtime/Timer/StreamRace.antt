-- ===== src/Runtime/Timer/StreamRace.antt =====
-- `TimerStream::poll_next` of crates/runtime/src/timer/mod.rs against the timer's callback and
-- `TimerPool::cancel`, access by access. The poll tests `stopped`, then stores its waker, then pops.
use msft.Runtime.Timer.{Shared, fire, register, stop}
use msft.Prelude.{refl, ℕ, ◌-◌, ◌<◌, ◌≡◌, ◌⊎◌, Bool, true, false, Option, some, arith, none}
use msft.Prelude.Wakers.{update_waker, Waker, update_waker-eq-some}
use msft.Prelude.Tasks.{Task, runnable, polling, sleeping, finished, wake_slot, suspend}

pub data Phase : Type 0 where
  not_stopped registered : Phase

-- The callback has pushed a timeout, or `cancel` has set `stopped`, and is about to wake.
pub data Waking : Type 0 where
  idle due : Waking

pub record World : Type 0 where
  pub shared : Shared
  pub task : Task Phase
  pub callback : Waking
  pub cancel : Waking

module _ (me : Waker) where
  pub data Step (w : World) : World → Type 0 where
    sees_stop : w.task ≡ runnable → w.shared.stopped ≡ true → Step w (record w { task = finished })
    sees_go :
        w.task ≡ runnable
        → w.shared.stopped ≡ false
        → Step w (record w { task = polling not_stopped false })
    stores_waker :
        (n : Bool)
        → w.task ≡ polling not_stopped n
        → Step w (record w { shared = register me w.shared; task = polling registered n })
    pops :
        (n : Bool)
        → w.task ≡ polling registered n
        → 0 < w.shared.timeouts
        → Step w (record w {
          shared = record (w.shared) { timeouts = w.shared.timeouts - 1 };
          task = runnable;
        })
    pops_none :
        (n : Bool)
        → w.task ≡ polling registered n
        → w.shared.timeouts ≡ 0
        → Step w (record w { task = suspend n })
    pushes : w.callback ≡ idle → Step w (record w { shared = fire w.shared; callback = due })
    wakes :
        w.callback ≡ due
        → Step w (record w { task = wake_slot me w.shared.waker w.task; callback = idle })
    stops : w.cancel ≡ idle → Step w (record w { shared = stop w.shared; cancel = due })
    cancel_wakes :
        w.cancel ≡ due
        → Step w (record w { task = wake_slot me w.shared.waker w.task; cancel = idle })

  pub data Reach (w : World) : World → Type 0 where
    here : Reach w w
    later : {v u : World} → Reach w v → Step v u → Reach w u

-- A timer as `reset` leaves it, and a task that will poll.
abbrev pub before : Option Waker → ℕ → World
before slot capacity = record {
  shared = record { waker = slot; stopped = false; timeouts = 0; capacity = capacity };
  task = runnable;
  callback = idle;
  cancel = idle;
}

-- Who has polled up to its registration, and not been notified since, finds its waker in the slot;
-- and if it sleeps or will, while timeouts are queued, the callback is about to wake it.
abbrev pub Safe : Waker → Shared → Waking → Task Phase → Type 0
Safe me s callback sleeping = (s.waker ≡ some me) × ((s.timeouts ≡ 0) ⊎ (callback ≡ due))
Safe me s callback (polling registered false) = s.waker ≡ some me
Safe me s callback _ = Unit

abbrev pub Inv : Waker → World → Type 0
Inv me w = Safe me w.shared w.callback w.task

Step-Inv : (me : Waker) {w v : World} → Step me w v → Inv me w → Inv me v
unfolding fire register
Step-Inv me {w} (sees_stop e h) inv = ground arith
Step-Inv me {w} (sees_go e h) inv = ground arith
Step-Inv me {w} (stores_waker n e) inv = ground (arith, update_waker-eq-some w.shared.waker me)
Step-Inv me {w} (pops n e h) inv = ground arith
Step-Inv me {w} (pops_none n e h) inv = ground arith
Step-Inv me {w} (pushes e) inv = ground arith
Step-Inv me {w} (wakes e) inv = ground arith
Step-Inv me {w} (stops e) inv = ground arith
Step-Inv me {w} (cancel_wakes e) inv = ground arith

Reach-Inv : (me : Waker) {w v : World} → Reach me w v → Inv me w → Inv me v
Reach-Inv me here inv = inv
Reach-Inv me (later r st) inv = Step-Inv me st (Reach-Inv me r inv)

sleeping-Safe :
    (me : Waker) (w : World)
    → Inv me w
    → w.task ≡ sleeping
    → 0 < w.shared.timeouts
    → (w.callback ≡ due) × (w.shared.waker ≡ some me)
sleeping-Safe me w inv asleep queued = ground arith

-- No timeout is lost to a sleeper: in every state that a reset timer reaches, whatever waker is in
-- its slot, a task that sleeps while a timeout is queued is about to be woken by a callback.
pub timeout_wakes :
    (me : Waker) (slot : Option Waker) (capacity : ℕ) {w : World}
    → Reach me (before slot capacity) w
    → w.task ≡ sleeping
    → 0 < w.shared.timeouts
    → (w.callback ≡ due) × (w.shared.waker ≡ some me)
timeout_wakes me slot capacity {w} r asleep queued =
    sleeping-Safe me w (Reach-Inv me r tt) asleep queued

-- The state after `cancel` has come between the test of `stopped` and the store of the waker.
abbrev pub stop_missed : Waker → ℕ → World
stop_missed me capacity = record {
  shared = record { waker = some me; stopped = true; timeouts = 0; capacity = capacity };
  task = sleeping;
  callback = idle;
  cancel = idle;
}

-- The stop can be lost: from a reset timer that has no waker in its slot, one poll and one `cancel`
-- can end with the stream stopped, its task asleep, and nobody about to wake it.
pub stop_lost :
    (me : Waker) (capacity : ℕ) → Reach me (before none capacity) (stop_missed me capacity)
unfolding register update_waker
stop_lost me capacity =
    later
      (later (later (later (later here (sees_go refl refl)) (stops refl)) (cancel_wakes refl))
        (stores_waker false refl))
      (pops_none false refl refl)
