-- ===== src/Runtime/Timer/FutureRace.antt =====
-- `TimerFuture::poll` of crates/runtime/src/timer/mod.rs against the timer's callback and
-- `TimerPool::cancel`, access by access. The poll looks at the queue first and stores its waker after
-- that, under no lock.
use msft.Runtime.Timer.{Shared, fire, register, stop}
use msft.Prelude.{ℕ, ◌<◌, ◌≡◌, ◌⊎◌, inl, inr, Bool, false, none, some, arith, refl, suc}
use msft.Prelude.Wakers.{update_waker, Waker}
use mathlib.Core.Path.{subst}
use msft.Prelude.Tasks.{Task, runnable, polling, sleeping, finished, wake_slot, suspend}

-- The poll has found the queue empty.
pub data Phase : Type 0 where
  found_empty : Phase

-- The callback has pushed the timeout, and is about to wake.
pub data Callback : Type 0 where
  idle pushed : Callback

-- `TimerPool::cancel` has stored the stop, and is about to wake.
pub data Cancel : Type 0 where
  no_cancel stop_stored : Cancel

pub record World : Type 0 where
  pub shared : Shared
  pub task : Task Phase
  pub callback : Callback
  pub cancel : Cancel

module _ (me : Waker) where
  -- A step of the poll, of the callback, or of a cancel.
  pub data Step (w : World) : World → Type 0 where
    sees_timeout : w.task ≡ runnable → 0 < w.shared.timeouts → Step w (record w { task = finished })
    sees_none :
        w.task ≡ runnable
        → w.shared.timeouts ≡ 0
        → Step w (record w { task = polling found_empty false })
    stores_waker :
        (n : Bool)
        → w.task ≡ polling found_empty n
        → Step w (record w { shared = register me w.shared; task = suspend n })
    pushes : w.callback ≡ idle → Step w (record w { shared = fire w.shared; callback = pushed })
    wakes :
        w.callback ≡ pushed
        → Step w (record w { task = wake_slot me w.shared.waker w.task; callback = idle })
    stores_stop :
        w.cancel ≡ no_cancel → Step w (record w { shared = stop w.shared; cancel = stop_stored })
    cancel_wakes :
        w.cancel ≡ stop_stored
        → Step w (record w { task = wake_slot me w.shared.waker w.task; cancel = no_cancel })

  pub data Reach (w : World) : World → Type 0 where
    here : Reach w w
    later : {v u : World} → Reach w v → Step v u → Reach w u

-- A timer that no task has polled, with an empty queue and room in it, and a task that will poll.
abbrev pub unpolled : Bool → ℕ → Shared
unpolled stopped n = record { waker = none; stopped = stopped; timeouts = 0; capacity = suc n }

abbrev pub before : Shared → World
before s = record { shared = s; task = runnable; callback = idle; cancel = no_cancel }

-- The callback is over, no cancel is made, its timeout is queued, and the task sleeps.
abbrev pub lost : Waker → Shared → World
lost me s = record {
  shared = record s { waker = some me; timeouts = 1 };
  task = sleeping;
  callback = idle;
  cancel = no_cancel;
}

fire-unpolled :
    (stopped : Bool) (n : ℕ)
    → fire (unpolled stopped n) ≡ record (unpolled stopped n) { timeouts = 1 }
unfolding fire
fire-unpolled stopped n = ground arith

pushes_to :
    (me : Waker) {w : World} {s : Shared}
    → w.callback ≡ idle
    → fire w.shared ≡ s
    → Step me w (record w { shared = s; callback = pushed })
pushes_to me {w} e f =
    subst (λ s. Step me w (record w { shared = s; callback = pushed })) f (pushes e)

lost-Reach :
    (me : Waker) (stopped : Bool) (n : ℕ)
    → Reach me (before (unpolled stopped n)) (lost me (unpolled stopped n))
unfolding register update_waker
lost-Reach me stopped n =
    later
      (later
        (later (later here (sees_none refl refl)) (pushes_to me refl (fire-unpolled stopped n)))
        (wakes refl))
      (stores_waker false refl)

pushes_or_stops :
    (me : Waker) (s : Shared) {v : World}
    → Step me (lost me s) v
    → (v.callback ≡ pushed) ⊎ (v.cancel ≡ stop_stored)
pushes_or_stops me s (sees_timeout e h) = cc
pushes_or_stops me s (sees_none e h) = cc
pushes_or_stops me s (stores_waker n e) = cc
pushes_or_stops me s (pushes e) = inl refl
pushes_or_stops me s (wakes e) = cc
pushes_or_stops me s (stores_stop e) = inr refl
pushes_or_stops me s (cancel_wakes e) = cc

-- A wake-up can be lost. From a timer that no task has polled, an order of the steps of one poll
-- and one callback leads to a state in which a timeout is queued and the task sleeps; and any step of the
-- poll, of the callbacks and of `TimerPool::cancel` from there is another callback's push, which a oneshot
-- timer does not make, or the begin of a cancel.
pub wakeup_lost :
    (me : Waker) (stopped : Bool) (n : ℕ) {v : World}
    → Step me (lost me (unpolled stopped n)) v
    → let w = lost me (unpolled stopped n) in
      Reach me (before (unpolled stopped n)) w
      × (w.task ≡ sleeping)
      × (0 < w.shared.timeouts)
      × ((v.callback ≡ pushed) ⊎ (v.cancel ≡ stop_stored))
wakeup_lost me stopped n st =
    (lost-Reach me stopped n, refl, omega arith, pushes_or_stops me (unpolled stopped n) st)
