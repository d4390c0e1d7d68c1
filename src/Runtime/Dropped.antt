-- ===== src/Runtime/Dropped.antt =====
-- The life of a pool of crates/runtime/src/wait/mod.rs or crates/runtime/src/timer/mod.rs, with its futures,
-- beside the callbacks that the kernel makes: from its creation to the drop, call by call.
pub mod Kept
use msft.Runtime.FileTime.{Duration, FileTime}
use msft.Runtime.Handles.{
  Answers, Call, create_wait, create_timer, set_wait, set_timer, wait_callbacks, close, new_wait,
  new_timer, start_wait, start_timer, stop_wait, stop_timer, Action, call, release, drop_wait_pool,
  drop_timer_pool,
}
use msft.Prelude.{
  ℕ, suc, ◌-◌, ◌≡◌, Bool, true, false, not, Option, none, some, List, [], ◌∷◌, Result, ok, ◌==◌,
  if◌then◌else◌,
}

pub data Kind : Type 0 where
  of_wait of_timer : Kind

-- Whether the handle is open, whether the kernel would queue a callback, and those queued and running.
pub record Kernel : Type 0 where
  pub handle_open : Bool
  pub armed : Bool
  pub queued : ℕ
  pub running : ℕ

abbrev pub nothing_open : Kernel
nothing_open = record { handle_open = false; armed = false; queued = 0; running = 0 }

abbrev given : Option FileTime → Bool
given none = false
given (some t) = true

-- A call on another handle does nothing to this one. A wait is set with an object, a timer with a time.
abbrev pub effect : Answers → Call → Kernel → Kernel
effect answers (create_wait env) k = record k { handle_open = not (answers.handle == 0) }
effect answers (create_timer env) k = record k { handle_open = not (answers.handle == 0) }
effect answers (set_wait h object t) k =
    if h == answers.handle then record k { armed = not (object == 0) } else k
effect answers (set_timer h due period window) k =
    if h == answers.handle then record k { armed = given due } else k
effect answers (wait_callbacks h c) k =
    if h == answers.handle then record k { queued = if c == 0 then k.queued else 0 } else k
effect answers (close h) k = if h == answers.handle then record k { handle_open = false } else k

abbrev pub effects : Answers → List Call → Kernel → Kernel
effects answers [] k = k
effects answers (c ∷ cs) k = effects answers cs (effect answers c k)

abbrev pub new_handle : Kind → Answers → Option ℕ → List Call × Result ℕ ℕ
new_handle of_wait answers env = new_wait answers env
new_handle of_timer answers env = new_timer answers env

abbrev pub stop_calls : Kind → ℕ → List Call
stop_calls of_wait h = stop_wait h
stop_calls of_timer h = stop_timer h

abbrev pub drop_pool : Kind → ℕ → List Action
drop_pool of_wait h = drop_wait_pool h
drop_pool of_timer h = drop_timer_pool h

-- The owner has the pool, or drops it and has this left to do. The pool and its futures share a state,
-- which is there while one of them holds it; `holders` is the count of the `Arc`.
pub record World : Type 0 where
  pub kernel : Kernel
  pub owner : Option (List Action)
  pub futures : ℕ
  pub holders : ℕ
  pub freed : Bool

abbrev pub created : Kernel → World
created k = record { kernel = k; owner = none; futures = 0; holders = 1; freed = false }

-- A reference less; the last one frees the state.
abbrev pub released : World → World
released w = record w { holders = w.holders - 1; freed = if w.holders == 1 then true else w.freed }

abbrev pub act : Answers → Action → World → World
act answers (call c) w = record w { kernel = effect answers c w.kernel }
act answers release w = released w

-- Waiting for callbacks returns once none runs.
abbrev pub CanReturn : Action → World → Type 0
CanReturn (call (wait_callbacks h c)) w = w.kernel.running ≡ 0
CanReturn _ w = Unit

module _ (kind : Kind) (answers : Answers) (handle : ℕ) where
  -- The owner starts and stops the wait or the timer, hands out futures, and drops the pool; the kernel
  -- queues a callback, for the last time or not, and callbacks begin and return.
  pub data Step (w : World) : World → Type 0 where
    starts_wait :
        w.owner ≡ none
        → kind ≡ of_wait
        → (object : ℕ) (timeout : Option Duration)
        → Step w (record w { kernel = effects answers (start_wait handle object timeout) w.kernel })
    starts_timer :
        w.owner ≡ none
        → kind ≡ of_timer
        → (overflow_checks : Bool) (due : Duration) (period window : ℕ) {calls : List Call}
        → start_timer overflow_checks handle due period window ≡ some calls
        → Step w (record w { kernel = effects answers calls w.kernel })
    stops :
        w.owner ≡ none
        → Step w (record w { kernel = effects answers (stop_calls kind handle) w.kernel })
    gives_future :
        w.owner ≡ none → Step w (record w { futures = suc w.futures; holders = suc w.holders })
    drops_future : {n : ℕ} → w.futures ≡ suc n → Step w (record (released w) { futures = n })
    drops : w.owner ≡ none → Step w (record w { owner = some (drop_pool kind handle) })
    acts :
        {a : Action} {rest : List Action}
        → w.owner ≡ some (a ∷ rest)
        → CanReturn a w
        → Step w (record (act answers a w) { owner = some rest })
    fires :
        w.kernel.armed ≡ true
        → (again : Bool)
        → Step w (record w {
          kernel = record (w.kernel) { armed = again; queued = suc w.kernel.queued };
        })
    begins :
        {n : ℕ}
        → w.kernel.queued ≡ suc n
        → Step w
            (record w { kernel = record (w.kernel) { queued = n; running = suc w.kernel.running } })
    returns :
        {n : ℕ}
        → w.kernel.running ≡ suc n
        → Step w (record w { kernel = record (w.kernel) { running = n } })

  -- From a pool that is created in this environment.
  pub data Reach (env : Option ℕ) : World → Type 0 where
    fresh :
        {k : Kernel}
        → (new_handle kind answers env).1 ≡ ok handle
        → effects answers (new_handle kind answers env).0 nothing_open ≡ k
        → Reach env (created k)
    later : {w v : World} → Reach env w → Step w v → Reach env v
