-- ===== src/Runtime/Work/Handle/Over.antt =====
-- The life of a work pool (crates/runtime/src/work/mod.rs), its guard and its futures, beside the callback.
use msft.Runtime.Work.Handle.{
  Answers, Call, create_work, submit_work, wait_callbacks, close_work, with_environment_raw,
  submit_once, once, Action, call, release, drop_guard,
}
use msft.Prelude.{
  ℕ, suc, ◌+◌, ◌-◌, ◌<◌, ◌≤◌, ◌≡◌, ◌≢◌, ◌⊎◌, Bool, true, false, not, Option, none, some, List, [],
  ◌∷◌, ok, err, ◌==◌, if◌then◌else◌, arith,
}

-- The work in the kernel: whether its handle is open, and the callbacks that are queued and that run.
pub record Kernel : Type 0 where
  pub handle_open : Bool
  pub queued : ℕ
  pub running : ℕ

abbrev pub nothing_open : Kernel
nothing_open = record { handle_open = false; queued = 0; running = 0 }

-- A call on another handle does nothing to this one.
abbrev pub effect : Answers → Call → Kernel → Kernel
effect answers (create_work env) k = record k { handle_open = not (answers.handle == 0) }
effect answers (submit_work h) k =
    if h == answers.handle then record k { queued = suc k.queued } else k
effect answers (wait_callbacks h c) k =
    if h == answers.handle then record k { queued = if c == 0 then k.queued else 0 } else k
effect answers (close_work h) k =
    if h == answers.handle then record k { handle_open = false } else k

abbrev pub effects : Answers → List Call → Kernel → Kernel
effects answers [] k = k
effects answers (c ∷ cs) k = effects answers cs (effect answers c k)

-- `once` fails with the kernel's error, and leaves nothing open and nothing queued; or it gives the
-- kernel's handle, with one callback queued.
pub once_opens :
    (answers : Answers)
    → ((once answers).1 ≡ err answers.last_os_error)
        × (answers.handle ≡ 0)
        × (effects answers (once answers).0 nothing_open ≡ nothing_open)
      ⊎ ((once answers).1 ≡ ok answers.handle)
        × (answers.handle ≢ 0)
        × (effects answers (once answers).0 nothing_open
            ≡ record { handle_open = true; queued = 1; running = 0 })
unfolding once
once_opens answers = ground arith

-- The owner holds the pool or the guard, or gives it up and has this left to do. The worker is there
-- while the pool or the guard, or a future, holds it; `holders` is the count of the `Arc`.
pub record World : Type 0 where
  pub kernel : Kernel
  pub submitted : Bool
  pub owner : Option (List Action)
  pub futures : ℕ
  pub holders : ℕ
  pub worker_there : Bool

-- A reference less; the last one drops the worker.
abbrev pub released : World → World
released w = record w {
  holders = w.holders - 1;
  worker_there = if w.holders == 1 then false else w.worker_there;
}

abbrev pub act : Answers → Action → World → World
act answers (call c) w = record w { kernel = effect answers c w.kernel }
act answers release w = released w

-- Waiting for callbacks returns once none runs.
abbrev pub CanReturn : Action → World → Type 0
CanReturn (call (wait_callbacks h c)) w = w.kernel.running ≡ 0
CanReturn _ w = Unit

module _ (answers : Answers) (handle : ℕ) where
  pub data Step (w : World) : World → Type 0 where
    submits :
        w.owner ≡ none
        → w.submitted ≡ false
        → Step w (record w {
          kernel = effects answers (submit_once handle).0 w.kernel;
          submitted = true;
        })
    gives_future :
        w.owner ≡ none
        → w.submitted ≡ true
        → Step w (record w { futures = suc w.futures; holders = suc w.holders })
    drops_future : {n : ℕ} → w.futures ≡ suc n → Step w (record (released w) { futures = n })
    drops : w.owner ≡ none → Step w (record w { owner = some (drop_guard handle) })
    acts :
        {a : Action} {rest : List Action}
        → w.owner ≡ some (a ∷ rest)
        → CanReturn a w
        → Step w (record (act answers a w) { owner = some rest })
    begins :
        {n : ℕ}
        → w.kernel.queued ≡ suc n
        → Step w
            (record w { kernel = record (w.kernel) { queued = n; running = suc w.kernel.running } })
    returns :
        {n : ℕ}
        → w.kernel.running ≡ suc n
        → Step w (record w { kernel = record (w.kernel) { running = n } })

  -- From the pool that is created in this environment.
  pub data Reach (env : ℕ) : World → Type 0 where
    fresh :
        {k : Kernel}
        → (with_environment_raw answers env).1 ≡ ok handle
        → effects answers (with_environment_raw answers env).0 nothing_open ≡ k
        → Reach env (record {
          kernel = k;
          submitted = false;
          owner = none;
          futures = 0;
          holders = 1;
          worker_there = true;
        })
    later : {w v : World} → Reach env w → Step w v → Reach env v

  -- How far the owner has come, what is over by then, and the references that it has.
  abbrev AtOwner : Kernel → Option (List Action) → Type 0
  AtOwner k o =
      ((o ≡ none) ⊎ (o ≡ some (drop_guard handle))) × (k.handle_open ≡ true)
      ⊎ (o ≡ some (call (close_work handle) ∷ release ∷ []))
        × (k.handle_open ≡ true)
        × (k.queued ≡ 0)
        × (k.running ≡ 0)
      ⊎ ((o ≡ some (release ∷ [])) ⊎ (o ≡ some []))
        × (k.handle_open ≡ false)
        × (k.queued ≡ 0)
        × (k.running ≡ 0)

  abbrev held_by : List Action → ℕ
  held_by [] = 0
  held_by (release ∷ as') = suc (held_by as')
  held_by (call c ∷ as') = held_by as'

  abbrev holds : Option (List Action) → ℕ
  holds none = 1
  holds (some as') = held_by as'

  record Inv (w : World) : Type 0 where
    same : handle ≡ answers.handle
    owner : AtOwner w.kernel w.owner
    counted : w.holders ≡ holds w.owner + w.futures
    there : (w.worker_there ≡ true) × (0 < w.holders) ⊎ (w.worker_there ≡ false) × (w.holders ≡ 0)
    once_only :
        (w.submitted ≡ true) × (w.kernel.queued + w.kernel.running ≤ 1)
        ⊎ (w.submitted ≡ false) × (w.kernel.queued ≡ 0) × (w.kernel.running ≡ 0)

  Step-Inv : {w v : World} → Step w v → Inv w → Inv v
  Step-Inv {w} (submits e f) inv = ground arith
  Step-Inv {w} (gives_future e f) inv = ground arith
  Step-Inv {w} (drops_future e) inv = ground arith
  Step-Inv {w} (drops e) inv = ground arith
  Step-Inv {w} (acts e c) inv = ground arith
  Step-Inv {w} (begins e) inv = ground arith
  Step-Inv {w} (returns e) inv = ground arith

  fresh-Inv :
      {k : Kernel} (env : ℕ)
      → (with_environment_raw answers env).1 ≡ ok handle
      → effects answers (with_environment_raw answers env).0 nothing_open ≡ k
      → Inv (record {
        kernel = k;
        submitted = false;
        owner = none;
        futures = 0;
        holders = 1;
        worker_there = true;
      })
  fresh-Inv env e f = ground arith

  Reach-Inv : {env : ℕ} {w : World} → Reach env w → Inv w
  Reach-Inv {env} (fresh e f) = fresh-Inv env e f
  Reach-Inv (later r s) = Step-Inv s (Reach-Inv r)

-- In every state that a work pool, its guard and its futures reach, at most one callback is queued or runs,
-- and none before the submission; and the worker is there, or its owner is done, no future is left, its
-- handle is closed, and no callback is queued or runs.
pub work_over :
    (answers : Answers) (handle env : ℕ) {w : World}
    → Reach answers handle env w
    → ((w.submitted ≡ true) × (w.kernel.queued + w.kernel.running ≤ 1)
        ⊎ (w.submitted ≡ false) × (w.kernel.queued ≡ 0) × (w.kernel.running ≡ 0))
      × ((w.worker_there ≡ true)
          ⊎ (w.worker_there ≡ false)
            × (w.owner ≡ some [])
            × (w.futures ≡ 0)
            × (w.kernel.handle_open ≡ false)
            × (w.kernel.queued ≡ 0)
            × (w.kernel.running ≡ 0))
work_over answers handle env r = ground (arith, Reach-Inv answers handle r)
