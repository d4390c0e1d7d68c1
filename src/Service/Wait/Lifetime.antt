-- ===== src/Service/Wait/Lifetime.antt =====
-- The life of a one-shot pair (crates/service/src/util/wait.rs), in every order of its owners' steps,
-- the kernel's and the callbacks': what is open, what the kernel waits for, and who still holds the state.
pub mod Over
use msft.Service.Wait.Pool.{
  Answers, Call, create_event, set_event, close_handle, create_wait, set_wait, wait_callbacks,
  close_wait, Pair, oneshot, Action, call, release, set_sender, drop_sender, drop_receiver,
}
use msft.Prelude.{
  ℕ, suc, ◌+◌, ◌-◌, ◌<◌, ◌≡◌, ◌≢◌, ◌⊎◌, Bool, true, false, not, ◌&&◌, Option, none, some, List, [],
  ◌∷◌, Result, ok, err, ◌==◌, if◌then◌else◌, refl, arith,
}

-- The event and the wait in the kernel: what is open, whether the event is set, whether the kernel waits
-- for it, and the callbacks that are queued and that run.
pub record Kernel : Type 0 where
  pub event_open : Bool
  pub event_set : Bool
  pub pool_open : Bool
  pub armed : Bool
  pub queued : ℕ
  pub running : ℕ

abbrev pub nothing_open : Kernel
nothing_open = record {
  event_open = false;
  event_set = false;
  pool_open = false;
  armed = false;
  queued = 0;
  running = 0;
}

-- A call on a handle that is not the event's, or not the pool's, does nothing to them.
abbrev pub effect : Answers → Call → Kernel → Kernel
effect answers (create_event m i) k = record k {
  event_open = not (answers.event == 0);
  event_set = not (i == 0);
}
effect answers (set_event e) k = if e == answers.event then record k { event_set = true } else k
effect answers (close_handle e) k =
    if e == answers.event then record k { event_open = false; event_set = false } else k
effect answers create_wait k = record k { pool_open = not (answers.pool == 0) }
effect answers (set_wait p h t) k =
    if p == answers.pool then record k { armed = not (h == 0) && h == answers.event } else k
effect answers (wait_callbacks p c) k =
    if p == answers.pool then record k { queued = if c == 0 then k.queued else 0 } else k
effect answers (close_wait p) k = if p == answers.pool then record k { pool_open = false } else k

abbrev pub effects : Answers → List Call → Kernel → Kernel
effects answers [] k = k
effects answers (c ∷ cs) k = effects answers cs (effect answers c k)

-- The event is there and not set, and the kernel waits for it.
abbrev pub waiting : Kernel
waiting = record {
  event_open = true;
  event_set = false;
  pool_open = true;
  armed = true;
  queued = 0;
  running = 0;
}

-- `oneshot` fails with the kernel's error, where the kernel gives no event or no wait, and then it leaves
-- nothing open; or it gives a pair of the kernel's handles, with the kernel waiting for the event.
pub oneshot_opens :
    (answers : Answers)
    → ((oneshot answers).1 ≡ err answers.last_os_error)
        × ((answers.event ≡ 0) ⊎ (answers.pool ≡ 0))
        × (effects answers (oneshot answers).0 nothing_open ≡ nothing_open)
      ⊎ ((oneshot answers).1 ≡ ok (record { event = answers.event; pool = answers.pool }))
        × (answers.event ≢ 0)
        × (answers.pool ≢ 0)
        × (effects answers (oneshot answers).0 nothing_open ≡ waiting)
unfolding oneshot
oneshot_opens answers = ground arith

-- An owner holds its end, or gives it up and has this left to do. `holders` is the count of the `Arc`.
pub record World : Type 0 where
  pub kernel : Kernel
  pub holders : ℕ
  pub sender : Option (List Action)
  pub receiver : Option (List Action)

-- The last reference drops the state, and with it the event.
abbrev pub act : Answers → Pair → Action → World → World
act answers p (call c) w = record w { kernel = effect answers c w.kernel }
act answers p release w = record w {
  kernel = if w.holders == 1 then effect answers (close_handle p.event) w.kernel else w.kernel;
  holders = w.holders - 1;
}

-- Waiting for callbacks returns once none runs.
abbrev pub CanReturn : Action → World → Type 0
CanReturn (call (wait_callbacks p c)) w = w.kernel.running ≡ 0
CanReturn _ w = Unit

module _ (answers : Answers) (p : Pair) where
  pub data Step (w : World) : World → Type 0 where
    sets : w.sender ≡ none → Step w (record w { sender = some (set_sender p) })
    drops_sender : w.sender ≡ none → Step w (record w { sender = some drop_sender })
    drops_receiver : w.receiver ≡ none → Step w (record w { receiver = some (drop_receiver p) })
    sender_acts :
        {a : Action} {rest : List Action}
        → w.sender ≡ some (a ∷ rest)
        → CanReturn a w
        → Step w (record (act answers p a w) { sender = some rest })
    receiver_acts :
        {a : Action} {rest : List Action}
        → w.receiver ≡ some (a ∷ rest)
        → CanReturn a w
        → Step w (record (act answers p a w) { receiver = some rest })
    fires :
        w.kernel.armed ≡ true
        → w.kernel.event_set ≡ true
        → Step w (record w {
          kernel = record (w.kernel) { armed = false; queued = suc w.kernel.queued };
        })
    begins :
        {n : ℕ}
        → w.kernel.queued ≡ suc n
        → Step w
            (record w { kernel = record (w.kernel) { queued = n; running = suc w.kernel.running } })
    returns :
        {n : ℕ}
        → w.kernel.running ≡ suc n
        → Step w (record w { kernel = record (w.kernel) { running = n } })

  -- From the pair that `oneshot` hands out.
  pub data Reach : World → Type 0 where
    fresh :
        {k : Kernel}
        → (oneshot answers).1 ≡ ok p
        → effects answers (oneshot answers).0 nothing_open ≡ k
        → Reach (record { kernel = k; holders = 2; sender = none; receiver = none })
    later : {w v : World} → Reach w → Step w v → Reach v
