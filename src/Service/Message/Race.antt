-- ===== src/Service/Message/Race.antt =====
-- `ServiceMessageStream::poll_next` against `service_control_message_handler` of
-- crates/service/src/message.rs, access by access. The poll pops, and stores its waker, under the lock
-- of the waker; the handler pushes without that lock and takes it to wake.
use msft.Service.Message.{ServiceMessage}
use msft.Service.Message.Stream.{State, push}
use msft.Prelude.{◌≡◌, ◌≢◌, ◌⊎◌, Bool, true, false, some, List, [], ◌∷◌, arith}
use msft.Prelude.Wakers.{update_waker, Waker, update_waker-eq-some}
use msft.Prelude.Tasks.{Task, runnable, polling, sleeping, wake_slot, suspend}

pub data Phase : Type 0 where
  locking popped_none : Phase

-- The handler has pushed a message and is about to wake.
pub data Handling : Type 0 where
  idle due : Handling

pub record World : Type 0 where
  pub state : State
  pub locked : Bool
  pub task : Task Phase
  pub handler : Handling

module _ (me : Waker) where
  pub data Step (w : World) : World → Type 0 where
    locks :
        w.task ≡ runnable
        → w.locked ≡ false
        → Step w (record w { task = polling locking false; locked = true })
    pops :
        (n : Bool) (m : ServiceMessage) (ms : List ServiceMessage)
        → w.task ≡ polling locking n
        → w.state.messages ≡ m ∷ ms
        → Step w (record w {
          state = record (w.state) { messages = ms };
          task = runnable;
          locked = false;
        })
    pops_none :
        (n : Bool)
        → w.task ≡ polling locking n
        → w.state.messages ≡ []
        → Step w (record w { task = polling popped_none n })
    stores_waker :
        (n : Bool)
        → w.task ≡ polling popped_none n
        → Step w (record w {
          state = record (w.state) { waker = update_waker w.state.waker me };
          task = suspend n;
          locked = false;
        })
    pushes :
        (m : ServiceMessage)
        → w.handler ≡ idle
        → Step w (record w { state = push m w.state; handler = due })
    wakes :
        w.handler ≡ due
        → w.locked ≡ false
        → Step w (record w { task = wake_slot me w.state.waker w.task; handler = idle })

  pub data Reach (w : World) : World → Type 0 where
    here : Reach w w
    later : {v u : World} → Reach w v → Step v u → Reach w u

-- A stream with any messages and any waker, and a task that will poll.
abbrev pub before : State → World
before s = record { state = s; locked = false; task = runnable; handler = idle }

abbrev pub Queued : State → Handling → Type 0
Queued s h = (s.messages ≡ []) ⊎ (h ≡ due)

abbrev pub Safe : Waker → State → Bool → Handling → Task Phase → Type 0
Safe me s locked h sleeping = (s.waker ≡ some me) × Queued s h × (locked ≡ false)
Safe me s locked h (polling popped_none n) = Queued s h × (locked ≡ true)
Safe me s locked h (polling locking n) = locked ≡ true
Safe me s locked h _ = Unit

abbrev pub Inv : Waker → World → Type 0
Inv me w = Safe me w.state w.locked w.handler w.task

Step-Inv : (me : Waker) {w v : World} → Step me w v → Inv me w → Inv me v
Step-Inv me {w} (locks e h) inv = ground arith
Step-Inv me {w} (pops n m ms e h) inv = ground arith
Step-Inv me {w} (pops_none n e h) inv = ground arith
Step-Inv me {w} (stores_waker n e) inv = ground (arith, update_waker-eq-some w.state.waker me)
Step-Inv me {w} (pushes m e) inv = ground arith
Step-Inv me {w} (wakes e h) inv = ground arith

Reach-Inv : (me : Waker) {w v : World} → Reach me w v → Inv me w → Inv me v
Reach-Inv me here inv = inv
Reach-Inv me (later r st) inv = Step-Inv me st (Reach-Inv me r inv)

sleeping-Safe :
    (me : Waker) (w : World)
    → Inv me w
    → w.task ≡ sleeping
    → w.state.messages ≢ []
    → (w.handler ≡ due) × (w.locked ≡ false) × (w.state.waker ≡ some me)
sleeping-Safe me w inv asleep queued = ground arith

-- No message is lost to a sleeper: in every state that a stream reaches, whatever its queue and its
-- waker, a task that sleeps while a message is queued is about to be woken by the handler, which no
-- lock holds up.
pub message_wakes :
    (me : Waker) (s : State) {w : World}
    → Reach me (before s) w
    → w.task ≡ sleeping
    → w.state.messages ≢ []
    → (w.handler ≡ due) × (w.locked ≡ false) × (w.state.waker ≡ some me)
message_wakes me s {w} r asleep queued = sleeping-Safe me w (Reach-Inv me r tt) asleep queued
