-- ===== src/Service/Wait/Pool.antt =====
-- crates/service/src/util/wait.rs: the thread pool wait, and the creation of a one-shot pair and of an
-- event listener, with the kernel calls that they make, in order. Handles are numbers, and 0 is none.
use msft.Service.Wait.{timeout_of}
use msft.Runtime.FileTime.{Duration, FileTime}
use msft.Prelude.{ℕ, Option, none, some, List, [], ◌∷◌, ◌++◌, Result, ok, err, ◌==◌, if◌then◌else◌}

pub data WaitPending : Type 0 where
  wait_for cancel_them : WaitPending

-- `pending as _`.
abbrev pub pending_code : WaitPending → ℕ
pending_code wait_for = 0
pending_code cancel_them = 1

pub data Call : Type 0 where
  create_event : (manual initial : ℕ) → Call
  set_event : (event : ℕ) → Call
  close_handle : (event : ℕ) → Call
  create_wait : Call
  set_wait : (pool handle : ℕ) → (timeout : Option FileTime) → Call
  wait_callbacks : (pool cancels : ℕ) → Call
  close_wait : (pool : ℕ) → Call

-- What the kernel answers: the handles, and the error that it names for the last call.
pub record Answers : Type 0 where
  pub event : ℕ
  pub pool : ℕ
  pub last_os_error : ℕ

-- `WaitPool::new`.
abbrev pub new_pool : Answers → List Call × Result ℕ ℕ
new_pool answers =
    (create_wait ∷ [], if answers.pool == 0 then err answers.last_os_error else ok answers.pool)

-- `WaitPool::start`.
abbrev pub start_pool : (pool handle : ℕ) → Option Duration → List Call
start_pool pool handle timeout = set_wait pool handle (timeout_of timeout) ∷ []

-- `WaitPool::stop`: no object, and the file time 0.
abbrev pub stop_pool : ℕ → List Call
stop_pool pool = set_wait pool 0 (some (record { low_date_time = 0; high_date_time = 0 })) ∷ []

-- `WaitPool::wait`.
abbrev pub wait_pool : ℕ → WaitPending → List Call
wait_pool pool pending = wait_callbacks pool (pending_code pending) ∷ []

-- `WaitPool::drop`.
abbrev pub drop_pool : ℕ → List Call
drop_pool pool = stop_pool pool ++ wait_pool pool cancel_them ++ close_wait pool ∷ []

-- `Event::anonymous` of an event that is reset by hand and not set.
abbrev pub anonymous_event : Answers → List Call × Result ℕ ℕ
anonymous_event answers = (
  create_event 1 0 ∷ [],
  if answers.event == 0 then err answers.last_os_error else ok answers.event,
)

-- The sender and the receiver of a pair share the event; the receiver has the pool.
pub record Pair : Type 0 where
  pub event : ℕ
  pub pool : ℕ

-- `oneshot`, behind its event. Where the pool is refused, the `?` drops the state with the event in it.
abbrev with_pool : ℕ → List Call × Result ℕ ℕ → List Call × Result Pair ℕ
with_pool event (calls, err e) = (calls ++ close_handle event ∷ [], err e)
with_pool event (calls, ok pool) =
    (calls ++ start_pool pool event none, ok (record { event = event; pool = pool }))

abbrev with_event : Answers → List Call × Result ℕ ℕ → List Call × Result Pair ℕ
with_event answers (calls, err e) = (calls, err e)
with_event answers (calls, ok event) =
    let (more, pair) = with_pool event (new_pool answers) in (calls ++ more, pair)

-- `oneshot`.
unfoldable pub oneshot : Answers → List Call × Result Pair ℕ
oneshot answers = with_event answers (anonymous_event answers)

-- `EventListener::new`: the pool, over a fresh state.
abbrev pub new_listener : Answers → List Call × Result ℕ ℕ
new_listener answers = new_pool answers

-- What an owner does when it gives up its end: kernel calls, and one reference of the shared state.
pub data Action : Type 0 where
  call : Call → Action
  release : Action

abbrev pub called : List Call → List Action
called [] = []
called (c ∷ cs) = call c ∷ called cs

-- `Sender::set`, which takes the sender by value.
abbrev pub set_sender : Pair → List Action
set_sender p = call (set_event p.event) ∷ release ∷ []

abbrev pub drop_sender : List Action
drop_sender = release ∷ []

-- The fields of a receiver are dropped in the order in which they are declared: its pool, then its state.
abbrev pub drop_receiver : Pair → List Action
drop_receiver p = called (drop_pool p.pool) ++ release ∷ []
