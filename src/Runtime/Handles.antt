-- ===== src/Runtime/Handles.antt =====
-- The thread pool handles of crates/runtime/src/wait/mod.rs and crates/runtime/src/timer/mod.rs, from their
-- creation to their drop, with the kernel calls that are made, in order; and what the thread pool's
-- handles share (crates/runtime/src/common/mod.rs). Handles and environments are numbers, and 0 is none.
use msft.Runtime.FileTime.{Duration, FileTime}
use msft.Runtime.Wait.{WaitPool, wait_timeout_of}
use msft.Runtime.Wait
use msft.Runtime.Timer.{TimerPool, due_time}
use msft.Runtime.Timer
use mathlib.Core.Option.{map as map_some}
use msft.Prelude.{
  ℕ, ◌≡◌, Bool, List, [], ◌∷◌, ◌++◌, Option, none, some, Result, ok, err, Faulty, ◌==◌,
  if◌then◌else◌, arith,
}

pub data WaitPending : Type 0 where
  wait_for cancel_them : WaitPending

-- `pending as _`.
abbrev pub pending_code : WaitPending → ℕ
pending_code wait_for = 0
pending_code cancel_them = 1

pub data Call : Type 0 where
  create_wait create_timer : (environment : ℕ) → Call
  set_wait : (handle object : ℕ) → (timeout : Option FileTime) → Call
  set_timer : (handle : ℕ) → (due : Option FileTime) → (period window : ℕ) → Call
  wait_callbacks : (handle cancels : ℕ) → Call
  close : (handle : ℕ) → Call

pub record Answers : Type 0 where
  pub handle : ℕ
  pub last_os_error : ℕ

abbrev pub environment_of : Option ℕ → ℕ
environment_of none = 0
environment_of (some env) = env

abbrev granted : Answers → Result ℕ ℕ
granted answers = if answers.handle == 0 then err answers.last_os_error else ok answers.handle

-- `OwnedWaitHandle::new`, `start`, `stop` and `wait`.
abbrev pub new_wait : Answers → Option ℕ → List Call × Result ℕ ℕ
new_wait answers env = (create_wait (environment_of env) ∷ [], granted answers)

abbrev pub start_wait : (handle object : ℕ) → Option Duration → List Call
start_wait h object timeout = set_wait h object (map_some wait_timeout_of timeout) ∷ []

abbrev pub stop_wait : ℕ → List Call
stop_wait h = set_wait h 0 (some (record { low_date_time = 0; high_date_time = 0 })) ∷ []

abbrev pub wait_wait : ℕ → WaitPending → List Call
wait_wait h pending = wait_callbacks h (pending_code pending) ∷ []

-- `OwnedWaitHandle::drop`.
abbrev pub drop_wait : ℕ → List Call
drop_wait h = stop_wait h ++ (wait_wait h cancel_them ++ close h ∷ [])

-- `OwnedTimerHandle::new`, `start_relative`, `stop` and `wait`. A due time may overflow.
abbrev pub new_timer : Answers → Option ℕ → List Call × Result ℕ ℕ
new_timer answers env = (create_timer (environment_of env) ∷ [], granted answers)

abbrev timer_calls : (handle period window : ℕ) → Faulty FileTime → Faulty (List Call)
timer_calls h period window none = none
timer_calls h period window (some ft) = some (set_timer h (some ft) period window ∷ [])

abbrev pub start_timer :
    (overflow_checks : Bool) → (handle : ℕ) → Duration → (period window : ℕ) → Faulty (List Call)
start_timer overflow_checks h due period window =
    timer_calls h period window (due_time overflow_checks due)

abbrev pub stop_timer : ℕ → List Call
stop_timer h = set_timer h none 0 0 ∷ []

abbrev pub wait_timer : ℕ → WaitPending → List Call
wait_timer h pending = wait_callbacks h (pending_code pending) ∷ []

-- `OwnedTimerHandle::drop`.
abbrev pub drop_timer : ℕ → List Call
drop_timer h = stop_timer h ++ (wait_timer h cancel_them ++ close h ∷ [])

-- `TimerThreadpoolOptions`.
pub record TimerThreadpoolOptions : Type 0 where
  pub env : Option ℕ
  pub capacity : ℕ
  pub window : Option Duration

abbrev pub default_options : TimerThreadpoolOptions
default_options = record { env = none; capacity = 8; window = none }

abbrev with_pool {ℓ} : {A : Type ℓ} → A → List Call × Result ℕ ℕ → List Call × Result (ℕ × A) ℕ
with_pool a (calls, err e) = (calls, err e)
with_pool a (calls, ok h) = (calls, ok (h, a))

-- `WaitPool::new` and `with_environment`: the handle, and the pool over a fresh state.
abbrev pub new_wait_pool : Answers → Option ℕ → List Call × Result (ℕ × WaitPool) ℕ
new_wait_pool answers env = with_pool Wait.new (new_wait answers env)

abbrev timer_pool_with :
    Answers → Option ℕ → Faulty TimerPool → Faulty (List Call × Result (ℕ × TimerPool) ℕ)
timer_pool_with answers env none = none
timer_pool_with answers env (some p) = some (with_pool p (new_timer answers env))

-- `TimerPool::new`, which panics at a capacity of 0 before it asks for a handle.
unfoldable pub new_timer_pool :
    Answers → TimerThreadpoolOptions → Faulty (List Call × Result (ℕ × TimerPool) ℕ)
unfolding Timer.new
new_timer_pool answers options =
    timer_pool_with answers options.env (Timer.new options.capacity options.window)

-- What an owner does at its end: kernel calls, and one reference of the shared state given up.
pub data Action : Type 0 where
  call : Call → Action
  release : Action

abbrev pub called : List Call → List Action
called [] = []
called (c ∷ cs) = call c ∷ called cs

-- The fields of both pools are dropped as declared: the handle, then the shared state.
abbrev pub drop_wait_pool : ℕ → List Action
drop_wait_pool h = called (drop_wait h) ++ release ∷ []

abbrev pub drop_timer_pool : ℕ → List Action
drop_timer_pool h = called (drop_timer h) ++ release ∷ []

pub start_timer-set_timer :
    (overflow_checks : Bool) (h : ℕ) (due : Duration) (period window : ℕ) (calls : List Call)
    → start_timer overflow_checks h due period window ≡ some calls
    → (ft : FileTime) × (calls ≡ set_timer h (some ft) period window ∷ [])
start_timer-set_timer overflow_checks h due period window calls e =
    elim (due_time overflow_checks due)
        as (λ r.
          timer_calls h period window r ≡ some calls
          → (ft : FileTime) × (calls ≡ set_timer h (some ft) period window ∷ [])) [
            | none ↦ λ f. ground arith
            | some ft ↦ λ f. (ft, ground arith)
          ]
      e
