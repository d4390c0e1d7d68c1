-- ===== src/Runtime/Environment.antt =====
-- crates/runtime/src/common/environment.rs: a thread pool's limits, and the environment that its callbacks
-- are created with. What the kernel answers is a parameter; pointers are known by a number, 0 is null.
pub mod Settings
use msft.Prelude.{Result, err, if◌then◌else◌, ok, ℕ, ◌==◌}

pub data ThreadpoolPriority : Type 0 where
  low normal high : ThreadpoolPriority

-- `TP_CALLBACK_PRIORITY_*`, and the size of the structure.
pub record EnvironmentCodes : Type 0 where
  pub raw : ThreadpoolPriority → ℕ
  pub size : ℕ

-- `TP_CALLBACK_ENVIRON_V3`, the fields that the code sets.
pub record ThreadpoolCallbackEnvironment : Type 0 where
  pub version : ℕ
  pub callback_priority : ℕ
  pub size : ℕ
  pub pool : ℕ
  pub flags : ℕ
  pub race_dll : ℕ
  pub cleanup_group : ℕ
  pub cancel_callback : ℕ

abbrev pub new_environment : EnvironmentCodes → ThreadpoolCallbackEnvironment
new_environment codes = record {
  version = 3;
  callback_priority = codes.raw normal;
  size = codes.size;
  pool = 0;
  flags = 0;
  race_dll = 0;
  cleanup_group = 0;
  cancel_callback = 0;
}

abbrev pub with_pool : ThreadpoolCallbackEnvironment → ℕ → ThreadpoolCallbackEnvironment
with_pool env p = record env { pool = p }

abbrev pub with_priority :
    EnvironmentCodes
    → ThreadpoolCallbackEnvironment
    → ThreadpoolPriority
    → ThreadpoolCallbackEnvironment
with_priority codes env prio = record env { callback_priority = codes.raw prio }

abbrev pub runs_long : ThreadpoolCallbackEnvironment → ThreadpoolCallbackEnvironment
runs_long env = record env { flags = 1 }

abbrev pub from_dll : ThreadpoolCallbackEnvironment → ℕ → ThreadpoolCallbackEnvironment
from_dll env dll = record env { race_dll = dll }

abbrev pub with_cleanup_group :
    ThreadpoolCallbackEnvironment → ℕ → ℕ → ThreadpoolCallbackEnvironment
with_cleanup_group env group cancel = record env { cleanup_group = group; cancel_callback = cancel }

-- The calls for a thread pool, on a state of their own.
pub record PoolCalls (K : Type 0) : Type 0 where
  pub create_threadpool : K → K × ℕ
  pub set_stack_information : K → (pool reserve commit : ℕ) → K × ℕ
  pub set_thread_minimum : K → (pool least : ℕ) → K × ℕ
  pub set_thread_maximum : K → (pool most : ℕ) → K
  pub last_os_error : K → ℕ

module _ {K : Type 0} (calls : PoolCalls K) where
  abbrev handle_of : K × ℕ → K × Result ℕ ℕ
  handle_of (k, h) = (k, if h == 0 then err (calls.last_os_error k) else ok h)

  abbrev pub new_threadpool : K → K × Result ℕ ℕ
  new_threadpool k = handle_of (calls.create_threadpool k)

  abbrev unless_false : ℕ → K × ℕ → K × Result ℕ ℕ
  unless_false pool (k, b) = (k, if b == 0 then err (calls.last_os_error k) else ok pool)

  abbrev pub set_stack_size : K → (pool reserve commit : ℕ) → K × Result ℕ ℕ
  set_stack_size k pool reserve commit =
      unless_false pool (calls.set_stack_information k pool reserve commit)

  -- Only `TRUE`, which is 1, is success.
  abbrev if_true : ℕ → K × ℕ → K × Result ℕ ℕ
  if_true pool (k, b) = (k, if b == 1 then ok pool else err (calls.last_os_error k))

  abbrev pub min_threads : K → (pool least : ℕ) → K × Result ℕ ℕ
  min_threads k pool least = if_true pool (calls.set_thread_minimum k pool least)

  abbrev pub max_threads : K → (pool most : ℕ) → K × ℕ
  max_threads k pool most = (calls.set_thread_maximum k pool most, pool)

  -- `ThreadpoolHandle::new_environment`.
  abbrev pub environment_of : EnvironmentCodes → (pool : ℕ) → ThreadpoolCallbackEnvironment
  environment_of codes pool = with_pool (new_environment codes) pool
