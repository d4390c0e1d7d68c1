-- ===== src/Runtime/Environment/Settings.antt =====
-- What the builder calls of crates/runtime/src/common/environment.rs make of a pool's environment.
use msft.Prelude.{List, Option, [], none, refl, some, ℕ, ◌∷◌, ◌≡◌}
use msft.Runtime.Environment.{
  EnvironmentCodes, PoolCalls, ThreadpoolCallbackEnvironment, ThreadpoolPriority, environment_of,
  from_dll, runs_long, with_cleanup_group, with_pool, with_priority, normal,
}

-- One builder call.
pub data EnvironmentSetting : Type 0 where
  setting_pool : ℕ → EnvironmentSetting
  setting_priority : ThreadpoolPriority → EnvironmentSetting
  setting_runs_long : EnvironmentSetting
  setting_dll : ℕ → EnvironmentSetting
  setting_cleanup : (group cancel : ℕ) → EnvironmentSetting

abbrev pub apply_setting :
    EnvironmentCodes
    → ThreadpoolCallbackEnvironment
    → EnvironmentSetting
    → ThreadpoolCallbackEnvironment
apply_setting codes env (setting_pool p) = with_pool env p
apply_setting codes env (setting_priority p) = with_priority codes env p
apply_setting codes env setting_runs_long = runs_long env
apply_setting codes env (setting_dll d) = from_dll env d
apply_setting codes env (setting_cleanup g c) = with_cleanup_group env g c

abbrev pub built :
    EnvironmentCodes
    → ThreadpoolCallbackEnvironment
    → List EnvironmentSetting
    → ThreadpoolCallbackEnvironment
built codes env [] = env
built codes env (s ∷ ss) = built codes (apply_setting codes env s) ss

-- What each field is given by a call, if anything.
abbrev pub pool_in : EnvironmentSetting → Option ℕ
pool_in (setting_pool p) = some p
pool_in s = none

abbrev pub priority_in : EnvironmentCodes → EnvironmentSetting → Option ℕ
priority_in codes (setting_priority p) = some (codes.raw p)
priority_in codes s = none

abbrev pub flags_in : EnvironmentSetting → Option ℕ
flags_in setting_runs_long = some 1
flags_in s = none

abbrev pub dll_in : EnvironmentSetting → Option ℕ
dll_in (setting_dll d) = some d
dll_in s = none

abbrev pub group_in : EnvironmentSetting → Option ℕ
group_in (setting_cleanup g c) = some g
group_in s = none

abbrev pub cancel_in : EnvironmentSetting → Option ℕ
cancel_in (setting_cleanup g c) = some c
cancel_in s = none

abbrev pub given_or : ℕ → Option ℕ → ℕ
given_or before none = before
given_or before (some n) = n

abbrev pub latest : (EnvironmentSetting → Option ℕ) → List EnvironmentSetting → ℕ → ℕ
latest f [] before = before
latest f (s ∷ ss) before = latest f ss (given_or before (f s))

abbrev with_latest :
    EnvironmentCodes
    → ThreadpoolCallbackEnvironment
    → List EnvironmentSetting
    → ThreadpoolCallbackEnvironment
with_latest codes env ss = record {
  version = env.version;
  callback_priority = latest (priority_in codes) ss env.callback_priority;
  size = env.size;
  pool = latest pool_in ss env.pool;
  flags = latest flags_in ss env.flags;
  race_dll = latest dll_in ss env.race_dll;
  cleanup_group = latest group_in ss env.cleanup_group;
  cancel_callback = latest cancel_in ss env.cancel_callback;
}

built-latest :
    (codes : EnvironmentCodes) (env : ThreadpoolCallbackEnvironment) (ss : List EnvironmentSetting)
    → built codes env ss ≡ with_latest codes env ss
built-latest codes env [] = refl
built-latest codes env (setting_pool p ∷ ss) = built-latest codes (with_pool env p) ss
built-latest codes env (setting_priority p ∷ ss) = built-latest codes (with_priority codes env p) ss
built-latest codes env (setting_runs_long ∷ ss) = built-latest codes (runs_long env) ss
built-latest codes env (setting_dll d ∷ ss) = built-latest codes (from_dll env d) ss
built-latest codes env (setting_cleanup g c ∷ ss) =
    built-latest codes (with_cleanup_group env g c) ss

-- However the builder calls are ordered, the environment of a pool is of version 3, and has in each
-- field what the last call for that field gives; without one, the pool it was made by, the normal
-- priority, and zeroes.
pub environment_of-built :
    {K : Type 0} (calls : PoolCalls K) (codes : EnvironmentCodes) (h : ℕ)
    (ss : List EnvironmentSetting)
    → built codes (environment_of calls codes h) ss ≡ (record {
      version = 3;
      callback_priority = latest (priority_in codes) ss (codes.raw normal);
      size = codes.size;
      pool = latest pool_in ss h;
      flags = latest flags_in ss 0;
      race_dll = latest dll_in ss 0;
      cleanup_group = latest group_in ss 0;
      cancel_callback = latest cancel_in ss 0;
    })
environment_of-built calls codes h ss = built-latest codes (environment_of calls codes h) ss
