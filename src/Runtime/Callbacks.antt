-- ===== src/Runtime/Callbacks.antt =====
-- crates/runtime/src/common/instance.rs and crates/runtime/src/common/cleanup.rs: what a running callback
-- asks of the thread pool, and the cleanup group, with the kernel calls that are made, in order. Handles
-- and pointers are numbers, and 0 is none.
use msft.Prelude.{ℕ, List, [], ◌∷◌, Result, ok, err, ◌==◌, if◌then◌else◌}

pub data Call : Type 0 where
  callback_may_run_long : (instance : ℕ) → Call
  set_event_when_callback_returns : (instance event : ℕ) → Call
  release_semaphore_when_callback_returns : (instance sem crel : ℕ) → Call
  release_mutex_when_callback_returns : (instance mtx : ℕ) → Call
  leave_critical_section_when_callback_returns : (instance pcs : ℕ) → Call
  free_library_when_callback_returns : (instance handle : ℕ) → Call
  create_cleanup_group : Call
  close_cleanup_group_members : (group cancels context : ℕ) → Call
  close_cleanup_group : (group : ℕ) → Call

-- "Busy", of the kind `Other`.
pub data InstanceError : Type 0 where
  busy : InstanceError

-- The methods of `ThreadpoolCallbackInstance`, each of which gives back the instance that it is called on.
-- `answer` is what the kernel says to the first.
abbrev pub may_run_long : (answer instance : ℕ) → List Call × Result ℕ InstanceError
may_run_long answer i = (callback_may_run_long i ∷ [], if answer == 0 then err busy else ok i)

abbrev pub set_event : (instance event : ℕ) → List Call × ℕ
set_event i event = (set_event_when_callback_returns i event ∷ [], i)

abbrev pub release_semaphore : (instance sem crel : ℕ) → List Call × ℕ
release_semaphore i sem crel = (release_semaphore_when_callback_returns i sem crel ∷ [], i)

abbrev pub release_mutex : (instance mtx : ℕ) → List Call × ℕ
release_mutex i mtx = (release_mutex_when_callback_returns i mtx ∷ [], i)

abbrev pub leave_critical_section : (instance pcs : ℕ) → List Call × ℕ
leave_critical_section i pcs = (leave_critical_section_when_callback_returns i pcs ∷ [], i)

abbrev pub free_library : (instance handle : ℕ) → List Call × ℕ
free_library i handle = (free_library_when_callback_returns i handle ∷ [], i)

-- `ThreadpoolCleanupGroup`.
pub record CleanupGroup : Type 0 where
  pub group : ℕ
  pub context : ℕ

-- `ThreadpoolCleanupGroup::new`, which takes what the kernel answers, also 0.
abbrev pub new_group : (answer : ℕ) → List Call × CleanupGroup
new_group answer = (create_cleanup_group ∷ [], record { group = answer; context = 0 })

abbrev pub with_context : CleanupGroup → ℕ → CleanupGroup
with_context g ctx = record g { context = ctx }

-- `ThreadpoolCleanupGroup::drop`; `TRUE` is 1.
abbrev pub drop_group : CleanupGroup → List Call
drop_group g = close_cleanup_group_members g.group 1 g.context ∷ close_cleanup_group g.group ∷ []
