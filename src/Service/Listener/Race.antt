-- ===== src/Service/Listener/Race.antt =====
-- `DeviceNotificationStream::poll_next` of crates/service/src/device.rs against `try_wake_with` on the
-- thread of the window, access by access. A poll stores its waker before it pops; the window's thread
-- pushes before it wakes. `listen` gives any number of streams over one queue and one slot.
use msft.Service.Message.{DeviceEvent}
use msft.Service.Listener.{Shared, push_all, register, arrived}
use msft.Service.Wchar.{OsString}
use msft.Prelude.{
  map, none, true, refl, ◌≡◌, ◌≢◌, ◌⊎◌, Bool, false, Option, some, List, [], ◌∷◌, arith, ◌==◌,
  if◌then◌else◌,
}
use msft.Prelude.Wakers.{Waker, update_waker}
use msft.Prelude.Tasks.{Task, runnable, polling, sleeping, finished, wake_task, suspend}

pub data Phase : Type 0 where
  registered : Phase

-- The window's thread has pushed an event and is about to wake.
pub data Waking : Type 0 where
  idle due : Waking

-- The tasks, each with a stream of its own, known by their wakers.
abbrev pub Tasks : Type 0
Tasks = Waker → Task Phase

abbrev pub put : Waker → Task Phase → Tasks → Tasks
put i t ts j = if j == i then t else ts j

-- Waking the waker of a slot wakes its task.
abbrev pub wake : Option Waker → Tasks → Tasks
wake none ts = ts
wake (some i) ts = put i (wake_task (ts i)) ts

pub record World : Type 0 where
  pub shared : Shared
  pub tasks : Tasks
  pub window : Waking
  pub scanned : Bool

-- A task polls, sleeps, is woken by something else, or drops its stream.
pub data Step (w : World) : World → Type 0 where
  registers :
      (i : Waker)
      → w.tasks i ≡ runnable
      → Step w (record w {
        shared = register i w.shared;
        tasks = put i (polling registered false) w.tasks;
      })
  pops :
      (i : Waker) (n : Bool) (ev : Option DeviceEvent) (evs : List (Option DeviceEvent))
      → w.tasks i ≡ polling registered n
      → w.shared.queue ≡ ev ∷ evs
      → Step w
          (record w { shared = record (w.shared) { queue = evs }; tasks = put i runnable w.tasks })
  pops_none :
      (i : Waker) (n : Bool)
      → w.tasks i ≡ polling registered n
      → w.shared.queue ≡ []
      → Step w (record w { tasks = put i (suspend n) w.tasks })
  woken_elsewhere : (i : Waker) → Step w (record w { tasks = wake (some i) w.tasks })
  drops :
      (i : Waker)
      → (w.tasks i ≡ runnable) ⊎ (w.tasks i ≡ sleeping)
      → Step w (record w { tasks = put i finished w.tasks })
  pushes :
      (ev : Option DeviceEvent)
      → w.window ≡ idle
      → Step w (record w { shared = push_all (ev ∷ []) w.shared; window = due })
  scans :
      (ports : List OsString)
      → Step w (record w { shared = push_all (map arrived ports) w.shared; scanned = true })
  wakes : w.window ≡ due → Step w (record w { tasks = wake w.shared.waker w.tasks; window = idle })

pub data Reach (w : World) : World → Type 0 where
  here : Reach w w
  later : {v u : World} → Reach w v → Step v u → Reach w u

-- A listener with any queue and any waker, and tasks that will poll.
abbrev pub before : Shared → World
before s = record { shared = s; tasks = λ i. runnable; window = idle; scanned = false }

-- A task that sleeps or polls has put a waker into the slot.
abbrev Slotted : World → Type 0
Slotted w = (i : Waker) → (w.tasks i ≢ runnable) → (w.tasks i ≢ finished) → w.shared.waker ≢ none

-- The task whose waker is in the slot does not sleep on an event that nobody is about to wake it for.
abbrev Served : World → Type 0
Served w =
    (i : Waker)
    → w.shared.waker ≡ some i
    → w.tasks i ≡ sleeping
    → (w.shared.queue ≡ []) ⊎ (w.window ≡ due) ⊎ (w.scanned ≡ true)

pub record Inv (w : World) : Type 0 where
  pub slotted : Slotted w
  pub served : Served w

-- The state after a poll of an empty listener and a scan.
abbrev pub unwoken : Waker → List OsString → World
unwoken me ports = record {
  shared = record { queue = map arrived ports; waker = some me };
  tasks = put me sleeping (put me (polling registered false) (λ i. runnable));
  window = idle;
  scanned = true;
}

-- A scan wakes nobody: from a fresh listener, one poll and a scan that finds a port lead to a state in
-- which the port's arrival is queued, the task sleeps, and the window's thread is idle.
pub scan_unwoken :
    (me : Waker) (p : OsString) (ports : List OsString)
    → Reach (before (record { queue = []; waker = none })) (unwoken me (p ∷ ports))
      × ((unwoken me (p ∷ ports)).tasks me ≡ sleeping)
      × ((unwoken me (p ∷ ports)).shared.queue ≢ [])
unfolding register update_waker
scan_unwoken me p ports = (
  later (later (later here (registers me refl)) (pops_none me false (ground arith) refl))
      (scans (p ∷ ports)),
  ground arith,
  ground arith,
)
