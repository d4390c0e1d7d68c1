-- ===== src/Runtime/Dropped/Kept.antt =====
-- The drop of a pool beside its callbacks (crates/runtime/src/wait/mod.rs, crates/runtime/src/timer/mod.rs).
use msft.Runtime.Dropped.{
  CanReturn, act, Kind, of_wait, of_timer, Kernel, World, created, Step, Reach, fresh, later,
  starts_wait, starts_timer, stops, gives_future, drops_future, drops, acts, fires, begins, returns,
  new_handle, drop_pool, effects, nothing_open,
}
use msft.Runtime.Handles.{
  Answers, Action, call, release, close, wait_callbacks, start_timer-set_timer,
}
use msft.Prelude.{
  ℕ, suc, ◌+◌, ◌<◌, ◌≡◌, ◌⊎◌, true, false, Option, none, some, List, [], ◌∷◌, ok, arith,
}

abbrev held_by : List Action → ℕ
held_by [] = 0
held_by (release ∷ as') = suc (held_by as')
held_by (call c ∷ as') = held_by as'

abbrev holds : Option (List Action) → ℕ
holds none = 1
holds (some as') = held_by as'

module _ (kind : Kind) (answers : Answers) (handle : ℕ) where
  -- How far the owner has come, and what is over by then.
  abbrev AtOwner : Kernel → Option (List Action) → Type 0
  AtOwner k o =
      ((o ≡ none) ⊎ (o ≡ some (drop_pool kind handle))) × (k.handle_open ≡ true)
      ⊎ (o ≡ some (call (wait_callbacks handle 1) ∷ call (close handle) ∷ release ∷ []))
        × (k.handle_open ≡ true)
        × (k.armed ≡ false)
      ⊎ (o ≡ some (call (close handle) ∷ release ∷ []))
        × (k.handle_open ≡ true)
        × (k.armed ≡ false)
        × (k.queued ≡ 0)
        × (k.running ≡ 0)
      ⊎ ((o ≡ some (release ∷ [])) ⊎ (o ≡ some []))
        × (k.handle_open ≡ false)
        × (k.armed ≡ false)
        × (k.queued ≡ 0)
        × (k.running ≡ 0)

  record Inv (w : World) : Type 0 where
    same : handle ≡ answers.handle
    owner : AtOwner w.kernel w.owner
    counted : w.holders ≡ holds w.owner + w.futures
    there : (w.freed ≡ false) × (0 < w.holders) ⊎ (w.freed ≡ true) × (w.holders ≡ 0)

drops-Inv :
    (kind : Kind) (answers : Answers) (handle : ℕ) {w : World} {a : Action} {rest : List Action}
    → (e : w.owner ≡ some (a ∷ rest)) → (c : CanReturn a w) → Inv kind answers handle w
    → Inv kind answers handle (record (act answers a w) { owner = some rest })
drops-Inv of_wait answers handle e c inv = ground arith
drops-Inv of_timer answers handle e c inv = ground arith

Step-Inv :
    (kind : Kind) (answers : Answers) (handle : ℕ) {w v : World}
    → Step kind answers handle w v
    → Inv kind answers handle w
    → Inv kind answers handle v
Step-Inv kind answers handle (starts_wait e f object timeout) inv = ground arith
Step-Inv kind answers handle (starts_timer e f checks due period window {calls = calls} sets) inv =
    ground (arith, start_timer-set_timer checks handle due period window calls sets)
Step-Inv of_wait answers handle (stops e) inv = ground arith
Step-Inv of_timer answers handle (stops e) inv = ground arith
Step-Inv kind answers handle (gives_future e) inv = ground arith
Step-Inv kind answers handle (drops_future e) inv = ground arith
Step-Inv kind answers handle (drops e) inv = ground arith
Step-Inv kind answers handle (acts e c) inv = drops-Inv kind answers handle e c inv
Step-Inv kind answers handle (fires e again) inv = ground arith
Step-Inv kind answers handle (begins e) inv = ground arith
Step-Inv kind answers handle (returns e) inv = ground arith

fresh-Inv :
    (kind : Kind) (answers : Answers) (handle : ℕ) (env : Option ℕ) {k : Kernel}
    → (new_handle kind answers env).1 ≡ ok handle
    → effects answers (new_handle kind answers env).0 nothing_open ≡ k
    → Inv kind answers handle (created k)
fresh-Inv of_wait answers handle env e f = ground arith
fresh-Inv of_timer answers handle env e f = ground arith

Reach-Inv :
    (kind : Kind) (answers : Answers) (handle : ℕ) (env : Option ℕ) {w : World}
    → Reach kind answers handle env w
    → Inv kind answers handle w
Reach-Inv kind answers handle env (fresh e f) = fresh-Inv kind answers handle env e f
Reach-Inv kind answers handle env (later r s) =
    Step-Inv kind answers handle s (Reach-Inv kind answers handle env r)

-- No callback sees freed memory: in every state that a pool of waits or of timers reaches with its futures,
-- the state that they share is there; or its owner is done, no future is left, the handle is closed, no
-- callback runs, none is queued, and the kernel queues no more.
pub callbacks_over :
    (kind : Kind) (answers : Answers) (handle : ℕ) (env : Option ℕ) {w : World}
    → Reach kind answers handle env w
    → (w.freed ≡ false)
      ⊎ (w.owner ≡ some [])
        × (w.futures ≡ 0)
        × (w.kernel.handle_open ≡ false)
        × (w.kernel.running ≡ 0)
        × (w.kernel.queued ≡ 0)
        × (w.kernel.armed ≡ false)
callbacks_over kind answers handle env r = ground (arith, Reach-Inv kind answers handle env r)
