-- ===== src/Runtime/Event/Handles.antt =====
-- crates/runtime/src/event/mod.rs: the three handles of an event, and its operations through each.
use msft.Runtime.Event.Object
use msft.Runtime.Event.Object.{
  EventLaws, Object, Op, op_set, op_reset, op_wait, Answer, changed, awaited, object_run,
  new_object, run, AllEnd, anonymous-object_run,
}
use msft.Runtime.Event.{
  EventCalls, EventCodes, EventError, EventReset, EventInitialState, anonymous, set, reset, wait,
}
use msft.Prelude.{ℕ, ◌≡◌, List, [], ◌∷◌, map, Option, Result, ok, refl, ◌∙◌}

-- `OwnedEventHandle`, `BorrowedEventHandle` and `RawEventHandle`.
pub data EventHandle : Type 0 where
  owned borrowed raw : ℕ → EventHandle

abbrev pub as_raw_handle : EventHandle → ℕ
as_raw_handle (owned h) = h
as_raw_handle (borrowed h) = h
as_raw_handle (raw h) = h

-- `OwnedEventHandle::as_handle`, of the handle in it.
abbrev pub as_handle : ℕ → EventHandle
as_handle h = borrowed h

-- `BorrowedEventHandle::borrow_raw`, of the handle in it, and `OwnedEventHandle::borrow_raw`.
abbrev pub borrow_raw : ℕ → EventHandle
borrow_raw h = raw h

abbrev pub owned_borrow_raw : ℕ → EventHandle
owned_borrow_raw h = borrow_raw (as_raw_handle (as_handle h))

-- How a handle is had from the one that is owned.
pub data Via : Type 0 where
  by_owner by_borrow by_raw by_borrowed_raw : Via

abbrev pub via : Via → ℕ → EventHandle
via by_owner h = owned h
via by_borrow h = as_handle h
via by_raw h = owned_borrow_raw h
via by_borrowed_raw h = borrow_raw (as_raw_handle (as_handle h))

module _ {K : Type 0} (calls : EventCalls K) (codes : EventCodes) where
  -- What `impl_event!` makes for each handle.
  abbrev pub set_handle : K → EventHandle → K × Result (Unit {0}) ℕ
  set_handle k e = set calls codes k (as_raw_handle e)

  abbrev pub reset_handle : K → EventHandle → K × Result (Unit {0}) ℕ
  reset_handle k e = reset calls codes k (as_raw_handle e)

  abbrev pub wait_handle : K → EventHandle → Option ℕ → K × Result (Unit {0}) EventError
  wait_handle k e d = wait calls codes k (as_raw_handle e) d

  abbrev with_changed : K × Result (Unit {0}) ℕ → K × Answer
  with_changed (k, r) = (k, changed r)

  abbrev with_awaited : K × Result (Unit {0}) EventError → K × Answer
  with_awaited (k, r) = (k, awaited r)

  abbrev pub step_handle : K → EventHandle → Op → K × Answer
  step_handle k e op_set = with_changed (set_handle k e)
  step_handle k e op_reset = with_changed (reset_handle k e)
  step_handle k e (op_wait d) = with_awaited (wait_handle k e d)

  -- Operations, each through a handle of its own.
  abbrev pub run_handles : K → ℕ → List (Via × Op) → List Answer
  run_handles k h [] = []
  run_handles k h ((v, p) ∷ ps) =
      (step_handle k (via v h) p).1 ∷ run_handles (step_handle k (via v h) p).0 h ps

  step_handle-step :
      (k : K) (h : ℕ) (v : Via) (p : Op) → step_handle k (via v h) p ≡ Object.step calls codes k h p
  step_handle-step k h by_owner op_set = refl
  step_handle-step k h _ op_set = refl
  step_handle-step k h by_owner op_reset = refl
  step_handle-step k h _ op_reset = refl
  step_handle-step k h by_owner (op_wait d) = refl
  step_handle-step k h _ (op_wait d) = refl

  run_handles-run :
      (k : K) (h : ℕ) (ps : List (Via × Op))
      → run_handles k h ps ≡ run calls codes k h (map (λ p. p.1) ps)
  run_handles-run k h [] = refl
  run_handles-run k h ((v, p) ∷ ps) =
      rw (step_handle-step k h v p, run_handles-run (Object.step calls codes k h p).0 h ps) refl

  -- An event without a name, once it is created, answers setting, resetting and waiting, in any order and
  -- each through its owned handle, a borrowed one or a raw one, as an object does: it is set at first as
  -- it was asked for; a wait succeeds while it is set, and times out otherwise; and a wait that succeeds
  -- resets it, unless it is reset by hand. No wait is to be without an end.
  pub handles-object_run :
      (laws : EventLaws calls codes) (k : K) (r : EventReset) (s : EventInitialState) (h : ℕ)
      (ps : List (Via × Op))
      → (anonymous calls codes k r s).1 ≡ ok h
      → AllEnd calls codes (new_object r s) (map (λ p. p.1) ps)
      → run_handles (anonymous calls codes k r s).0 h ps
        ≡ object_run (new_object r s) (map (λ p. p.1) ps)
  handles-object_run laws k r s h ps created ends =
      run_handles-run (anonymous calls codes k r s).0 h ps
      ∙ anonymous-object_run calls codes laws k r s h (map (λ p. p.1) ps) created ends
