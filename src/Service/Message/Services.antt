-- ===== src/Service/Message/Services.antt =====
-- Several services of one process (crates/service/src/message.rs): each registered the handler with the
-- state of its own stream, which the handler finds behind the context pointer.
use msft.Service.Message.Stream.{
  State, Event, control, polls, happen, run, sent, received, item, returned, poll_next, stream_fifo,
}
use msft.Service.Message.{Controls, EventCodes, ServiceMessage}
use msft.Prelude.{
  ℕ, ◌≡◌, ◌==◌, if◌then◌else◌, List, [], ◌∷◌, ◌++◌, map, Option, Bool-cases, inl, inr, refl, ap,
  arith, true, false,
}

-- The states behind the context pointers.
abbrev pub Store : Type 0
Store = ℕ → State

abbrev pub stored : ℕ → State → Store → Store
stored p s m q = if q == p then s else m q

-- A call of the handler with a context, or a poll of the stream that has this state.
abbrev pub StoreEvent : Type 0
StoreEvent = ℕ × Event

-- What happens to the service that has a context.
abbrev pub events_of : ℕ → List StoreEvent → List Event
events_of p [] = []
events_of p ((q, e) ∷ es) = let rest = events_of p es in if q == p then e ∷ rest else rest

stored_self : (q p : ℕ) (s : State) (m : Store) → (q == p) ≡ true → stored q s m p ≡ s
stored_self q p s m h = ground arith

stored-other : (q p : ℕ) (s : State) (m : Store) → (q == p) ≡ false → stored q s m p ≡ m p
stored-other q p s m h = ground arith

at-same : (q p : ℕ) (m : Store) → (q == p) ≡ true → m q ≡ m p
at-same q p m h = ap m (ground arith)

module _ (k : Controls) (codes : EventCodes) where
  -- The handler and the poll change the state behind their pointer.
  abbrev pub happen_at : StoreEvent → Store → Store
  happen_at (p, e) m = stored p (happen k codes e (m p)) m

  abbrev pub run_store : List StoreEvent → Store → Store
  run_store [] m = m
  run_store (e ∷ es) m = run_store es (happen_at e m)

  abbrev polled : Event → State → List (Option ServiceMessage)
  polled (control c t d) s = []
  polled (polls cx) s = returned (poll_next cx s).1

  -- The items that the polls of one service return.
  abbrev pub received_at : ℕ → List StoreEvent → Store → List (Option ServiceMessage)
  received_at p [] m = []
  received_at p ((q, e) ∷ es) m =
      let rest = received_at p es (happen_at (q, e) m) in
      if q == p then polled e (m q) ++ rest else rest

  received-polled :
      (e : Event) (es : List Event) (s : State)
      → received k codes (e ∷ es) s ≡ polled e s ++ received k codes es (happen k codes e s)
  received-polled (control c t d) es s = refl
  received-polled (polls cx) es s = refl

  run_store-at :
      (p : ℕ) (es : List StoreEvent) (m : Store)
      → run_store es m p ≡ run k codes (events_of p es) (m p)
  run_store-at p [] m = refl
  run_store-at p ((q, e) ∷ es) m =
      let ih = run_store-at p es (happen_at (q, e) m) in
      elim (Bool-cases (q == p)) [
        | inl h ↦ rw (ih, h, stored_self q p (happen k codes e (m q)) m h, at-same q p m h) refl
        | inr h ↦ rw (ih, h, stored-other q p (happen k codes e (m q)) m h) refl
      ]

  received_at-received :
      (p : ℕ) (es : List StoreEvent) (m : Store)
      → received_at p es m ≡ received k codes (events_of p es) (m p)
  received_at-received p [] m = refl
  received_at-received p ((q, e) ∷ es) m =
      let ih = received_at-received p es (happen_at (q, e) m) in
      elim (Bool-cases (q == p)) [
        | inl h ↦
            rw
              (
                ih,
                h,
                stored_self q p (happen k codes e (m q)) m h,
                at-same q p m h,
                received-polled e (events_of p es) (m p),
              )
              refl
        | inr h ↦ rw (ih, h, stored-other q p (happen k codes e (m q)) m h) refl
      ]

  -- Each service has its own messages, in order: over any calls of the handler, with the contexts of
  -- several services, and any polls of theirs, what one service's polls return, followed by what is still
  -- queued for it, is what was queued for it and what the calls with its context brought, in order. The
  -- calls and the polls of the others change none of it.
  pub services_fifo :
      (p : ℕ) (es : List StoreEvent) (m : Store)
      → received_at p es m ++ map item (run_store es m p).messages
        ≡ map item ((m p).messages ++ sent k codes (events_of p es))
  services_fifo p es m =
      rw (received_at-received p es m, run_store-at p es m)
        (stream_fifo k codes (events_of p es) (m p))
