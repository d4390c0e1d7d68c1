-- ===== src/Service/Wait/Lifetime/Over.antt =====
-- When the end of a one-shot pair is over (crates/service/src/util/wait.rs).
use msft.Service.Wait.Lifetime.{
  Kernel, nothing_open, effects, World, Step, Reach, fresh, later, sets, drops_sender,
  drops_receiver, sender_acts, receiver_acts, fires, begins, returns, oneshot_opens,
}
use msft.Service.Wait.Pool.{
  Answers, Pair, oneshot, Action, release, call, set_sender, drop_receiver, wait_pool, cancel_them,
  called, close_wait,
}
use msft.Prelude.{
  ℕ, suc, ◌+◌, ◌<◌, ◌≡◌, ◌⊎◌, true, false, Option, none, some, List, [], ◌∷◌, ◌++◌, ok, arith,
}

-- An owner still holds a reference until it has released it.
abbrev pub held_by : List Action → ℕ
held_by [] = 0
held_by (release ∷ as') = suc (held_by as')
held_by (call c ∷ as') = held_by as'

abbrev pub holds : Option (List Action) → ℕ
holds none = 1
holds (some as') = held_by as'

module _ (answers : Answers) (p : Pair) where
  -- How far the sender has come.
  abbrev AtSender : Option (List Action) → Type 0
  AtSender s = (s ≡ none) ⊎ (s ≡ some (set_sender p)) ⊎ (s ≡ some (release ∷ [])) ⊎ (s ≡ some [])

  -- How far the receiver has come, and what is over by then.
  abbrev AtReceiver : Kernel → Option (List Action) → Type 0
  AtReceiver k r =
      (r ≡ none) × (k.pool_open ≡ true)
      ⊎ (r ≡ some (drop_receiver p)) × (k.pool_open ≡ true)
      ⊎ (r ≡ some (called (wait_pool p.pool cancel_them ++ close_wait p.pool ∷ []) ++ release ∷ []))
        × (k.pool_open ≡ true)
        × (k.armed ≡ false)
      ⊎ (r ≡ some (call (close_wait p.pool) ∷ release ∷ []))
        × (k.pool_open ≡ true)
        × (k.armed ≡ false)
        × (k.queued ≡ 0)
        × (k.running ≡ 0)
      ⊎ ((r ≡ some (release ∷ [])) ⊎ (r ≡ some []))
        × (k.pool_open ≡ false)
        × (k.armed ≡ false)
        × (k.queued ≡ 0)
        × (k.running ≡ 0)

  record Inv (w : World) : Type 0 where
    handles : (p.event ≡ answers.event) × (p.pool ≡ answers.pool)
    sender : AtSender w.sender
    receiver : AtReceiver w.kernel w.receiver
    counted : w.holders ≡ holds w.sender + holds w.receiver
    event :
        (w.kernel.event_open ≡ true) × (0 < w.holders)
        ⊎ (w.kernel.event_open ≡ false) × (w.holders ≡ 0)

  Step-Inv : {w v : World} → Step answers p w v → Inv w → Inv v
  Step-Inv {w} (sets e) inv = ground arith
  Step-Inv {w} (drops_sender e) inv = ground arith
  Step-Inv {w} (drops_receiver e) inv = ground arith
  Step-Inv {w} (sender_acts e c) inv = ground arith
  Step-Inv {w} (receiver_acts e c) inv = ground arith
  Step-Inv {w} (fires a s) inv = ground arith
  Step-Inv {w} (begins e) inv = ground arith
  Step-Inv {w} (returns e) inv = ground arith

  fresh-Inv :
      {k : Kernel}
      → (oneshot answers).1 ≡ ok p
      → effects answers (oneshot answers).0 nothing_open ≡ k
      → Inv (record { kernel = k; holders = 2; sender = none; receiver = none })
  fresh-Inv e f = ground (arith, oneshot_opens answers)

  Reach-Inv : {w : World} → Reach answers p w → Inv w
  Reach-Inv (fresh e f) = fresh-Inv e f
  Reach-Inv (later r s) = Step-Inv s (Reach-Inv r)

-- In every state that a pair reaches: its event is open, and an owner still holds the state or is not
-- done with it; or the event is closed, and then both owners are done, the pool is closed, the kernel
-- waits for nothing, and no callback is queued or runs. Where the receiver is done with its pool, too,
-- no callback is left; and before, the pool is open.
pub oneshot_over :
    (answers : Answers) (p : Pair) {w : World}
    → Reach answers p w
    → ((w.kernel.event_open ≡ true) × (0 < holds w.sender + holds w.receiver)
        ⊎ (w.kernel.event_open ≡ false)
          × (w.sender ≡ some [])
          × (w.receiver ≡ some [])
          × (w.kernel.pool_open ≡ false))
      × ((w.kernel.pool_open ≡ true)
          ⊎ (w.kernel.pool_open ≡ false)
            × (w.kernel.armed ≡ false)
            × (w.kernel.queued ≡ 0)
            × (w.kernel.running ≡ 0))
oneshot_over answers p r = ground (arith, Reach-Inv answers p r)
