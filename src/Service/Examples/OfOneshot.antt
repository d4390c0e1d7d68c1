-- ===== src/Service/Examples/OfOneshot.antt =====
-- A one-shot pair from its creation to its end (crates/service/src/util/wait.rs).
use msft.Service.Wait.Lifetime.Over
use msft.Service.Wait.Lifetime.{
  World, nothing_open, Reach, fresh, later, sets, drops_receiver, sender_acts, receiver_acts, fires,
  begins, returns,
}
use msft.Service.Wait.Pool.{Answers, Pair, oneshot}
use msft.Prelude.{◌≡◌, ◌⊎◌, ◌<◌, ◌+◌, refl, true, false, some, []}

-- The kernel gives the event the handle 5, and the wait the handle 6.
abbrev answers : Answers
answers = record { event = 5; pool = 6; last_os_error = 0 }

abbrev pair : Pair
pair = record { event = 5; pool = 6 }

abbrev over : World
over = record { kernel = nothing_open; holders = 0; sender = some []; receiver = some [] }

-- The sender sets the event; the callback runs while the receiver is dropped.
over-Reach : Reach answers pair over
unfolding oneshot
over-Reach =
    let set =
      later (later (later (fresh refl refl) (sets refl)) (sender_acts refl tt))
        (sender_acts refl tt) in
    let called = later (later set (fires refl refl)) (begins refl) in
    let dropping = later (later called (drops_receiver refl)) (receiver_acts refl tt) in
    let returned = later dropping (returns refl) in
    later (later (later returned (receiver_acts refl refl)) (receiver_acts refl tt))
      (receiver_acts refl tt)

oneshot_over_example :
    ((false ≡ true) × (0 < Over.holds over.sender + Over.holds over.receiver)
      ⊎ (false ≡ false)
        × (over.sender ≡ some [])
        × (over.receiver ≡ some [])
        × (over.kernel.pool_open ≡ false))
    × ((false ≡ true)
        ⊎ (false ≡ false)
          × (over.kernel.armed ≡ false)
          × (over.kernel.queued ≡ 0)
          × (over.kernel.running ≡ 0))
oneshot_over_example = Over.oneshot_over answers pair over-Reach
