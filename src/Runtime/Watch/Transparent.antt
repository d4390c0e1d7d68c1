-- ===== src/Runtime/Watch/Transparent.antt =====
-- A watch returns what the future or stream inside returns (crates/runtime/src/futures/watch.rs).
use msft.Runtime.Watch.{
  Inner, incomplete, complete, Watched, Polled, poll, finish, watch_of, poll_next,
}
use msft.Prelude.{
  Option, none, some, Faulty, Poll, pending, ready, ◌≡◌, List, [], ◌∷◌, refl, Poll-cases, inl, ap,
  inr, Option-cases,
}
use msft.Prelude.Wakers.{Waker}

-- The results of polling a watch once for each waker, up to the first panic.
abbrev pub results {ℓ κ} :
    {I : Type ℓ} {O : Type κ}
    → (Waker → Watched I → Faulty (Polled I O))
    → List Waker
    → Watched I
    → List (Poll O)
results poll_it [] w = []
results poll_it (cx ∷ cxs) w = elim (poll_it cx w) [
  | none ↦ []
  | some q ↦ q.result ∷ results poll_it cxs q.after
]

-- The results of polling a future until it is ready, as its contract demands.
abbrev pub future_results {ℓ κ} :
    {I : Type ℓ} {O : Type κ} → (Waker → I → I × Poll O) → List Waker → I → List (Poll O)
future_results poll_inner [] i = []
future_results poll_inner (cx ∷ cxs) i = elim (poll_inner cx i).1 [
  | pending ↦ pending ∷ future_results poll_inner cxs (poll_inner cx i).0
  | ready o ↦ ready o ∷ []
]

-- The results of polling a stream until it ends.
abbrev pub stream_results {ℓ κ} :
    {I : Type ℓ} {O : Type κ}
    → (Waker → I → I × Poll (Option O))
    → List Waker
    → I
    → List (Poll (Option O))
stream_results poll_next_inner [] i = []
stream_results poll_next_inner (cx ∷ cxs) i =
    let rest = stream_results poll_next_inner cxs (poll_next_inner cx i).0 in
    elim (poll_next_inner cx i).1 [
      | pending ↦ pending ∷ rest
      | ready o ↦ elim o [ some item ↦ ready (some item) ∷ rest | none ↦ ready none ∷ [] ]
    ]

module _ {ℓ κ} {I : Type ℓ} {O : Type κ} (poll_inner : Waker → I → I × Poll O) where
  results-complete :
      (cxs : List Waker) (s : Inner)
      → results (poll poll_inner) cxs (record { watch = complete; shared = s }) ≡ []
  unfolding poll
  results-complete [] s = refl
  results-complete (cx ∷ cxs) s = refl

  results-incomplete :
      (cxs : List Waker) (i : I) (s : Inner)
      → results (poll poll_inner) cxs (record { watch = incomplete i; shared = s })
        ≡ future_results poll_inner cxs i
  unfolding poll finish
  results-incomplete [] i s = refl
  results-incomplete (cx ∷ cxs) i s = elim (Poll-cases (poll_inner cx i).1) [
    | inl wait ↦
        rw (wait, results, future_results)
          (ap (λ t. pending ∷ t) (results-incomplete cxs (poll_inner cx i).0 s))
    | inr (o, done) ↦
        rw (done, results, future_results) (ap (λ t. ready o ∷ t) (results-complete cxs _))
  ]

  -- Polling a watched future gives what polling the future gives, until the future is ready.
  pub future-transparent :
      (cxs : List Waker) (i : I)
      → results (poll poll_inner) cxs (watch_of i) ≡ future_results poll_inner cxs i
  future-transparent cxs i = results-incomplete cxs i _

module _ {ℓ κ} {I : Type ℓ} {O : Type κ} (poll_next_inner : Waker → I → I × Poll (Option O)) where
  next_results-complete :
      (cxs : List Waker) (s : Inner)
      → results (poll_next poll_next_inner) cxs (record { watch = complete; shared = s }) ≡ []
  unfolding poll_next
  next_results-complete [] s = refl
  next_results-complete (cx ∷ cxs) s = refl

  next_results-incomplete :
      (cxs : List Waker) (i : I) (s : Inner)
      → results (poll_next poll_next_inner) cxs (record { watch = incomplete i; shared = s })
        ≡ stream_results poll_next_inner cxs i
  unfolding poll_next finish
  next_results-incomplete [] i s = refl
  next_results-incomplete (cx ∷ cxs) i s =
      let ih = next_results-incomplete cxs (poll_next_inner cx i).0 s in
      elim (Poll-cases (poll_next_inner cx i).1) [
        | inl wait ↦ rw (wait, results, stream_results) (ap (λ t. pending ∷ t) ih)
        | inr (o, done) ↦ elim (Option-cases o) [
          | inl end ↦
              rw (done, end, results, stream_results)
                (ap (λ t. ready none ∷ t) (next_results-complete cxs _))
          | inr (item, e) ↦
              rw (done, e, results, stream_results) (ap (λ t. ready (some item) ∷ t) ih)
        ]
      ]

  -- Polling a watched stream gives the items of the stream, and its end.
  pub stream-transparent :
      (cxs : List Waker) (i : I)
      → results (poll_next poll_next_inner) cxs (watch_of i) ≡ stream_results poll_next_inner cxs i
  stream-transparent cxs i = next_results-incomplete cxs i _
