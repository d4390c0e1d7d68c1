-- ===== src/Service/Hkey/Owned/Closed.antt =====
-- What the calls on a key leave open (crates/service/src/util/hkey.rs, crates/service/src/device.rs).
use msft.Service.Hkey.Owned.{
  KeyCall, collect_calls, values_calls, run_calls, run_with, next_calls, behind_item, behind_value,
  behind_info, drop_key, called,
}
use msft.Service.Hkey.{Item, HkeyInfo, HkeyValueIter, Key, info, next, enumerated}
use msft.Prelude.{
  ℕ, zero, suc, ◌≤◌, ◌≡◌, Bool, true, false, List, [], ◌∷◌, ◌++◌, Option, none, some, Result, ok,
  err, Faulty, ◌==◌, if◌then◌else◌, arith, inl, inr, Bool-cases, refl,
}

run_calls-append :
    (opens : Bool) (bound : ℕ) (cs ds : List KeyCall) (b : Bool)
    → run_calls opens bound (cs ++ ds) b
      ≡ run_with (run_calls opens bound ds) (run_calls opens bound cs b)
run_calls-append opens bound [] ds b = refl
run_calls-append opens bound (c ∷ cs) ds b =
    elim (called opens bound c b)
      as (λ r.
        run_with (run_calls opens bound (cs ++ ds)) r
        ≡ run_with (run_calls opens bound ds) (run_with (run_calls opens bound cs) r)) [
          | none ↦ refl
          | some b' ↦ run_calls-append opens bound cs ds b'
        ]

module _ {ℓ κ} {A : Type ℓ} {E : Type κ} (f : Item → Faulty (Result A E)) (k : Key) where
  behind_value-open :
      (opens : Bool) (bound : ℕ) (r : Faulty (Result A E)) (rest : List KeyCall)
      → run_calls opens bound rest true ≡ some true
      → run_calls opens bound (behind_value f k r rest) true ≡ some true
  behind_value-open opens bound none rest h = refl
  behind_value-open opens bound (some (err e)) rest h = refl
  behind_value-open opens bound (some (ok a)) rest h = h

  behind_item-open :
      (opens : Bool) (bound : ℕ) (r : Faulty (Option Item)) (rest : List KeyCall)
      → run_calls opens bound rest true ≡ some true
      → run_calls opens bound (behind_item f k r rest) true ≡ some true
  behind_item-open opens bound none rest h = refl
  behind_item-open opens bound (some none) rest h = refl
  behind_item-open opens bound (some (some item)) rest h =
      behind_value-open opens bound (f item) rest h

  next-within :
      (bound i : ℕ)
      → i ≤ bound
      → (j : ℕ) × ((next k.enum_value k.last_os_error (record { num_values = bound; index = i })).0
          ≡ record { num_values = bound; index = j })
        × (j ≤ bound)
  unfolding next
  next-within bound i h = elim (Bool-cases (i == bound)) [
    | inl e ↦ (i, rw e refl, h)
    | inr e ↦
        elim (k.enum_value i)
          as (λ r.
            (j : ℕ) × ((if i == bound
                then (record { num_values = bound; index = i }, some none)
                else enumerated k.last_os_error (record { num_values = bound; index = i }) r).0
              ≡ record { num_values = bound; index = j })
            × (j ≤ bound)) [ none ↦ (i, rw e refl, h) | some v ↦ (suc i, rw e refl, ground arith) ]
  ]

  next_calls-open :
      (opens : Bool) (bound i : ℕ)
      → i ≤ bound
      → run_calls opens bound (next_calls (record { num_values = bound; index = i })) true
        ≡ some true
  next_calls-open opens bound i h = ground arith

  collect_calls-open :
      (opens : Bool) (bound fuel i : ℕ)
      → i ≤ bound
      → run_calls opens bound
          (collect_calls f k fuel (record { num_values = bound; index = i }))
          true
        ≡ some true
  collect_calls-open opens bound zero i h = refl
  collect_calls-open opens bound (suc fuel) i h =
      let it : HkeyValueIter = record { num_values = bound; index = i } in
      let drawn = next k.enum_value k.last_os_error it in
      let (j, e, g) = next-within bound i h in
      rw
        (
          run_calls-append opens bound (next_calls it)
              (behind_item f k drawn.1 (collect_calls f k fuel drawn.0)) true,
          next_calls-open opens bound i h,
        )
        (behind_item-open opens bound drawn.1 (collect_calls f k fuel drawn.0)
          (rw e (collect_calls-open opens bound fuel j g)))

  -- The number of values that a key says it has.
  abbrev value_count : Result HkeyInfo ℕ → ℕ
  value_count (err e) = 0
  value_count (ok i) = i.num_values

  behind_info-closed :
      (opens : Bool) (r : Result HkeyInfo ℕ)
      → run_calls opens (value_count r) (behind_info f k r) true ≡ some false
  behind_info-closed opens (err e) = refl
  behind_info-closed opens (ok i) =
      let it : HkeyValueIter = record { num_values = i.num_values; index = 0 } in
      rw
        (
          run_calls-append opens i.num_values (collect_calls f k (suc i.num_values) it) drop_key
              true,
          collect_calls-open opens i.num_values (suc i.num_values) 0 (omega arith),
        )
        refl

  -- A key that `scan` opens is closed at the end, once, whatever the kernel answers and whatever its values
  -- are read as: also where its info is refused, and where a value is an error or a panic. Until then each
  -- call finds it open, and asks for values only below the number that the key says it has.
  pub values_calls-closed :
      run_calls k.opens (value_count (info k)) (values_calls f k) false ≡ some false
  values_calls-closed = elim (Bool-cases k.opens) [
    | inl e ↦ rw e (behind_info-closed true (info k))
    | inr e ↦ rw e refl
  ]
