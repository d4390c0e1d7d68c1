-- ===== src/Service/Hkey/Owned.antt =====
-- crates/service/src/util/hkey.rs: the handle of a key, from `open` to its drop, with the kernel calls that
-- are made on it, in order; and the use that `scan` of crates/service/src/device.rs makes of a key.
pub mod Closed
use msft.Service.Hkey.{Item, HkeyInfo, HkeyValueIter, Key, info, next}
use msft.Prelude.{
  ℕ, zero, suc, ◌<◌, ◌≤◌, ◌≡◌, Bool, true, false, List, [], ◌∷◌, ◌++◌, Option, none, some, Result,
  ok, err, Faulty, ◌==◌, if◌then◌else◌, arith, inl, inr, Bool-cases, ltb,
}

pub data KeyCall : Type 0 where
  reg_open_key : KeyCall
  reg_query_info_key : KeyCall
  reg_enum_value : (index : ℕ) → KeyCall
  reg_close_key : KeyCall

-- `Hkey::drop`, also where the key is a field of an iterator that is dropped, by a return or a panic.
abbrev pub drop_key : List KeyCall
drop_key = reg_close_key ∷ []

-- `HKEY::from`: the key is dropped when the function returns its handle.
abbrev pub handle_from : ℕ → List KeyCall × ℕ
handle_from handle = (drop_key, handle)

-- `HkeyValueIter::next`.
abbrev next_calls : HkeyValueIter → List KeyCall
next_calls it = if it.index == it.num_values then [] else reg_enum_value it.index ∷ []

module _ {ℓ κ} {A : Type ℓ} {E : Type κ} (f : Item → Faulty (Result A E)) (k : Key) where
  -- `map(f).collect()` goes on behind a value that is taken.
  abbrev behind_value : Faulty (Result A E) → List KeyCall → List KeyCall
  behind_value none rest = []
  behind_value (some (err e)) rest = []
  behind_value (some (ok a)) rest = rest

  abbrev behind_item : Faulty (Option Item) → List KeyCall → List KeyCall
  behind_item none rest = []
  behind_item (some none) rest = []
  behind_item (some (some item)) rest = behind_value (f item) rest

  abbrev pub collect_calls : ℕ → HkeyValueIter → List KeyCall
  collect_calls zero it = []
  collect_calls (suc fuel) it =
      let drawn = next k.enum_value k.last_os_error it in
      next_calls it ++ behind_item drawn.1 (collect_calls fuel drawn.0)

  -- Behind `into_values`: where the info is refused, `self` is dropped with the error.
  abbrev behind_info : Result HkeyInfo ℕ → List KeyCall
  behind_info (err e) = drop_key
  behind_info (ok i) =
      collect_calls (suc i.num_values) (record { num_values = i.num_values; index = 0 }) ++ drop_key

  -- `open(..)?.into_values()?.map(f).collect()`.
  abbrev pub values_calls : List KeyCall
  values_calls =
      if k.opens
      then reg_open_key ∷ reg_query_info_key ∷ behind_info (info k)
      else reg_open_key ∷ []

-- What the calls on one key leave: whether it is open; `none` where a call is made on a key that is not
-- open, or for an index that is not below the bound, or where an open key is opened again.
abbrev called : (opens : Bool) (bound : ℕ) → KeyCall → Bool → Option Bool
called opens bound reg_open_key true = none
called opens bound reg_open_key false = some opens
called opens bound _ false = none
called opens bound reg_query_info_key true = some true
called opens bound (reg_enum_value i) true = if ltb i bound then some true else none
called opens bound reg_close_key true = some false

abbrev run_with : (Bool → Option Bool) → Option Bool → Option Bool
run_with f none = none
run_with f (some b) = f b

abbrev pub run_calls : (opens : Bool) (bound : ℕ) → List KeyCall → Bool → Option Bool
run_calls opens bound [] b = some b
run_calls opens bound (c ∷ cs) b = run_with (run_calls opens bound cs) (called opens bound c b)
