-- ===== src/Service/Wchar.antt =====
-- crates/service/src/util/wchar.rs: wide strings in memory. An `OsString` is its sequence of UTF-16
-- code units, as `encode_wide` gives it and `OsString::from_wide` takes it.
pub mod WindowText
use native.Mathlib.Nat.{zero-add}
use mathlib.Core.List.{append_assoc}
use msft.Prelude.{
  ℕ, suc, ◌+◌, ◌*◌, ◌≡◌, ◌≢◌, refl, none, some, List, [], ◌∷◌, ◌++◌, Faulty, ◌==◌, if◌then◌else◌,
  take, length, take-append, arith,
}

abbrev pub OsString : Type 0
OsString = List ℕ

-- The loop of `from_wide` over the memory from the pointer on, with the units that it has passed;
-- `none` is a read behind that memory.
unfoldable pub seek : List ℕ → ℕ → Faulty ℕ
seek [] passed = none
seek (u ∷ us) passed = let rest = seek us (suc passed) in if u == 0 then some passed else rest

abbrev slice_to : List ℕ → Faulty ℕ → Faulty OsString
slice_to memory none = none
slice_to memory (some n) = some (take n memory)

unfoldable pub from_wide : List ℕ → Faulty OsString
unfolding seek
from_wide memory = slice_to memory (seek memory 0)

unfoldable pub to_wide : OsString → List ℕ
to_wide s = s ++ 0 ∷ []

-- The units at a pointer to bytes: two bytes each, the low one first.
unfoldable pub units : List ℕ → List ℕ
units [] = []
units (lo ∷ []) = []
units (lo ∷ hi ∷ bytes) = (lo + 256 * hi) ∷ units bytes

abbrev pub HasNoNul : OsString → Type 0
HasNoNul [] = Unit
HasNoNul (u ∷ us) = (u ≢ 0) × HasNoNul us

seek-append :
    (s rest : List ℕ) (passed : ℕ)
    → HasNoNul s
    → seek (s ++ 0 ∷ rest) passed ≡ some (passed + length s)
unfolding seek
seek-append [] rest passed h = ground arith
seek-append (u ∷ s) rest passed h = ground (arith, seek-append s rest (suc passed) h.1)

from_wide-append : (s rest : List ℕ) → HasNoNul s → from_wide (s ++ 0 ∷ rest) ≡ some s
unfolding from_wide
from_wide-append s rest h = rw (seek-append s rest 0 h, zero-add, take-append s (0 ∷ rest)) refl

-- A string without a NUL is read back from its wide form, whatever lies behind it in memory.
pub from_wide-to_wide :
    (s : OsString) (rest : List ℕ) → HasNoNul s → from_wide (to_wide s ++ rest) ≡ some s
unfolding to_wide
from_wide-to_wide s rest h = rw append_assoc (from_wide-append s rest h)

seek-unterminated : (memory : List ℕ) (passed : ℕ) → HasNoNul memory → seek memory passed ≡ none
unfolding seek
seek-unterminated [] passed h = refl
seek-unterminated (u ∷ us) passed h = ground (arith, seek-unterminated us (suc passed) h.1)

-- Memory that holds no NUL is read behind its end.
pub from_wide-unterminated : (memory : List ℕ) → HasNoNul memory → from_wide memory ≡ none
unfolding from_wide
from_wide-unterminated memory h = rw (seek-unterminated memory 0 h) refl
