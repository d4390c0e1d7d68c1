-- ===== src/Service/Wchar/WindowText.antt =====
-- crates/service/src/util/wchar.rs: the macro `get_window_text`, over `GetWindowTextW`.
use msft.Service.Wchar.{OsString, HasNoNul, from_wide, to_wide, from_wide-to_wide}
use mathlib.Core.Option.{map as map_some}
use msft.Prelude.{
  ℕ, suc, zero, ◌≡◌, ◌⊎◌, ◌≤◌, inl, inr, Option, none, some, List, [], ◌∷◌, ◌++◌, Result, ok, err,
  Faulty, leb, if◌then◌else◌, take, length, arith, replicate,
}

-- `GetWindowTextW` of a window, on the memory of the buffer: what it leaves there, and the number that it
-- answers, where `none` is a negative one.
abbrev pub GetWindowText : Type 0
GetWindowText = List ℕ → List ℕ × Option ℕ

abbrev text_or_error : (max last_os_error : ℕ) → List ℕ × Option ℕ → Faulty (Result OsString ℕ)
text_or_error max e (buff, none) = some (err e)
text_or_error max e (buff, some n) =
    if leb n max then map_some ok (from_wide buff) else some (err e)

-- `get_window_text`; `none` is a read behind the buffer.
unfoldable pub get_window_text :
    GetWindowText → (max last_os_error : ℕ) → Faulty (Result OsString ℕ)
get_window_text get_text max e = text_or_error max e (get_text (replicate (suc max) 0))

-- What Win32 documents for a window with this text: the text, cut where the buffer ends, with its NUL, and
-- its length; or, at a failure, 0, and then the buffer is left as it is.
abbrev pub Gets : GetWindowText → OsString → (max : ℕ) → Type 0
Gets get_text text max =
    ((rest : List ℕ) × (get_text (replicate (suc max) 0)
        ≡ (to_wide (take max text) ++ rest, some (length (take max text)))))
    ⊎ (get_text (replicate (suc max) 0) ≡ (replicate (suc max) 0, some 0))

-- The text that is left of a window's, by what the kernel did.
abbrev pub text_left :
    (get_text : GetWindowText) (text : OsString) (max : ℕ) → Gets get_text text max → OsString
text_left get_text text max (inl _) = take max text
text_left get_text text max (inr _) = []

take-HasNoNul : (n : ℕ) (s : OsString) → HasNoNul s → HasNoNul (take n s)
take-HasNoNul zero s h = tt
take-HasNoNul (suc n) [] h = tt
take-HasNoNul (suc n) (u ∷ s) h = (h.0, take-HasNoNul n s h.1)

length-take : (n : ℕ) (s : OsString) → length (take n s) ≤ n
length-take zero s = omega arith
length-take (suc n) [] = omega arith
length-take (suc n) (u ∷ s) = omega (arith, length-take n s)

from_wide-zeros : (max : ℕ) → from_wide (replicate (suc max) 0) ≡ some []
unfolding to_wide
from_wide-zeros max = from_wide-to_wide [] (replicate max 0) tt

-- Where the kernel does what is documented, the text of a window is never an error and never read behind
-- the buffer: it is the window's text up to the length that is asked for, or, where the kernel fails, the
-- empty text.
pub get_window_text-ok :
    (get_text : GetWindowText) (text : OsString) (max e : ℕ)
    → HasNoNul text
    → (gets : Gets get_text text max)
    → get_window_text get_text max e ≡ some (ok (text_left get_text text max gets))
unfolding get_window_text
get_window_text-ok get_text text max e h (inl (rest, g)) =
    rw (g, from_wide-to_wide (take max text) rest (take-HasNoNul max text h))
      (ground (arith, length-take max text))
get_window_text-ok get_text text max e h (inr g) = rw g (ground (arith, from_wide-zeros max))
