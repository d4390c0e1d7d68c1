-- ===== src/Runtime/Lines/Utf8.antt =====
-- `std::str::from_utf8`, on which crates/runtime/src/codec/lines.rs rests: which byte sequences are
-- well-formed UTF-8.
use mathlib.Core.List.{foldl}
use msft.Prelude.{
  ℕ, zero, suc, Bool, true, false, ◌&&◌, List, [], ◌∷◌, leb, ltb, if◌then◌else◌, ◌≡◌, refl, ◌==◌,
}

-- Between two bytes: at the end of a character, or with the range of the next continuation byte
-- and how many follow it.
pub data Scan : Type 0 where
  accept : Scan
  more : (rest lo hi : ℕ) → Scan
  reject : Scan

abbrev between : ℕ → ℕ → ℕ → Bool
between lo hi b = leb lo b && leb b hi

abbrev lead : ℕ → Scan
lead b =
    if ltb b 0x80
    then accept
    else if between 0xC2 0xDF b
    then more 0 0x80 0xBF
    else if b == 0xE0
    then more 1 0xA0 0xBF
    else if b == 0xED
    then more 1 0x80 0x9F
    else if between 0xE1 0xEF b
    then more 1 0x80 0xBF
    else if b == 0xF0
    then more 2 0x90 0xBF
    else if between 0xF1 0xF3 b
    then more 2 0x80 0xBF
    else if b == 0xF4
    then more 2 0x80 0x8F
    else reject

abbrev scan : Scan → ℕ → Scan
scan accept b = lead b
scan (more zero lo hi) b = if between lo hi b then accept else reject
scan (more (suc n) lo hi) b = if between lo hi b then more n 0x80 0xBF else reject
scan reject b = reject

abbrev is_accept : Scan → Bool
is_accept accept = true
is_accept _ = false

unfoldable pub is_utf8 : List ℕ → Bool
is_utf8 bytes = is_accept (foldl scan accept bytes)

euro_sign : is_utf8 (0xE2 ∷ 0x82 ∷ 0xAC ∷ b'k' ∷ []) ≡ true
unfolding is_utf8
euro_sign = refl

cut_short : is_utf8 (b'k' ∷ 0xE2 ∷ 0x82 ∷ []) ≡ false
unfolding is_utf8
cut_short = refl
