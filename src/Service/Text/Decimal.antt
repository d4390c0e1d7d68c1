-- ===== src/Service/Text/Decimal.antt =====
-- Decimal numbers as the standard library writes a u8, a u32 or a usize of 64 bits for
-- crates/service/src/message.rs, and how they are read back from the front of a text.
use msft.Prelude.{
  ℕ, zero, suc, ◌+◌, ◌-◌, ◌*◌, ◌/◌, ◌%◌, ◌^◌, ◌<◌, ◌≡◌, List, [], ◌∷◌, ◌++◌, ◌&&◌, leb, ltb,
  if◌then◌else◌, Bool-cases, inl, inr, ap, ◌∙◌, refl, arith, Bool, false,
}

-- The digits in front of `out`, the last one first. Twenty rounds are enough for 64 bits.
unfoldable pub emit : ℕ → ℕ → List ℕ → List ℕ
emit zero n out = out
emit (suc rounds) n out =
    let rest = emit rounds (n / 10) ((b'0' + n % 10) ∷ out) in
    if ltb n 10 then (b'0' + n) ∷ out else rest

unfoldable pub decimal : ℕ → List ℕ
unfolding emit
decimal n = emit 20 n []

abbrev pub is_digit : ℕ → Bool
is_digit c = leb b'0' c && leb c b'9'

-- The number in front of a text, behind the digits read before, and what follows it.
unfoldable pub scan : List ℕ → ℕ → ℕ × List ℕ
scan [] n = (n, [])
scan (c ∷ s) n = let rest = scan s (n * 10 + (c - b'0')) in if is_digit c then rest else (n, c ∷ s)

scan-digit : (d n : ℕ) (s : List ℕ) → d < 10 → scan ((b'0' + d) ∷ s) n ≡ scan s (n * 10 + d)
unfolding scan
scan-digit d n s h = ground arith

abbrev room : ℕ → ℕ
room zero = 10
room (suc rounds) = 10 * room rounds

emit-append : (rounds n : ℕ) (out s : List ℕ) → emit rounds n out ++ s ≡ emit rounds n (out ++ s)
unfolding emit
emit-append zero n out s = refl
emit-append (suc rounds) n out s =
    ground (arith, emit-append rounds (n / 10) ((b'0' + n % 10) ∷ out) s)

scan-emit :
    (rounds n : ℕ) (out : List ℕ) → n < room rounds → scan (emit (suc rounds) n out) 0 ≡ scan out n
unfolding emit
scan-emit zero n out h = ground (arith, scan-digit n 0 out)
scan-emit (suc rounds) n out h = elim (Bool-cases (ltb n 10)) [
  | inl small ↦ rw small (scan-digit n 0 out (ground arith) ∙ ap (scan out) (omega arith))
  | inr large ↦ rw large (
      scan-emit rounds (n / 10) ((b'0' + n % 10) ∷ out) (omega arith)
      ∙ scan-digit (n % 10) (n / 10) out (omega arith)
      ∙ ap (scan out) (omega arith))
]

-- A text that is at its end, or goes on with something that is no digit.
abbrev pub EndsNumber : List ℕ → Type 0
EndsNumber [] = Unit
EndsNumber (c ∷ s) = is_digit c ≡ false

scan-EndsNumber : (s : List ℕ) (n : ℕ) → EndsNumber s → scan s n ≡ (n, s)
unfolding scan
scan-EndsNumber [] n h = refl
scan-EndsNumber (c ∷ s) n h = rw h refl

-- A number of 64 bits is read back from the front of a text.
pub scan-decimal :
    (n : ℕ) (s : List ℕ) → n < 2 ^ 64 → EndsNumber s → scan (decimal n ++ s) 0 ≡ (n, s)
unfolding decimal
scan-decimal n s h e =
    rw (emit-append 20 n [] s, scan-emit 19 n s (omega arith)) (scan-EndsNumber s n e)
