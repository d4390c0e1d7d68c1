-- ===== src/Runtime/Lines/Resume.antt =====
-- The index that the decoder keeps (`LinesDecoder::index`) only saves rescanning.
use msft.Prelude.{
  ◌+◌, ◌≡◌, [], ◌∷◌, ◌++◌, Option, none, some, arith, length, length-append, drop-append, Result,
}
use msft.Runtime.Lines.{Bytes, Decoded, default, position, split_line, decode, Utf8Error}

pub position-append :
    (seen new : Bytes)
    → position seen ≡ none
    → position (seen ++ new)
      ≡ (elim (position new) [ none ↦ none | some n ↦ some (length seen + n) ])
unfolding position
position-append [] new h = ground arith
position-append (b ∷ seen) new h = ground (arith, position-append seen new)

-- What a call hands to its caller: the item and the rest of the buffer.
abbrev pub frame : Option Decoded → Option (Result (Option Bytes) Utf8Error × Bytes)
frame none = none
frame (some d) = some (d.item, d.src)

-- Let the first part of the buffer, already scanned, hold no newline. Then a decoder that resumes
-- behind it hands over the same item and leaves the same buffer as one that scans from the start.
pub decode-resume :
    (seen new : Bytes)
    → position seen ≡ none
    → frame (decode (record { index = length seen }) (seen ++ new))
      ≡ frame (decode default (seen ++ new))
unfolding decode split_line
decode-resume seen new h =
    rw (drop-append seen new, position-append seen new h) (ground (arith, length-append seen new))
