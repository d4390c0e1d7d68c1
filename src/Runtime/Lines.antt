-- ===== src/Runtime/Lines.antt =====
-- crates/runtime/src/codec/lines.rs: the line decoder over a byte buffer, and the `Decode` contract
-- of crates/runtime/src/codec/mod.rs.
pub mod Utf8
pub mod Resume
pub mod Frames
use Utf8.{is_utf8}
use msft.Prelude.{
  ℕ, zero, suc, ◌+◌, ◌-◌, Bool, List, [], ◌∷◌, Option, none, some, Result, ok, err, Faulty, ltb,
  ◌==◌, if◌then◌else◌, length, take, drop,
}

abbrev pub Bytes : Type 0
Bytes = List ℕ

pub data Utf8Error : Type 0 where
  utf8_error : Utf8Error

pub record LinesDecoder : Type 0 where
  pub index : ℕ

abbrev pub default : LinesDecoder
default = record { index = 0 }

-- What a call of `decode` returns, with the decoder and the buffer that it leaves.
pub record Decoded : Type 0 where
  pub item : Result (Option Bytes) Utf8Error
  pub decoder : LinesDecoder
  pub src : Bytes

abbrev pub newline : ℕ
newline = b'\n'

-- `iter().position(|b| *b == b'\n')`.
unfoldable pub position : Bytes → Option ℕ
position [] = none
position (b ∷ bs) =
    let rest = position bs in
    if b == newline then some 0 else elim rest [ none ↦ none | some n ↦ some (suc n) ]

-- `str::from_utf8(&line[..line.len() - 2])` of a line of more than two bytes, else no item.
unfoldable pub line_item : Bytes → Result (Option Bytes) Utf8Error
line_item line =
    if ltb 2 (length line)
    then (let text = take (length line - 2) line in
        if is_utf8 text then ok (some text) else err utf8_error)
    else ok none

-- `split_to` hands over the first bytes of the buffer and keeps the others.
unfoldable pub split_line : LinesDecoder → ℕ → Bytes → Decoded
split_line d n src = record { item = line_item (take n src); decoder = d; src = drop n src }

abbrev pub at_position : LinesDecoder → Bytes → Option ℕ → Decoded
at_position d src (some offset) = split_line d (d.index + offset + 1) src
at_position d src none = record {
  item = ok none;
  decoder = record { index = length src };
  src = src;
}

-- `none`: the slice `src[self.index..src.len()]` panics.
unfoldable pub decode : LinesDecoder → Bytes → Faulty Decoded
decode d src =
    if ltb (length src) d.index
    then none
    else some (at_position d src (position (drop d.index src)))
