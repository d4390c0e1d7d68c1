-- ===== src/Runtime/Lines/Frames.antt =====
-- Which frames `decode` cuts from the buffer, and what its kept index does after a frame.
use msft.Prelude.{
  ℕ, ◌+◌, ◌<◌, ◌≡◌, ◌≢◌, refl, true, [], ◌∷◌, ◌++◌, none, some, ok, arith, length, length-append,
  take-append, drop-append, take-append_suc, drop-append_suc,
}
use msft.Runtime.Lines.{
  Bytes, Decoded, LinesDecoder, default, newline, position, line_item, split_line, decode,
}
use Prim.Native.Nat.{◌-◌}
use native.Mathlib.Nat.{zero-add}
use mathlib.Core.List.{append_assoc}
use msft.Runtime.Lines.Utf8.{is_utf8}
use msft.Runtime.Lines.Resume.{position-append}

-- A decoder that resumes behind `seen` splits the buffer at its first newline.
decode-newline :
    (seen body rest : Bytes)
    → position body ≡ none
    → decode (record { index = length seen }) (seen ++ body ++ newline ∷ rest)
      ≡ some (
          split_line
            (record { index = length seen })
            (length seen + length body + 1)
            (seen ++ body ++ newline ∷ rest))
unfolding decode position
decode-newline seen body rest h =
    rw
      (
        append_assoc,
        drop-append seen (body ++ newline ∷ rest),
        position-append body (newline ∷ rest) h,
      )
      (ground (arith, length-append seen (body ++ newline ∷ rest)))

split-first :
    (body rest : Bytes) (d : LinesDecoder)
    → split_line d (length body + 1) (body ++ newline ∷ rest)
      ≡ record { item = line_item (body ++ newline ∷ []); decoder = d; src = rest }
unfolding split_line
split-first body rest d = rw (take-append_suc body rest newline, drop-append_suc body rest newline)

line_item-two_dropped :
    (text : Bytes) (c : ℕ)
    → text ≢ []
    → is_utf8 text ≡ true
    → line_item (text ++ c ∷ newline ∷ []) ≡ ok (some text)
unfolding line_item
line_item-two_dropped [] c h u = absurd (h refl)
line_item-two_dropped (b ∷ text) c h u =
    let e : length ((b ∷ text) ++ c ∷ newline ∷ []) - 2 ≡ length (b ∷ text) =
      omega (arith, length-append text (c ∷ newline ∷ [])) in
    rw (e, take-append (b ∷ text) (c ∷ newline ∷ []), u)
      (ground (arith, length-append text (c ∷ newline ∷ [])))

-- Let the first newline of the buffer stand behind a text and one more byte, the text not empty
-- and well-formed UTF-8. Then a fresh decoder returns the text, whatever that byte is, leaves
-- what follows the newline in the buffer, and stays fresh.
pub decode-line :
    (text rest : Bytes) (c : ℕ)
    → text ≢ []
    → is_utf8 text ≡ true
    → position (text ++ c ∷ []) ≡ none
    → decode default ((text ++ c ∷ []) ++ newline ∷ rest)
      ≡ some (record { item = ok (some text); decoder = default; src = rest })
decode-line text rest c h u none_before =
    rw
      (
        decode-newline [] (text ++ c ∷ []) rest none_before,
        zero-add,
        split-first (text ++ c ∷ []) rest default,
      )
      (rw (append_assoc, line_item-two_dropped text c h u))

-- A decoder that has scanned a part of a line keeps its index when the rest of that line comes:
-- the frame is cut, and the next call panics if fewer bytes are left than the index.
pub decode-stale_index :
    (seen text rest : Bytes)
    → position seen ≡ none
    → position text ≡ none
    → length rest < length seen
    → (decode default seen
        ≡ some (record { item = ok none; decoder = record { index = length seen }; src = seen }))
      × (d : Decoded) × (decode (record { index = length seen }) (seen ++ text ++ newline ∷ rest)
          ≡ some d)
      × (d.src ≡ rest)
      × (decode d.decoder d.src ≡ none)
unfolding decode
decode-stale_index seen text rest hs ht short = (
  ground (arith, hs),
  record {
    item = line_item ((seen ++ text) ++ newline ∷ []);
    decoder = record { index = length seen };
    src = rest;
  },
  rw (decode-newline seen text rest ht, ← length-append seen text, split-first (seen ++ text) rest)
      refl,
  refl,
  ground arith,
)
