-- ===== src/Runtime/Examples/OfLines.antt =====
-- Concrete buffers for the decoder of crates/runtime/src/codec/lines.rs.
use msft.Runtime.Lines.Frames
use msft.Runtime.Lines.{Bytes, Decoded, decode, default, position, newline}
use msft.Runtime.Lines.Utf8.{is_utf8}
use msft.Prelude.{◌≡◌, refl, ok, none, some, [], ◌∷◌, ◌++◌, arith}

abbrev ab : Bytes
ab = b'a' ∷ b'b' ∷ []

decode-line_example :
    decode default ((ab ++ b'\r' ∷ []) ++ newline ∷ ab)
    ≡ some (record { item = ok (some ab); decoder = default; src = ab })
unfolding position is_utf8
decode-line_example = Frames.decode-line ab ab b'\r' (ground arith) refl refl

decode-stale_index_example :
    (decode default ab ≡ some (record { item = ok none; decoder = record { index = 2 }; src = ab }))
    × (d : Decoded) × (decode (record { index = 2 }) (ab ++ [] ++ newline ∷ []) ≡ some d)
    × (d.src ≡ [])
    × (decode d.decoder d.src ≡ none)
unfolding position
decode-stale_index_example = Frames.decode-stale_index ab [] [] refl refl (omega arith)
