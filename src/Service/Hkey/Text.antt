-- ===== src/Service/Hkey/Text.antt =====
-- The text of a conversion that fails (crates/service/src/util/hkey.rs).
use msft.Service.Hkey.{RegistryCodes, UnexpectedRegistryData, try_into_u64}
use msft.Service.Text.{Text, codes}
use msft.Prelude.{ℕ, ◌≡◌, ◌≢◌, ◌++◌, ◌==◌, if◌then◌else◌, err, map_err, arith, List}

-- The registry value types that have a text.
pub record RegistryTypes : Type 0 where
  pub registry : RegistryCodes
  pub binary : ℕ
  pub multi_sz : ℕ
  pub reg_none : ℕ

-- `UnexpectedRegistryData::code_to_str`: the first type that has the code.
abbrev pub code_to_str : RegistryTypes → ℕ → Text
code_to_str types c =
    if c == types.binary
    then codes "[BINARY]"
    else if c == types.registry.dword
    then codes "[DWORD]"
    else if c == types.registry.dword_big_endian
    then codes "[DWORD_BIG_ENDIAN]"
    else if c == types.registry.qword
    then codes "[QWORD]"
    else if c == types.registry.sz
    then codes "[SZ]"
    else if c == types.registry.expand_sz
    then codes "[EXPAND_SZ]"
    else if c == types.multi_sz
    then codes "[MULTI_SZ]"
    else if c == types.reg_none
    then codes "[NONE]"
    else codes "unsupported registry value type"

-- `UnexpectedRegistryData::fmt`.
abbrev pub unexpected_text : RegistryTypes → UnexpectedRegistryData → Text
unexpected_text types e =
    codes "Expected "
    ++ (code_to_str types e.expect ++ (codes ", found " ++ code_to_str types e.actual))

-- What windows_sys gives: a QWORD is of another type than those before it.
abbrev pub QwordDiffers : RegistryTypes → Type 0
QwordDiffers types =
    (types.registry.qword ≢ types.binary)
    × (types.registry.qword ≢ types.registry.dword)
    × (types.registry.qword ≢ types.registry.dword_big_endian)

-- Every QWORD is refused where a QWORD is asked for, however many bytes it has, and the text of the error
-- is that a QWORD was expected and a QWORD found.
pub try_into_u64-qword_text :
    (types : RegistryTypes) (bytes : List ℕ)
    → QwordDiffers types
    → map_err
        (unexpected_text types)
        (try_into_u64 (types.registry) (record { bytes = bytes; ty = types.registry.qword }))
      ≡ err (codes "Expected [QWORD], found [QWORD]")
unfolding try_into_u64
try_into_u64-qword_text types bytes d = ground arith
