-- ===== src/Service/Hkey.antt =====
-- crates/service/src/util/hkey.rs: registry values, what they are read as, and the iterator over the
-- values of a key. What `RegEnumValueW` answers is a parameter.
pub mod Owned
pub mod Text
pub mod Values
use msft.Service.Wchar.{OsString, from_wide, units}
use msft.Prelude.{
  ℕ, zero, suc, ◌+◌, ◌*◌, Bool, ◌&&◌, ◌||◌, List, [], ◌∷◌, Option, none, some, Result, ok, err,
  Faulty, ◌==◌, if◌then◌else◌, length, and_then, ok_or, ◌>>=◌,
}

pub record RegistryData : Type 0 where
  pub bytes : List ℕ
  pub ty : ℕ

pub record UnexpectedRegistryData : Type 0 where
  pub expect : ℕ
  pub actual : ℕ
  pub bytes : List ℕ

-- The registry value types of windows_sys that the code tells apart.
pub record RegistryCodes : Type 0 where
  pub dword : ℕ
  pub dword_big_endian : ℕ
  pub qword : ℕ
  pub sz : ℕ
  pub expand_sz : ℕ

-- `UnexpectedRegistryData::into_registry_data`.
abbrev pub into_registry_data : UnexpectedRegistryData → RegistryData
into_registry_data e = record { bytes = e.bytes; ty = e.actual }

-- `from_le_bytes` and `from_be_bytes`.
abbrev pub from_le_bytes : List ℕ → ℕ
from_le_bytes [] = 0
from_le_bytes (b ∷ bs) = b + 256 * from_le_bytes bs

abbrev pub from_be_digits : ℕ → List ℕ → ℕ
from_be_digits acc [] = acc
from_be_digits acc (b ∷ bs) = from_be_digits (256 * acc + b) bs

abbrev pub from_be_bytes : List ℕ → ℕ
from_be_bytes bs = from_be_digits 0 bs

module _ (codes : RegistryCodes) where
  unfoldable pub try_into_u32 : RegistryData → Result ℕ UnexpectedRegistryData
  try_into_u32 d =
      if d.ty == codes.dword && length d.bytes == 4
      then ok (from_le_bytes d.bytes)
      else if d.ty == codes.dword_big_endian && length d.bytes == 4
      then ok (from_be_bytes d.bytes)
      else err (record { expect = codes.dword; actual = d.ty; bytes = d.bytes })

  unfoldable pub try_into_u64 : RegistryData → Result ℕ UnexpectedRegistryData
  try_into_u64 d =
      if d.ty == codes.dword && length d.bytes == 8
      then ok (from_le_bytes d.bytes)
      else if d.ty == codes.dword_big_endian && length d.bytes == 8
      then ok (from_be_bytes d.bytes)
      else err (record { expect = codes.qword; actual = d.ty; bytes = d.bytes })

  abbrev string_of : Faulty OsString → Faulty (Result OsString UnexpectedRegistryData)
  string_of none = none
  string_of (some s) = some (ok s)

  -- The string ends at the first NUL; a read behind the bytes is a fault.
  unfoldable pub try_into_os_string : RegistryData → Faulty (Result OsString UnexpectedRegistryData)
  try_into_os_string d =
      if d.ty == codes.expand_sz || d.ty == codes.sz
      then string_of (from_wide (units d.bytes))
      else some (err (record { expect = codes.sz; actual = d.ty; bytes = d.bytes }))

  -- `todo!` is a fault.
  unfoldable pub try_into_expanded_os_string :
      RegistryData → Faulty (Result OsString UnexpectedRegistryData)
  try_into_expanded_os_string d =
      if d.ty == codes.sz
      then string_of (from_wide (units d.bytes))
      else if d.ty == codes.expand_sz
      then none
      else some (err (record { expect = codes.expand_sz; actual = d.ty; bytes = d.bytes }))

-- What `RegEnumValueW` answers for an index: a value's name, with the memory behind it, its type and its
-- bytes; or a failure.
abbrev pub Enumerated : Type 0
Enumerated = Option (List ℕ × RegistryData)

pub record HkeyValueIter : Type 0 where
  pub num_values : ℕ
  pub index : ℕ

-- An item: a value, or the code of `last_os_error`.
abbrev pub Item : Type 0
Item = Result (OsString × RegistryData) ℕ

abbrev named : RegistryData → Faulty OsString → Faulty (Option Item)
named d none = none
named d (some name) = some (some (ok (name, d)))

abbrev enumerated : ℕ → HkeyValueIter → Enumerated → HkeyValueIter × Faulty (Option Item)
enumerated last_os_error it none = (it, some (some (err last_os_error)))
enumerated last_os_error it (some v) =
    (record it { index = suc it.index }, named v.1 (from_wide v.0))

module _ (reg_enum_value : ℕ → Enumerated) (last_os_error : ℕ) where
  unfoldable pub next : HkeyValueIter → HkeyValueIter × Faulty (Option Item)
  next it =
      if it.index == it.num_values
      then (it, some none)
      else enumerated last_os_error it (reg_enum_value it.index)

  -- What `map(f).collect()` draws, up to the end, the first error or a fault, for as many calls of
  -- `next` as the fuel gives; `none` is a fault or no fuel.
  module _ {ℓ κ} {A : Type ℓ} {E : Type κ} (f : Item → Faulty (Result A E)) where
    abbrev pub collect_step :
        Faulty (Option Item) → Faulty (Result (List A) E) → Faulty (Result (List A) E)
    collect_step none rest = none
    collect_step (some none) rest = some (ok [])
    collect_step (some (some item)) rest =
        and_then (f item) (λ a. and_then rest (λ as'. some (ok (a ∷ as'))))

    abbrev pub collect_with : ℕ → HkeyValueIter → Faulty (Result (List A) E)
    collect_with zero it = none
    collect_with (suc fuel) it = collect_step (next it).1 (collect_with fuel (next it).0)

  abbrev pub collect : ℕ → HkeyValueIter → Faulty (Result (List (OsString × RegistryData)) ℕ)
  collect fuel it = collect_with (λ item. some item) fuel it

-- `HkeyInfo`, and what the kernel answers for one key: whether it opens, what `RegQueryInfoKeyW` says, the
-- values, and the code of a failure.
pub record HkeyInfo : Type 0 where
  pub num_subkeys : ℕ
  pub num_values : ℕ
  pub max_subkey_name_len : ℕ
  pub max_value_name_len : ℕ
  pub max_value_len : ℕ

pub record Key : Type 0 where
  pub opens : Bool
  pub query_info : Option HkeyInfo
  pub enum_value : ℕ → Enumerated
  pub last_os_error : ℕ

-- `open`, then `Hkey::info` and `Hkey::into_values`.
unfoldable pub open_key : Key → Result Key ℕ
open_key k = if k.opens then ok k else err k.last_os_error

abbrev pub info : Key → Result HkeyInfo ℕ
info k = ok_or k.last_os_error k.query_info

unfoldable pub into_values : Key → Result HkeyValueIter ℕ
into_values k = do i ← info k; ok (record { num_values = i.num_values; index = 0 })
