-- ===== src/Service/Guid.antt =====
-- crates/service/src/util/guid.rs: `Guid`, its creation and its equality.
use msft.Service.Wchar.{OsString, to_wide}
use msft.Prelude.{
  ℕ, ◌≡◌, ◌↔◌, Bool, true, false, ◌&&◌, List, [], ◌∷◌, arith, ◌==◌, Faulty, Result, err,
  if◌then◌else◌, none, ok, some,
}

pub record Guid : Type 0 where
  pub data1 : ℕ
  pub data2 : ℕ
  pub data3 : ℕ
  pub data4 : List ℕ

-- The arm of `guid!` that takes the last eight bytes as one array, and the one that takes each.
abbrev pub guid : (a b c : ℕ) → (d : List ℕ) → Guid
guid a b c d = record { data1 = a; data2 = b; data3 = c; data4 = d }

abbrev pub guid_of_bytes : (a b c d0 d1 d2 d3 d4 d5 d6 d7 : ℕ) → Guid
guid_of_bytes a b c d0 d1 d2 d3 d4 d5 d6 d7 = record {
  data1 = a;
  data2 = b;
  data3 = c;
  data4 = d0 ∷ d1 ∷ d2 ∷ d3 ∷ d4 ∷ d5 ∷ d6 ∷ d7 ∷ [];
}

-- `InvalidUuidString`, which holds the wide text.
abbrev pub InvalidUuidString : Type 0
InvalidUuidString = List ℕ

-- What `UuidFromStringW` answers for a text: a code, and the GUID that it leaves behind.
abbrev pub UuidFromString : Type 0
UuidFromString = (text : List ℕ) → Guid → ℕ × Guid

abbrev unless_invalid : ℕ → List ℕ → ℕ × Guid → Result Guid InvalidUuidString
unless_invalid invalid uuid (code, me) = if code == invalid then err uuid else ok me

-- `Guid::new`; `invalid` is `RPC_S_INVALID_STRING_UUID`.
unfoldable pub new_guid : UuidFromString → (invalid : ℕ) → OsString → Result Guid InvalidUuidString
new_guid uuid_from_string invalid s =
    unless_invalid invalid (to_wide s)
      (uuid_from_string (to_wide s) (guid 0 0 0 (0 ∷ 0 ∷ 0 ∷ 0 ∷ 0 ∷ 0 ∷ 0 ∷ 0 ∷ [])))

abbrev expected : Result Guid InvalidUuidString → Faulty Guid
expected (ok g) = some g
expected (err e) = none

-- The function `new`, which panics where `Guid::new` fails.
unfoldable pub new : UuidFromString → (invalid : ℕ) → OsString → Faulty Guid
unfolding new_guid
new uuid_from_string invalid s = expected (new_guid uuid_from_string invalid s)

-- `==` of the byte arrays.
unfoldable pub bytes_eq : List ℕ → List ℕ → Bool
bytes_eq [] [] = true
bytes_eq (a ∷ as') (b ∷ bs) = a == b && bytes_eq as' bs
bytes_eq _ _ = false

-- `PartialEq::eq`.
unfoldable pub eq : Guid → Guid → Bool
eq a b = a.data1 == b.data1 && a.data2 == b.data2 && a.data3 == b.data3 && bytes_eq a.data4 b.data4

pub bytes_eq_iff : (a b : List ℕ) → (bytes_eq a b ≡ true) ↔ (a ≡ b)
unfolding bytes_eq
bytes_eq_iff [] [] = ground arith
bytes_eq_iff [] (b ∷ bs) = ground arith
bytes_eq_iff (a ∷ as') [] = ground arith
bytes_eq_iff (a ∷ as') (b ∷ bs) = ground (arith, bytes_eq_iff as' bs)

-- Two GUIDs compare equal exactly when they are the same.
pub eq_iff : (a b : Guid) → (eq a b ≡ true) ↔ (a ≡ b)
unfolding eq
eq_iff a b = ground (arith, bytes_eq_iff a.data4 b.data4)
