-- ===== src/Service/Hkey/Values.antt =====
-- What the registry values of crates/service/src/util/hkey.rs are read as, and that iterating draws
-- every value once.
use msft.Service.Hkey.{
  RegistryData, UnexpectedRegistryData, RegistryCodes, into_registry_data, try_into_u32,
  try_into_u64, try_into_os_string, Enumerated, next, collect, Item, collect_with,
}
use native.Mathlib.Nat.{add-zero, add-suc, suc-add}
use msft.Service.Wchar.{OsString, HasNoNul, to_wide, from_wide-to_wide}
use msft.Prelude.{
  Faulty, Result, and_then, ◌∙◌, refl, ◌+◌, ℕ, ◌≡◌, ◌≢◌, List, [], ◌∷◌, some, err, arith, ◌⊎◌, ◌++◌,
  none, suc, ok, length,
}

-- The numbers of other widths and types are refused, and a refused value is given back as it was.
pub try_into-refused :
    (codes : RegistryCodes) (d : RegistryData) (e : UnexpectedRegistryData)
    → (try_into_u32 codes d ≡ err e)
      ⊎ (try_into_u64 codes d ≡ err e)
      ⊎ (try_into_os_string codes d ≡ some (err e))
    → into_registry_data e ≡ d
unfolding try_into_u32 try_into_u64 try_into_os_string
try_into-refused codes d e h = ground arith

-- Four bytes are the same number as a DWORD, the low byte first, and as a big-endian DWORD, the high
-- byte first.
pub try_into_u32_endian :
    (codes : RegistryCodes) (a b c d : ℕ)
    → codes.dword ≢ codes.dword_big_endian
    → try_into_u32 codes (record { bytes = a ∷ b ∷ c ∷ d ∷ []; ty = codes.dword })
      ≡ try_into_u32 codes (record { bytes = d ∷ c ∷ b ∷ a ∷ []; ty = codes.dword_big_endian })
unfolding try_into_u32
try_into_u32_endian codes a b c d h = ground arith

-- A QWORD is never read as a number of 64 bits, whatever its bytes.
pub try_into_u64-qword :
    (codes : RegistryCodes) (bytes : List ℕ)
    → codes.qword ≢ codes.dword
    → codes.qword ≢ codes.dword_big_endian
    → try_into_u64 codes (record { bytes = bytes; ty = codes.qword })
      ≡ err (record { expect = codes.qword; actual = codes.qword; bytes = bytes })
unfolding try_into_u64
try_into_u64-qword codes bytes h g = ground arith

-- From the index on, the kernel names these values, and no others are asked for.
abbrev pub Answers : (ℕ → Enumerated) → ℕ → List (OsString × RegistryData) → Type 0
Answers f i [] = Unit
Answers f i (v ∷ vs) = HasNoNul v.0 × (f i ≡ some (to_wide v.0 ++ [], v.1)) × Answers f (suc i) vs

next-value :
    (f : ℕ → Enumerated) (last i num : ℕ) (v : OsString × RegistryData)
    → HasNoNul v.0
    → f i ≡ some (to_wide v.0 ++ [], v.1)
    → i ≢ num
    → next f last (record { num_values = num; index = i })
      ≡ (record { num_values = num; index = suc i }, some (some (ok v)))
unfolding next
next-value f last i num v clean e h = ground (arith, from_wide-to_wide v.0 [] clean)

next-end :
    (f : ℕ → Enumerated) (last i : ℕ)
    → next f last (record { num_values = i; index = i })
      ≡ (record { num_values = i; index = i }, some none)
unfolding next
next-end f last i = ground arith

-- Going through the values, up to the first error or fault.
abbrev pub traverse {ℓ κ} :
    {A : Type ℓ} {E : Type κ}
    → (Item → Faulty (Result A E))
    → List (OsString × RegistryData)
    → Faulty (Result (List A) E)
traverse f [] = some (ok [])
traverse f (v ∷ vs) =
    and_then (f (ok v)) (λ a. and_then (traverse f vs) (λ as'. some (ok (a ∷ as'))))

pub collect_with-values {ℓ κ} :
    {A : Type ℓ} {E : Type κ} (g : Item → Faulty (Result A E)) (f : ℕ → Enumerated) (last i : ℕ)
    (vs : List (OsString × RegistryData))
    → Answers f i vs
    → collect_with f last g (suc (length vs)) (record { num_values = i + length vs; index = i })
      ≡ traverse g vs
collect_with-values g f last i [] a = rw (add-zero, next-end f last i) refl
collect_with-values g f last i (v ∷ vs) a =
    rw
      (
        add-suc,
        next-value f last i (suc (i + length vs)) v a.0 a.1 (omega arith),
        ← suc-add,
        collect_with-values g f last (suc i) vs a.2,
      )
      refl

traverse-same :
    (vs : List (OsString × RegistryData)) → traverse (λ item. some item) vs ≡ some (ok vs)
traverse-same [] = refl
traverse-same (v ∷ vs) = rw (traverse-same vs) refl

-- Where the kernel answers with as many values as the key was said to hold, each under a name that has
-- no NUL before its end, collecting the iterator takes one call for each value and one more, and gives
-- the values in order.
pub collect-values :
    (f : ℕ → Enumerated) (last i : ℕ) (vs : List (OsString × RegistryData))
    → Answers f i vs
    → collect f last (suc (length vs)) (record { num_values = i + length vs; index = i })
      ≡ some (ok vs)
collect-values f last i vs a =
    collect_with-values (λ item. some item) f last i vs a ∙ traverse-same vs
