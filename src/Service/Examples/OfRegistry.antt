-- ===== src/Service/Examples/OfRegistry.antt =====
-- Concrete registry values (crates/service/src/util/hkey.rs).
use msft.Service.Hkey.{RegistryData, Enumerated, Item, Key, collect, next}
use msft.Service.Hkey.Owned.Closed
use msft.Service.Hkey.Owned.{
  reg_close_key, reg_enum_value, reg_open_key, reg_query_info_key, run_calls, values_calls,
}
use msft.Service.Hkey.Values
use msft.Service.Wchar.{OsString, from_wide, to_wide}
use msft.Prelude.{
  Faulty, Result, true, refl, false, ℕ, ◌≡◌, none, some, ok, [], ◌∷◌, ◌++◌, zero, suc, arith,
}

abbrev one_byte : RegistryData
one_byte = record { bytes = 9 ∷ []; ty = 4 }

abbrev ab : OsString
ab = b'a' ∷ b'b' ∷ []

-- A key with two values of one byte.
abbrev two_values : ℕ → Enumerated
two_values zero = some (to_wide ab ++ [], one_byte)
two_values (suc zero) = some (to_wide (b'c' ∷ []) ++ [], one_byte)
two_values (suc (suc n)) = none

collect-values_example :
    collect two_values 259 3 (record { num_values = 2; index = 0 })
    ≡ some (ok ((ab, one_byte) ∷ (b'c' ∷ [], one_byte) ∷ []))
collect-values_example =
    Values.collect-values two_values 259 0 ((ab, one_byte) ∷ (b'c' ∷ [], one_byte) ∷ [])
      (ground arith)

-- A key that says it has three values, of which the third is refused.
abbrev key : Key
key = record {
  opens = true;
  query_info = some (record {
    num_subkeys = 0;
    num_values = 3;
    max_subkey_name_len = 0;
    max_value_name_len = 2;
    max_value_len = 1;
  });
  enum_value = two_values;
  last_os_error = 259;
}

abbrev as_it_is : Item → Faulty (Result (OsString × RegistryData) ℕ)
as_it_is item = some item

values_calls-closed_example : run_calls true 3 (values_calls as_it_is key) false ≡ some false
values_calls-closed_example = Closed.values_calls-closed as_it_is key

-- The calls themselves: three values are asked for.
values_calls-three :
    values_calls as_it_is key
    ≡ reg_open_key
      ∷ reg_query_info_key
      ∷ reg_enum_value 0
      ∷ reg_enum_value 1
      ∷ reg_enum_value 2
      ∷ reg_close_key
      ∷ []
unfolding next to_wide from_wide
values_calls-three = refl
