-- ===== src/Service/Window/Class.antt =====
-- crates/service/src/device.rs: the window class, which each thread of a listener registers first.
use msft.Prelude.{ℕ, ◌≡◌, ◌≢◌, Bool, true, Option, none, some, Faulty, ◌==◌, if◌then◌else◌, arith}

-- `RegisterClassExW`, with the class name of the code; 0 is a failure.
abbrev pub RegisterClass : Type 0 → Type 0
RegisterClass K = K → K × ℕ

-- What Win32 documents: a class that is registered cannot be registered again, and one that gets an atom
-- is registered from then on.
pub record ClassLaws {K : Type 0} (register_class : RegisterClass K) : Type 0 where
  pub class_registered : K → Bool
  pub again :
      (k : K)
      → class_registered k ≡ true
      → ((register_class k).1 ≡ 0) × (class_registered (register_class k).0 ≡ true)
  pub at_first : (k : K) → (register_class k).1 ≢ 0 → class_registered (register_class k).0 ≡ true

-- `OnceCell::get_or_init`: a cell that is filled is read, and `init` may panic.
abbrev get_or_init : {K : Type 0} → Option ℕ → (K → K × Faulty ℕ) → K → K × Faulty ℕ
get_or_init (some atom) init k = (k, some atom)
get_or_init none init k = init k

-- `WINDOW_CLASS_ATOM`: a `const`, so each use of it is a cell of its own, which is empty.
abbrev window_class_atom : Option ℕ
window_class_atom = none

abbrev panics_at_0 : {K : Type 0} → K × ℕ → K × Faulty ℕ
panics_at_0 (k, atom) = (k, if atom == 0 then none else some atom)

-- `get_window_class`; `none` is the panic.
unfoldable pub get_window_class : {K : Type 0} → RegisterClass K → K → K × Faulty ℕ
get_window_class register_class k =
    get_or_init window_class_atom (λ k'. panics_at_0 (register_class k')) k

module _ {K : Type 0} (register_class : RegisterClass K) (laws : ClassLaws register_class) where
  pub get_window_class-registered :
      (k : K)
      → (get_window_class register_class k).1 ≢ none
      → laws.class_registered (get_window_class register_class k).0 ≡ true
  unfolding get_window_class
  get_window_class-registered k h = ground (arith, laws.at_first k)

  pub get_window_class-again :
      (k : K) → laws.class_registered k ≡ true → (get_window_class register_class k).1 ≡ none
  unfolding get_window_class
  get_window_class-again k h = ground (arith, laws.again k h)
