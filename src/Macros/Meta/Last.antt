-- ===== src/Macros/Meta/Last.antt =====
-- What the options of the attribute `service` of crates/service-macros/src/service.rs come to.
use msft.Service.Guid.{bytes_eq, bytes_eq_iff}
use msft.Macros.Meta.{
  Meta, default_meta, fold_meta, folded, meta_of, mt_ident, name_ident, worker_threads_ident,
  match_mt, match_ident, match_name, match_worker_threads,
}
use msft.Macros.Syntax.{
  Expr, Ident, LitStr, MetaNameValue, SynPath, expr_lit, lit_bool, lit_int, lit_str, expr_other,
  expr_path, lit_other,
}
use msft.Prelude.{
  Bool, List, Option, [], arith, false, if◌then◌else◌, none, refl, some, ℕ, ◌∷◌, ◌≡◌, Bool-cases,
  inl, inr,
}

-- What a value is, of the kind that an option takes.
abbrev pub str_value : Expr → Option LitStr
str_value (expr_lit (lit_str s)) = some s
str_value e = none

abbrev pub int_value : Expr → Option ℕ
int_value (expr_lit (lit_int i)) = some i
int_value e = none

abbrev pub bool_value : Expr → Option Bool
bool_value (expr_lit (lit_bool b)) = some b
bool_value e = none

module _ {ℓ} {A : Type ℓ} where
  abbrev under : Ident → Option Ident → Option A → Option A
  under i none a = none
  under i (some j) a = if bytes_eq j i then a else none

  abbrev or_else : Option A → Option A → Option A
  or_else none b = b
  or_else (some a) b = some a

  abbrev pub or_default : A → Option A → A
  or_default a none = a
  or_default a (some b) = b

pub or_else_assoc {ℓ} :
    {A : Type ℓ} (x y z : Option A) → or_else x (or_else y z) ≡ or_else (or_else x y) z
or_else_assoc none y z = refl
or_else_assoc (some a) y z = refl

pub or_default-or_else {ℓ} :
    {A : Type ℓ} (a : A) (x y : Option A)
    → or_default (or_default a y) x ≡ or_default a (or_else x y)
or_default-or_else a none y = refl
or_default-or_else a (some b) y = refl

match_name-keeps :
    (m : Meta) (e : Expr)
    → ((match_name m e).mt ≡ m.mt) × ((match_name m e).worker_threads ≡ m.worker_threads)
match_name-keeps m e = ground arith

match_mt-value :
    (m : Meta) (e : Expr)
    → ((match_mt m e).mt ≡ or_default m.mt (bool_value e))
      × ((match_mt m e).worker_threads ≡ m.worker_threads)
match_mt-value m (expr_lit (lit_str s)) = (refl, refl)
match_mt-value m (expr_lit (lit_int i)) = (refl, refl)
match_mt-value m (expr_lit (lit_bool b)) = (refl, refl)
match_mt-value m (expr_lit (lit_other o)) = (refl, refl)
match_mt-value m (expr_path p) = (refl, refl)
match_mt-value m (expr_other o) = (refl, refl)

match_worker_threads-value :
    (m : Meta) (e : Expr)
    → ((match_worker_threads m e).mt ≡ m.mt)
      × ((match_worker_threads m e).worker_threads ≡ or_else (int_value e) m.worker_threads)
match_worker_threads-value m (expr_lit (lit_str s)) = (refl, refl)
match_worker_threads-value m (expr_lit (lit_int i)) = (refl, refl)
match_worker_threads-value m (expr_lit (lit_bool b)) = (refl, refl)
match_worker_threads-value m (expr_lit (lit_other o)) = (refl, refl)
match_worker_threads-value m (expr_path p) = (refl, refl)
match_worker_threads-value m (expr_other o) = (refl, refl)

idents_differ :
    (bytes_eq name_ident mt_ident ≡ false)
    × (bytes_eq name_ident worker_threads_ident ≡ false)
    × (bytes_eq mt_ident worker_threads_ident ≡ false)
unfolding bytes_eq
idents_differ = (refl, refl, refl)

module _ (get_ident : SynPath → Option Ident) where
  match_ident-keeps :
      (m : Meta) (e : Expr) (o : Option Ident)
      → ((match_ident get_ident m e o).mt ≡ or_default m.mt (under mt_ident o (bool_value e)))
        × ((match_ident get_ident m e o).worker_threads
            ≡ or_else (under worker_threads_ident o (int_value e)) m.worker_threads)
  match_ident-keeps m e none = (refl, refl)
  match_ident-keeps m e (some i) = elim (Bool-cases (bytes_eq i name_ident)) [
    | inl h ↦
        rw (h, (bytes_eq_iff i name_ident).0 h, idents_differ.0, idents_differ.1)
          (match_name-keeps m e)
    | inr h ↦ elim (Bool-cases (bytes_eq i mt_ident)) [
      | inl k ↦ rw (h, k, (bytes_eq_iff i mt_ident).0 k, idents_differ.2) (match_mt-value m e)
      | inr k ↦ elim (Bool-cases (bytes_eq i worker_threads_ident)) [
        | inl l ↦ rw (h, k, l) (match_worker_threads-value m e)
        | inr l ↦ rw (h, k, l) (refl, refl)
      ]
    ]
  ]

  -- The last value under the identifier of the kind it takes.
  abbrev pub last_value {ℓ} :
      {A : Type ℓ} → Ident → (Expr → Option A) → List MetaNameValue → Option A
  last_value i f [] = none
  last_value i f (v ∷ vs) = or_else (last_value i f vs) (under i (get_ident v.path) (f v.value))

  folded-name :
      (m : Meta) (vs : List MetaNameValue)
      → (folded get_ident m vs).name ≡ or_else (last_value name_ident str_value vs) m.name
  unfolding fold_meta
  folded-name m [] = refl
  folded-name m (v ∷ vs) = ground (arith, folded-name (fold_meta get_ident m v) vs)

  folded-worker_threads :
      (m : Meta) (vs : List MetaNameValue)
      → (folded get_ident m vs).worker_threads
        ≡ or_else (last_value worker_threads_ident int_value vs) m.worker_threads
  unfolding fold_meta
  folded-worker_threads m [] = refl
  folded-worker_threads m (v ∷ vs) =
      rw
        (
          folded-worker_threads (fold_meta get_ident m v) vs,
          (match_ident-keeps m v.value (get_ident v.path)).1,
        )
        (or_else_assoc (last_value worker_threads_ident int_value vs)
          (under worker_threads_ident (get_ident v.path) (int_value v.value)) m.worker_threads)

  folded-mt :
      (m : Meta) (vs : List MetaNameValue)
      → (folded get_ident m vs).mt ≡ or_default m.mt (last_value mt_ident bool_value vs)
  unfolding fold_meta
  folded-mt m [] = refl
  folded-mt m (v ∷ vs) =
      rw
        (folded-mt (fold_meta get_ident m v) vs, (match_ident-keeps m v.value (get_ident v.path)).0)
        (or_default-or_else m.mt (last_value mt_ident bool_value vs)
          (under mt_ident (get_ident v.path) (bool_value v.value)))

  -- Each option is the last value that its name has of the kind it takes; values of other kinds, and other
  -- names, are passed over; and without a value there is no name, no number of threads, and one thread.
  pub meta_of-last_value :
      (vs : List MetaNameValue)
      → meta_of get_ident vs ≡ (record {
        name = last_value name_ident str_value vs;
        worker_threads = last_value worker_threads_ident int_value vs;
        mt = or_default false (last_value mt_ident bool_value vs);
      })
  meta_of-last_value vs = grind (
    arith,
    folded-name default_meta vs,
    folded-worker_threads default_meta vs,
    folded-mt default_meta vs,
  )
