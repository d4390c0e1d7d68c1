-- ===== src/Macros/Service/Scope.antt =====
-- The function that `expand_service` of crates/service-macros/src/service.rs generates: what is in
-- scope where its statements stand, and what the user's statements run in.
use msft.Service.Guid.{bytes_eq}
use msft.Macros.Meta.{meta_of, name_ident, Meta}
use msft.Macros.Meta.Last.{last_value, str_value, meta_of-last_value}
use msft.Macros.Service.{
  ServiceFn, Stmt, TokioRuntime, arguments_ident, expand_service, runtime_of, status_handle_ident,
  count_ident, vectors_ident, stmt_arguments, stmt_block_on, stmt_body, stmt_handle,
  stmt_service_name, stmt_stream, stream_ident, find_arg, service_fn,
}
use msft.Macros.Service.Arguments.{NotNamed, Takes, find_arg-Takes, find_arg-cases, found-NotNamed}
use msft.Macros.Syntax.{Ident, ItemFn, MetaNameValue, SynPath, err_missing_arg}
use msft.Prelude.{
  Bool, List, Option, [], err, false, if◌then◌else◌, none, ok, refl, some, true, ℕ, ◌&&◌, ◌==◌,
  ◌||◌, ◌∷◌, ◌≡◌, ◌⊎◌, arith, inl, inr, ap,
}

-- What a local name can stand for: the constant `SERVICE_NAME`, a parameter of the function, or a pattern
-- that is bound.
pub data Bound : Type 0 where
  bound_service_name : Bound
  bound_pat : ℕ → Bound
  bound_param : Ident → Bound

abbrev same_bound : Bound → Bound → Bool
same_bound bound_service_name bound_service_name = true
same_bound (bound_pat p) (bound_pat q) = p == q
same_bound (bound_param i) (bound_param j) = bytes_eq i j
same_bound b c = false

abbrev in_scope : List Bound → Bound → Bool
in_scope [] b = false
in_scope (c ∷ cs) b = same_bound c b || in_scope cs b

-- The user's statements as they are run: in a runtime or not, and with what is bound there.
pub record Run : Type 0 where
  pub runtime : Option TokioRuntime
  pub stmts : List ℕ
  pub scope : List Bound

abbrev pub checked : Bool → Option (List Run) → Option (List Run)
checked b rs = if b then rs else none

abbrev with_run : Run → Option (List Run) → Option (List Run)
with_run r none = none
with_run r (some rs) = some (r ∷ rs)

-- Compiling the statements one after the other: `none` where one names a local that is not in scope; and
-- else what of the user's they run.
abbrev pub compiled : List Bound → List Stmt → Option (List Run)
compiled scope [] = some []
compiled scope (stmt_service_name none ∷ rest) = none
compiled scope (stmt_service_name (some n) ∷ rest) = compiled (bound_service_name ∷ scope) rest
compiled scope (stmt_arguments pat p count vectors ∷ rest) =
    checked (in_scope scope (bound_param count) && in_scope scope (bound_param vectors))
      (compiled (bound_pat pat ∷ scope) rest)
compiled scope (stmt_stream pat p ∷ rest) = compiled (bound_pat pat ∷ scope) rest
compiled scope (stmt_handle pat p stream ∷ rest) =
    checked (in_scope scope bound_service_name && in_scope scope (bound_pat stream))
      (compiled (bound_pat pat ∷ scope) rest)
compiled scope (stmt_body ss ∷ rest) =
    with_run (record { runtime = none; stmts = ss; scope = scope }) (compiled scope rest)
compiled scope (stmt_block_on rt ss ∷ rest) =
    with_run (record { runtime = some rt; stmts = ss; scope = scope }) (compiled scope rest)

-- The function's body, in the scope of its parameters.
abbrev pub params_of : List Ident → List Bound
params_of [] = []
params_of (i ∷ is) = bound_param i ∷ params_of is

abbrev pub compiled_fn : ServiceFn → Option (List Run)
compiled_fn g = compiled (params_of g.params) g.stmts

abbrev pub has_value {ℓ} : {A : Type ℓ} → Option A → Bool
has_value none = false
has_value (some a) = true

abbrev pub the_run : Meta → ItemFn → (stream handle args : ℕ × SynPath) → Run
the_run m f stream handle args = record {
  runtime = if f.asyncness then some (runtime_of m) else none;
  stmts = f.stmts;
  scope =
      bound_pat handle.0
      ∷ bound_pat stream.0
      ∷ bound_pat args.0
      ∷ bound_service_name
      ∷ bound_param count_ident
      ∷ bound_param vectors_ident
      ∷ [];
}

params_in_scope :
    in_scope (params_of (count_ident ∷ vectors_ident ∷ [])) (bound_param count_ident)
      && in_scope (params_of (count_ident ∷ vectors_ident ∷ [])) (bound_param vectors_ident)
    ≡ true
unfolding bytes_eq
params_in_scope = refl

compiled_fn-service_fn :
    (get_ident : SynPath → Option Ident) (vs : List MetaNameValue) (f : ItemFn)
    (stream handle args : ℕ × SynPath)
    → compiled_fn (service_fn (meta_of get_ident vs) f stream handle args)
      ≡ checked
          (has_value (last_value get_ident name_ident str_value vs))
          (some (the_run (meta_of get_ident vs) f stream handle args ∷ []))
compiled_fn-service_fn get_ident vs f stream handle args =
    let m = meta_of get_ident vs in
    let nl : m.name ≡ last_value get_ident name_ident str_value vs =
      ap (λ x. x.name) (meta_of-last_value get_ident vs) in
    let ps = params_in_scope in rw (← nl) (ground arith)

-- A function with an argument of each kind is expanded, and keeps its name. Where the attribute gives
-- the service's name, every local that the generated statements name is in scope (the two parameters,
-- the constant `SERVICE_NAME` and the stream), and the user's statements run once, with the three
-- arguments' own patterns in scope; an asynchronous function's in a runtime, with the
-- worker threads that the attribute asks for. Without the service's name, the result does not compile.
pub expand_service-compiled :
    (get_ident : SynPath → Option Ident) (vs : List MetaNameValue) (f : ItemFn)
    (stream handle args : ℕ × SynPath)
    → Takes stream_ident f.inputs stream
    → Takes status_handle_ident f.inputs handle
    → Takes arguments_ident f.inputs args
    → (g : ServiceFn) × (expand_service get_ident (ok vs) (ok f) ≡ ok g)
      × (g.ident ≡ f.ident)
      × (compiled_fn g
          ≡ checked
              (has_value (last_value get_ident name_ident str_value vs))
              (some (the_run (meta_of get_ident vs) f stream handle args ∷ [])))
unfolding expand_service
expand_service-compiled get_ident vs f stream handle args s h a = (
  service_fn (meta_of get_ident vs) f stream handle args,
  rw
      (
        find_arg-Takes stream_ident f stream s,
        find_arg-Takes status_handle_ident f handle h,
        find_arg-Takes arguments_ident f args a,
      )
      refl,
  refl,
  compiled_fn-service_fn get_ident vs f stream handle args,
)

all_found :
    (f : ItemFn) (n : Ident)
    → ((a : ℕ × SynPath) × (find_arg stream_ident f ≡ ok a))
    → ((a : ℕ × SynPath) × (find_arg status_handle_ident f ≡ ok a))
    → ((a : ℕ × SynPath) × (find_arg arguments_ident f ≡ ok a))
    → (n ≡ stream_ident) ⊎ ((n ≡ status_handle_ident) ⊎ (n ≡ arguments_ident))
    → NotNamed n f.inputs
    → ⊥
all_found f n s h a which lacks = elim which [
  | inl e ↦ found-NotNamed n f s.0 (rw e s.1) lacks
  | inr (inl e) ↦ found-NotNamed n f h.0 (rw e h.1) lacks
  | inr (inr e) ↦ found-NotNamed n f a.0 (rw e a.1) lacks
]

-- A function that lacks one of the three arguments, or more, is refused, and the error names one that
-- it lacks.
pub expand_service-err :
    (get_ident : SynPath → Option Ident) (vs : List MetaNameValue) (f : ItemFn) (n : Ident)
    → (n ≡ stream_ident) ⊎ ((n ≡ status_handle_ident) ⊎ (n ≡ arguments_ident))
    → NotNamed n f.inputs
    → (m : Ident) × (expand_service get_ident (ok vs) (ok f) ≡ err (err_missing_arg m))
      × NotNamed m f.inputs
unfolding expand_service
expand_service-err get_ident vs f n which lacks = elim (find_arg-cases stream_ident f) [
  | inl (e, none_named) ↦ (stream_ident, rw e refl, none_named)
  | inr (s, es) ↦ elim (find_arg-cases status_handle_ident f) [
    | inl (e, none_named) ↦ (status_handle_ident, rw (es, e) refl, none_named)
    | inr (h, eh) ↦ elim (find_arg-cases arguments_ident f) [
      | inl (e, none_named) ↦ (arguments_ident, rw (es, eh, e) refl, none_named)
      | inr (a, ea) ↦ elim (all_found f n (s, es) (h, eh) (a, ea) which lacks) [ ]
    ]
  ]
]
