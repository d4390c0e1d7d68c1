-- ===== src/Macros/Service.antt =====
-- crates/service-macros/src/service.rs: `find_arg` and `expand_service`.
pub mod Arguments
pub mod Main
pub mod Scope
use msft.Service.Guid.{bytes_eq}
use msft.Macros.Meta.{Meta, meta_of}
use msft.Prelude.{List, Option, Result, [], if◌then◌else◌, none, ok_or, some, ℕ, ◌>>=◌, ◌∷◌, ok}
use msft.Macros.Syntax.{
  Error, FnArg, Ident, ItemFn, LitStr, MetaNameValue, SynPath, err_missing_arg, fn_receiver,
  fn_typed, type_other, type_path,
}

abbrev pub stream_ident : Ident
stream_ident =
    b'S' ∷ b'e' ∷ b'r' ∷ b'v' ∷ b'i' ∷ b'c' ∷ b'e' ∷ b'M' ∷ b'e' ∷ b's' ∷ b's' ∷ b'a' ∷ b'g' ∷ b'e'
    ∷ b'S' ∷ b't' ∷ b'r' ∷ b'e' ∷ b'a' ∷ b'm' ∷ []

abbrev pub status_handle_ident : Ident
status_handle_ident =
    b'S' ∷ b't' ∷ b'a' ∷ b't' ∷ b'u' ∷ b's' ∷ b'H' ∷ b'a' ∷ b'n' ∷ b'd' ∷ b'l' ∷ b'e' ∷ []

abbrev pub arguments_ident : Ident
arguments_ident = b'A' ∷ b'r' ∷ b'g' ∷ b'u' ∷ b'm' ∷ b'e' ∷ b'n' ∷ b't' ∷ b's' ∷ []

-- The parameters of the function that is generated.
abbrev pub count_ident : Ident
count_ident =
    b'_' ∷ b'_' ∷ b'd' ∷ b'w' ∷ b'n' ∷ b'u' ∷ b'm' ∷ b's' ∷ b'e' ∷ b'r' ∷ b'v' ∷ b'i' ∷ b'c' ∷ b'e'
    ∷ b'a' ∷ b'r' ∷ b'g' ∷ b's' ∷ []

abbrev pub vectors_ident : Ident
vectors_ident =
    b'_' ∷ b'_' ∷ b'l' ∷ b'p' ∷ b's' ∷ b'e' ∷ b'r' ∷ b'v' ∷ b'i' ∷ b'c' ∷ b'e' ∷ b'a' ∷ b'r' ∷ b'g'
    ∷ b'v' ∷ b'e' ∷ b'c' ∷ b't' ∷ b'o' ∷ b'r' ∷ b's' ∷ []

abbrev pub last_segment : List Ident → Option Ident
last_segment [] = none
last_segment (i ∷ []) = some i
last_segment (i ∷ j ∷ is) = last_segment (j ∷ is)

abbrev pub if_named : Ident → ℕ → SynPath → Option Ident → Option (ℕ × SynPath)
if_named n pat p none = none
if_named n pat p (some i) = if bytes_eq i n then some (pat, p) else none

-- `make_find_function_argument(name)`: the pattern and the path of an argument whose type's last
-- segment is the name.
unfoldable pub find_function_argument : Ident → FnArg → Option (ℕ × SynPath)
find_function_argument n (fn_typed pat (type_path p)) = if_named n pat p (last_segment p.segments)
find_function_argument n (fn_typed pat (type_other t)) = none
find_function_argument n fn_receiver = none

abbrev pub or_next : Option (ℕ × SynPath) → Option (ℕ × SynPath) → Option (ℕ × SynPath)
or_next none rest = rest
or_next (some a) rest = some a

-- `find_map`.
abbrev pub find_map : Ident → List FnArg → Option (ℕ × SynPath)
find_map n [] = none
find_map n (a ∷ as') = or_next (find_function_argument n a) (find_map n as')

abbrev pub find_arg : Ident → ItemFn → Result (ℕ × SynPath) Error
find_arg n f = ok_or (err_missing_arg n) (find_map n f.inputs)

-- The number of a runtime's worker threads: the one that is given, or twice the number of processors.
pub data Workers : Type 0 where
  workers_given : ℕ → Workers
  workers_of_processors : Workers

-- The runtime that is built for an asynchronous function.
pub data TokioRuntime : Type 0 where
  multi_thread : Workers → TokioRuntime
  current_thread : TokioRuntime

abbrev workers_of : Option ℕ → Workers
workers_of (some n) = workers_given n
workers_of none = workers_of_processors

abbrev pub runtime_of : Meta → TokioRuntime
runtime_of m = if m.mt then multi_thread (workers_of m.worker_threads) else current_thread

-- The statements of the function that is generated.
pub data Stmt : Type 0 where
  -- `const SERVICE_NAME: *const u16 = windows_sys::w!(#name);`
  stmt_service_name : Option LitStr → Stmt
  -- `let #pat: #path = (0..#count).map(|i| .. #vectors.offset(i as isize) ..).collect();`
  stmt_arguments : (pat : ℕ) → SynPath → (count vectors : Ident) → Stmt
  -- `let #stream_pat: #stream_path = Default::default();`
  stmt_stream : (pat : ℕ) → SynPath → Stmt
  -- `let #status_handle_pat = match #status_handle_path::new(SERVICE_NAME, &#stream_pat) ..`
  stmt_handle : (pat : ℕ) → SynPath → (stream : ℕ) → Stmt
  -- The user's statements, in line or in `runtime.block_on(async move { .. })`.
  stmt_body : List ℕ → Stmt
  stmt_block_on : TokioRuntime → List ℕ → Stmt

-- `#vis unsafe extern "system" fn #ident (#params)`.
pub record ServiceFn : Type 0 where
  pub vis : ℕ
  pub ident : Ident
  pub params : List Ident
  pub stmts : List Stmt

abbrev body_of : ItemFn → TokioRuntime → Stmt
body_of f rt = if f.asyncness then stmt_block_on rt f.stmts else stmt_body f.stmts

abbrev pub service_fn : Meta → ItemFn → (stream handle args : ℕ × SynPath) → ServiceFn
service_fn m f stream handle args = record {
  vis = f.vis;
  ident = f.ident;
  params = count_ident ∷ vectors_ident ∷ [];
  stmts =
      stmt_service_name m.name
      ∷ stmt_arguments args.0 args.1 count_ident vectors_ident
      ∷ stmt_stream stream.0 stream.1
      ∷ stmt_handle handle.0 handle.1 stream.0
      ∷ body_of f (runtime_of m)
      ∷ [];
}

-- From what syn makes of the attribute's tokens and of the function's.
unfoldable pub expand_service :
    (SynPath → Option Ident)
    → Result (List MetaNameValue) Error
    → Result ItemFn Error
    → Result ServiceFn Error
expand_service get_ident attrs toks = do
  vs ← attrs
  f ← toks
  stream ← find_arg stream_ident f
  handle ← find_arg status_handle_ident f
  args ← find_arg arguments_ident f
  ok (service_fn (meta_of get_ident vs) f stream handle args)
