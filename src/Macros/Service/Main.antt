-- ===== src/Macros/Service/Main.antt =====
-- What a function does that `expand_service` of crates/service-macros/src/service.rs generates, when the
-- service control manager calls it: with `from_wide` of crates/service/src/util/wchar.rs and
-- `StatusHandle::new` of crates/service/src/status.rs.
use msft.Macros.Meta.{Meta}
use msft.Service.Guid.{bytes_eq}
use msft.Service.Status.{StatusHandle, new}
use msft.Macros.Service.{
  ServiceFn, Stmt, TokioRuntime, stmt_arguments, stmt_block_on, stmt_body, stmt_handle,
  stmt_service_name, stmt_stream, runtime_of,
}
use msft.Service.Wchar.{OsString, from_wide, HasNoNul, to_wide}
use msft.Macros.Syntax.{LitStr, Ident, ItemFn}
use msft.Prelude.{
  Faulty, List, Option, Result, [], err, none, ok, some, ℕ, ◌∷◌, if◌then◌else◌, ◌++◌, Bool, false,
  ◌==◌, ◌&&◌,
}

-- The memory behind each of the argument pointers, read up to its NUL; `none` is a read behind it.
abbrev arguments_cons : Faulty OsString → Faulty (List OsString) → Faulty (List OsString)
arguments_cons none as' = none
arguments_cons (some a) none = none
arguments_cons (some a) (some as') = some (a ∷ as')

abbrev pub arguments_of : List (List ℕ) → Faulty (List OsString)
arguments_of [] = some []
arguments_of (p ∷ ps) = arguments_cons (from_wide p) (arguments_of ps)

-- The user's statements as they are run.
pub record Main : Type 0 where
  pub arguments : List OsString
  pub handle : StatusHandle
  pub runtime : Option TokioRuntime
  pub stmts : List ℕ

-- What the statements before have bound; a stream's state by its pattern, the latest first.
pub record Locals : Type 0 where
  pub params : List Ident
  pub streams : List (ℕ × ℕ)
  pub service_name : Option LitStr
  pub arguments : List OsString
  pub handle : Option StatusHandle

abbrev pub only_params : List Ident → Locals
only_params is = record {
  params = is;
  streams = [];
  service_name = none;
  arguments = [];
  handle = none;
}

abbrev state_of : List (ℕ × ℕ) → ℕ → Option ℕ
state_of [] pat = none
state_of (s ∷ ss) pat = if s.0 == pat then some s.1 else state_of ss pat

-- Whether the names are those of the first parameter and of the second.
abbrev are_params : List Ident → Ident → Ident → Bool
are_params (i ∷ j ∷ is) count vectors = bytes_eq i count && bytes_eq j vectors
are_params is count vectors = false

-- `state` is what the stream's `default` gives, `build` whether a runtime can be built, and `memory` what
-- the function's two parameters stand for.
module _ (pointer_of : LitStr → ℕ) (state : ℕ) (register : ℕ → ℕ → ℕ) (last_os_error : ℕ)
    (build : TokioRuntime → Result (Unit {0}) ℕ) (memory : List (List ℕ)) where
  abbrev user_stmts :
      List OsString → Option TokioRuntime → List ℕ → Option StatusHandle → Faulty Main
  user_stmts as' rt ss none = none
  user_stmts as' rt ss (some h) =
      some (record { arguments = as'; handle = h; runtime = rt; stmts = ss })

  -- `let runtime = #rt.block_on(..)`.
  abbrev blocked_on :
      Result (Unit {0}) ℕ
      → List OsString
      → TokioRuntime
      → List ℕ
      → Option StatusHandle
      → Faulty Main
  blocked_on (err e) as' rt ss h = none
  blocked_on (ok u) as' rt ss h = user_stmts as' (some rt) ss h

  abbrev registered_with : Option LitStr → Option ℕ → Faulty (Result StatusHandle ℕ)
  registered_with none s = none
  registered_with (some n) none = none
  registered_with (some n) (some s) = some (new register last_os_error (pointer_of n) s)

  -- The arguments that the two parameters stand for.
  abbrev passed : Bool → Faulty (List OsString)
  passed b = if b then arguments_of memory else none

  abbrev with_arguments : Locals → Faulty (List OsString) → Faulty Locals
  with_arguments l none = none
  with_arguments l (some as') = some (record l { arguments = as' })

  abbrev with_handle : Locals → Faulty (Result StatusHandle ℕ) → Faulty Locals
  with_handle l none = none
  with_handle l (some (err e)) = none
  with_handle l (some (ok h)) = some (record l { handle = some h })

  abbrev then_run : Faulty Locals → (Locals → Faulty Main) → Faulty Main
  then_run none k = none
  then_run (some l) k = k l

  abbrev run_from : Locals → List Stmt → Faulty Main
  run_from l [] = none
  run_from l (stmt_body ss ∷ rest) = user_stmts l.arguments none ss l.handle
  run_from l (stmt_block_on rt ss ∷ rest) = blocked_on (build rt) l.arguments rt ss l.handle
  run_from l (stmt_service_name n ∷ rest) = run_from (record l { service_name = n }) rest
  run_from l (stmt_stream pat p ∷ rest) =
      run_from (record l { streams = (pat, state) ∷ l.streams }) rest
  run_from l (stmt_arguments pat p count vectors ∷ rest) =
      then_run (with_arguments l (passed (are_params l.params count vectors)))
        (λ k. run_from k rest)
  run_from l (stmt_handle pat p s ∷ rest) =
      then_run (with_handle l (registered_with l.service_name (state_of l.streams s)))
        (λ k. run_from k rest)

  -- Statement by statement; `none` is a panic or a fault. Calling the function that is generated.
  abbrev pub call : ServiceFn → Faulty Main
  call g = run_from (only_params g.params) g.stmts

-- A service's arguments, each with what lies behind its NUL.
abbrev pub memory_of : List (OsString × List ℕ) → List (List ℕ)
memory_of [] = []
memory_of (a ∷ as') = (to_wide a.0 ++ a.1) ∷ memory_of as'

abbrev pub AllNoNul : List (OsString × List ℕ) → Type 0
AllNoNul [] = Unit
AllNoNul (a ∷ as') = HasNoNul a.0 × AllNoNul as'

-- The user's statements, once the handle is registered and an asynchronous function's runtime is built.
abbrev pub run_with : ItemFn → List OsString → StatusHandle → Option TokioRuntime → Main
run_with f as' h rt = record { arguments = as'; handle = h; runtime = rt; stmts = f.stmts }

abbrev pub run_in :
    Result (Unit {0}) ℕ → ItemFn → List OsString → StatusHandle → TokioRuntime → Faulty Main
run_in (err e) f as' h rt = none
run_in (ok u) f as' h rt = some (run_with f as' h (some rt))

abbrev pub main_with :
    (TokioRuntime → Result (Unit {0}) ℕ)
    → Meta
    → ItemFn
    → List OsString
    → Result StatusHandle ℕ
    → Faulty Main
main_with build m f as' (err e) = none
main_with build m f as' (ok h) =
    if f.asyncness
    then run_in (build (runtime_of m)) f as' h (runtime_of m)
    else some (run_with f as' h none)
