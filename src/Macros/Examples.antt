-- ===== src/Macros/Examples.antt =====
-- Concrete uses of the macros of crates/service-macros, with the services of
-- crates/service/src/bin/service.rs.
use msft.Macros.Dispatcher.Table.{expand-started}
use msft.Macros.Service.Main
use msft.Macros.Service.Main.{Main}
use msft.Service.Wchar.{OsString}
use msft.Macros.Service.Scope.{
  bound_pat, bound_param, bound_service_name, compiled_fn, expand_service-compiled,
  expand_service-err,
}
use msft.Macros.Service.Arguments.{NotNamed, Takes, find_map-none}
use msft.Macros.Meta.{mt_ident, name_ident, worker_threads_ident, fold_meta}
use msft.Macros.Dispatcher.Reading.{pair_of, started, tuple_of}
use msft.Service.Guid.{bytes_eq}
use msft.Macros.Service.{
  count_ident, vectors_ident, arguments_ident, status_handle_ident, stream_ident, ServiceFn,
  expand_service, find_function_argument, multi_thread, workers_given,
}
use msft.Macros.Syntax.{
  Expr, Ident, ItemFn, MetaNameValue, SynPath, expr_lit, expr_other, fn_typed, lit_bool, lit_int,
  lit_str, type_path, FnArg,
}
use msft.Macros.Dispatcher.{Dispatcher, Service, expand_start_service_ctrl_dispatcher}
use msft.Prelude.{
  Bool, List, Option, [], if◌then◌else◌, leb, map, none, not, ok, refl, some, true, ℕ, ◌&&◌, ◌++◌,
  ◌-◌, ◌==◌, ◌∷◌, ◌≡◌,
}
use msft.Macros.Dispatcher.Table
use msft.Macros.Service.Scope

-- Upper case, and what an identifier is, for ASCII letters.
abbrev upper : List ℕ → List ℕ
upper [] = []
upper (c ∷ cs) = (if leb 97 c && leb c 122 then c - 32 else c) ∷ upper cs

abbrev no_hyphen : List ℕ → Bool
no_hyphen [] = true
no_hyphen (c ∷ cs) = not (c == 45) && no_hyphen cs

abbrev path_to : Ident → SynPath
path_to i = record { segments = i ∷ []; tokens = 0 }

-- "a b" and "c", run by `x` and `y`.
abbrev first_service : Service
first_service = record { name = b'a' ∷ b' ' ∷ b'b' ∷ []; service = path_to (b'x' ∷ []); attrs = [] }

abbrev second_service : Service
second_service = record { name = b'c' ∷ []; service = path_to (b'y' ∷ []); attrs = 5 ∷ [] }

abbrev two_tuples : List (Service × List Expr)
two_tuples = (first_service, []) ∷ (second_service, expr_other 7 ∷ []) ∷ []

expand-started_example :
    (d : Dispatcher) × (expand_start_service_ctrl_dispatcher upper no_hyphen
        (ok (map tuple_of two_tuples))
      ≡ some (ok d))
    × (started d ≡ some (pair_of first_service ∷ pair_of second_service ∷ []))
unfolding bytes_eq
expand-started_example = Table.expand-started upper no_hyphen two_tuples (refl, (refl, tt)) refl

-- `name = "c", mt = true, worker_threads = 3, name = 4`.
abbrev options : List MetaNameValue
options =
    (record { path = path_to name_ident; value = expr_lit (lit_str (b'c' ∷ [])) })
    ∷ (record { path = path_to mt_ident; value = expr_lit (lit_bool true) })
    ∷ (record { path = path_to worker_threads_ident; value = expr_lit (lit_int 3) })
    ∷ (record { path = path_to name_ident; value = expr_lit (lit_int 4) })
    ∷ []

abbrev one_segment : List Ident → Option Ident
one_segment (i ∷ []) = some i
one_segment is = none

abbrev ident_of : SynPath → Option Ident
ident_of p = one_segment p.segments

-- `async fn run(a: Arguments, h: StatusHandle, s: x::ServiceMessageStream)`.
abbrev stream_path : SynPath
stream_path = record { segments = (b'x' ∷ []) ∷ stream_ident ∷ []; tokens = 0 }

abbrev run : ItemFn
run = record {
  vis = 0;
  asyncness = true;
  ident = b'r' ∷ [];
  inputs =
      fn_typed 11 (type_path (path_to arguments_ident))
      ∷ fn_typed 12 (type_path (path_to status_handle_ident))
      ∷ fn_typed 13 (type_path stream_path)
      ∷ [];
  stmts = 21 ∷ 22 ∷ [];
}

-- What stands before each argument, and the function without its first one.
abbrev before_handle : List FnArg
before_handle = fn_typed 11 (type_path (path_to arguments_ident)) ∷ []

abbrev before_stream : List FnArg
before_stream = before_handle ++ (fn_typed 12 (type_path (path_to status_handle_ident)) ∷ [])

abbrev last_input : FnArg
last_input = fn_typed 13 (type_path stream_path)

no_stream_before : NotNamed stream_ident before_stream
unfolding find_function_argument bytes_eq
no_stream_before = find_map-none stream_ident before_stream refl

no_handle_before : NotNamed status_handle_ident before_handle
unfolding find_function_argument bytes_eq
no_handle_before = find_map-none status_handle_ident before_handle refl

stream_argument : Takes stream_ident run.inputs (13, stream_path)
stream_argument = record {
  before = before_stream;
  after = [];
  front = (b'x' ∷ []) ∷ [];
  stands = refl;
  ends = refl;
  is_first = no_stream_before;
}

handle_argument : Takes status_handle_ident run.inputs (12, path_to status_handle_ident)
handle_argument = record {
  before = before_handle;
  after = last_input ∷ [];
  front = [];
  stands = refl;
  ends = refl;
  is_first = no_handle_before;
}

list_argument : Takes arguments_ident run.inputs (11, path_to arguments_ident)
list_argument = record {
  before = [];
  after = fn_typed 12 (type_path (path_to status_handle_ident)) ∷ last_input ∷ [];
  front = [];
  stands = refl;
  ends = refl;
  is_first = tt;
}

expand_service-compiled_example :
    (g : ServiceFn) × (expand_service ident_of (ok options) (ok run) ≡ ok g)
    × (g.ident ≡ b'r' ∷ [])
    × (compiled_fn g
        ≡ some (
            (record {
              runtime = some (multi_thread (workers_given 3));
              stmts = 21 ∷ 22 ∷ [];
              scope =
                  bound_pat 12
                  ∷ bound_pat 13
                  ∷ bound_pat 11
                  ∷ bound_service_name
                  ∷ bound_param count_ident
                  ∷ bound_param vectors_ident
                  ∷ [];
            })
            ∷ []))
unfolding fold_meta bytes_eq
expand_service-compiled_example =
    Scope.expand_service-compiled ident_of options run (13, stream_path)
      (12, path_to status_handle_ident) (11, path_to arguments_ident) stream_argument
      handle_argument list_argument

abbrev lacking : ItemFn
lacking = record run { inputs = before_stream }

-- Called with one argument, on a system that gives the handle 9.
abbrev argument : OsString × List ℕ
argument = (b'o' ∷ b'k' ∷ [], 0 ∷ 7 ∷ [])
