-- ===== src/Macros/Dispatcher/Reading.antt =====
-- How the code that `expand_start_service_ctrl_dispatcher` of crates/service-macros/src/service.rs
-- generates is compiled and run, and how its tuples are taken in.
use mathlib.Core.Option.{map as map_some}
use mathlib.Core.List.{append_assoc, append-nil}
use msft.Service.Ports.{contains}
use msft.Service.Guid.{bytes_eq}
use msft.Macros.Syntax.{
  Expr, ExprTuple, Ident, LitStr, SynPath, expr_lit, expr_path, lit_str, TuplePart, err_fold,
  part_name, part_service,
}
use msft.Macros.Dispatcher.{
  Const, Dispatcher, Entry, Service, TableToken, comma, fold, null_entry, separated, service_entry,
  try_fold,
}
use msft.Macros.Dispatcher.{item}
use msft.Prelude.{
  Bool, List, Option, [], arith, false, if◌then◌else◌, map, none, not, refl, some, true, ◌&&◌, ◌++◌,
  ◌∷◌, ◌≡◌, err,
}

-- An array expression: elements with commas between them, and one at the end if there is one.
abbrev pub elements : List TableToken → Option (List Entry)
elements [] = some []
elements (comma ∷ ts) = none
elements (item e ∷ []) = some (e ∷ [])
elements (item e ∷ comma ∷ ts) = map_some (λ es. e ∷ es) (elements ts)
elements (item e ∷ item f ∷ ts) = none

-- No constant is defined twice.
abbrev pub distinct : List Const → Bool
distinct [] = true
distinct (c ∷ cs) = not (contains (map (λ d. d.ident) cs) c.ident) && distinct cs

abbrev pub value_of : List Const → Ident → Option LitStr
value_of [] i = none
value_of (c ∷ cs) i = let rest = value_of cs i in if bytes_eq c.ident i then some c.value else rest

abbrev pub with_service :
    Option LitStr → SynPath → Option (List (LitStr × SynPath)) → Option (List (LitStr × SynPath))
with_service none p rest = none
with_service (some n) p none = none
with_service (some n) p (some rest) = some ((n, p) ∷ rest)

-- `StartServiceCtrlDispatcherW` reads entries up to the null entry; without one it reads behind the table.
abbrev pub read_table : List Const → List Entry → Option (List (LitStr × SynPath))
read_table cs [] = none
read_table cs (null_entry ∷ es) = some []
read_table cs (service_entry i p ∷ es) = with_service (value_of cs i) p (read_table cs es)

-- The services that the generated code starts, and `none` where it does not compile.
abbrev pub started : Dispatcher → Option (List (LitStr × SynPath))
started d =
    if distinct d.names
    then elim (elements d.table) [ none ↦ none | some es ↦ read_table d.names es ]
    else none

-- The services of the macro's tuples. What stands behind a tuple's name and service is passed over.
abbrev pub pair_of : Service → LitStr × SynPath
pair_of s = (s.name, s.service)

abbrev pub tuple_of : Service × List Expr → ExprTuple
tuple_of t = record {
  elems = expr_lit (lit_str t.0.name) ∷ expr_path t.0.service ∷ t.1;
  attrs = t.0.attrs;
}

abbrev pub services_of : List (Service × List Expr) → List Service
services_of ts = map (λ t. t.0) ts

pub try_fold-tuple_of :
    (vec : List Service) (ts : List (Service × List Expr)) (rest : List ExprTuple)
    → try_fold vec (map tuple_of ts ++ rest) ≡ try_fold (vec ++ services_of ts) rest
unfolding fold
try_fold-tuple_of vec [] rest = rw (append-nil vec) refl
try_fold-tuple_of vec (t ∷ ts) rest =
    rw (try_fold-tuple_of (vec ++ (t.0 ∷ [])) ts rest, append_assoc vec (t.0 ∷ []) (services_of ts))
      refl

pub elements-separated :
    (e : Entry) (es : List Entry) (f : Entry)
    → elements (separated (e ∷ es) ++ (comma ∷ item f ∷ [])) ≡ some (e ∷ (es ++ (f ∷ [])))
elements-separated e [] f = refl
elements-separated e (g ∷ es) f = rw (elements-separated g es f) refl

abbrev pub is_empty {ℓ} : {A : Type ℓ} → List A → Bool
is_empty [] = true
is_empty (a ∷ as') = false

pub is_empty-services_of :
    (ts : List (Service × List Expr)) → is_empty (services_of ts) ≡ is_empty ts
is_empty-services_of [] = refl
is_empty-services_of (t ∷ ts) = refl

-- The part that a tuple misses: a string first, and a path behind it.
abbrev pub missing : List Expr → Option TuplePart
missing (expr_lit (lit_str s) ∷ expr_path p ∷ es) = none
missing (expr_lit (lit_str s) ∷ es) = some part_service
missing es = some part_name

pub fold-missing :
    (vec : List Service) (bad : ExprTuple) (part : TuplePart)
    → missing bad.elems ≡ some part
    → fold vec bad ≡ err (err_fold part)
unfolding fold
fold-missing vec bad part h = ground arith
