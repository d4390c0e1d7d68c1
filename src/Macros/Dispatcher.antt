-- ===== src/Macros/Dispatcher.antt =====
-- crates/service-macros/src/service.rs: `fold` and `expand_start_service_ctrl_dispatcher`. Upper case and
-- what an identifier is are Unicode's, and parameters.
pub mod Reading
pub mod Table
use mathlib.Core.Option.{map as map_some}
use msft.Macros.Syntax.{
  Error, Expr, ExprTuple, Ident, LitStr, SynPath, err_fold, expr_lit, expr_path, lit_str, part_name,
  part_service,
}
use msft.Prelude.{
  Bool, Faulty, List, Option, [], err, if◌then◌else◌, map, none, some, ℕ, ◌++◌, ◌==◌, ◌>>=◌, ◌∷◌,
  Result, ok,
}

-- `struct Service`.
pub record Service : Type 0 where
  pub name : LitStr
  pub service : SynPath
  pub attrs : List ℕ

abbrev name_of : List Expr → Result LitStr Error
name_of (expr_lit (lit_str s) ∷ es) = ok s
name_of es = err (err_fold part_name)

abbrev service_of : List Expr → Result SynPath Error
service_of (expr_path p ∷ es) = ok p
service_of es = err (err_fold part_service)

abbrev behind : List Expr → List Expr
behind [] = []
behind (e ∷ es) = es

unfoldable pub fold : List Service → ExprTuple → Result (List Service) Error
fold vec t = do
  n ← name_of t.elems
  s ← service_of (behind t.elems)
  ok (vec ++ (record { name = n; service = s; attrs = t.attrs } ∷ []))

-- `try_fold`.
abbrev pub try_fold : List Service → List ExprTuple → Result (List Service) Error
try_fold vec [] = ok vec
try_fold vec (t ∷ ts) = fold vec t >>= λ v. try_fold v ts

-- What the macro generates: a constant for each name; the tokens of the table, with an entry of null
-- pointers at its end; and the call of the dispatcher, which does not vary.
pub record Const : Type 0 where
  pub attrs : List ℕ
  pub ident : Ident
  pub value : LitStr

pub data Entry : Type 0 where
  service_entry : (name : Ident) (proc : SynPath) → Entry
  null_entry : Entry

pub data TableToken : Type 0 where
  item : Entry → TableToken
  comma : TableToken

pub record Dispatcher : Type 0 where
  pub names : List Const
  pub table : List TableToken

-- `replace(" ", "_")`.
abbrev pub replace_spaces : List ℕ → List ℕ
replace_spaces [] = []
replace_spaces (c ∷ cs) = (if c == b' ' then b'_' else c) ∷ replace_spaces cs

-- `#(#items),*`.
abbrev pub separated : List Entry → List TableToken
separated [] = []
separated (e ∷ []) = item e ∷ []
separated (e ∷ f ∷ es) = item e ∷ comma ∷ separated (f ∷ es)

module _ (to_uppercase : List ℕ → List ℕ) (is_ident : Ident → Bool) where
  abbrev pub service_ident : LitStr → Ident
  service_ident n =
      b'S' ∷ b'E' ∷ b'R' ∷ b'V' ∷ b'I' ∷ b'C' ∷ b'E' ∷ b'_' ∷ replace_spaces (to_uppercase n)

  -- `format_ident!` panics on what is no identifier.
  unfoldable pub format_ident : LitStr → Faulty Ident
  format_ident n = if is_ident (service_ident n) then some (service_ident n) else none

  abbrev pub name_item : Service → Faulty Ident → Faulty Const
  name_item s none = none
  name_item s (some i) = some (record { attrs = s.attrs; ident = i; value = s.name })

  abbrev pub table_item : Service → Faulty Ident → Faulty Entry
  table_item s none = none
  table_item s (some i) = some (service_entry i s.service)

  -- `map`, of a closure that can panic.
  abbrev then_rest {ℓ} : {A : Type ℓ} → Faulty A → Faulty (List A) → Faulty (List A)
  then_rest none as' = none
  then_rest (some a) none = none
  then_rest (some a) (some as') = some (a ∷ as')

  abbrev pub rendered {ℓ} :
      {A : Type ℓ} → (Service → Faulty Ident → Faulty A) → List Service → Faulty (List A)
  rendered f [] = some []
  rendered f (s ∷ ss) = then_rest (f s (format_ident s.name)) (rendered f ss)

  abbrev assembled : Faulty (List Const) → Faulty (List Entry) → Faulty Dispatcher
  assembled none es = none
  assembled (some cs) none = none
  assembled (some cs) (some es) =
      some (record { names = cs; table = separated es ++ (comma ∷ item null_entry ∷ []) })

  abbrev pub generated : List Service → Faulty Dispatcher
  generated ss = assembled (rendered name_item ss) (rendered table_item ss)

  abbrev expanded : Result (List Service) Error → Faulty (Result Dispatcher Error)
  expanded (err e) = some (err e)
  expanded (ok ss) = map_some ok (generated ss)

  -- From what syn makes of the tokens.
  unfoldable pub expand_start_service_ctrl_dispatcher :
      Result (List ExprTuple) Error → Faulty (Result Dispatcher Error)
  expand_start_service_ctrl_dispatcher parsed = expanded (do tuples ← parsed; try_fold [] tuples)
