-- ===== src/Macros/Syntax.antt =====
-- The syntax trees of syn that crates/service-macros/src/service.rs matches on, with what it reads of
-- them. Text is a list of characters, by number.
use msft.Prelude.{ℕ, Bool, List}

abbrev pub Ident : Type 0
Ident = List ℕ

abbrev pub LitStr : Type 0
LitStr = List ℕ

-- `syn::Path`: the identifiers of its segments. Its other tokens are known by a number.
pub record SynPath : Type 0 where
  pub segments : List Ident
  pub tokens : ℕ

pub data Lit : Type 0 where
  lit_str : LitStr → Lit
  lit_int : ℕ → Lit
  lit_bool : Bool → Lit
  lit_other : ℕ → Lit

pub data Expr : Type 0 where
  expr_lit : Lit → Expr
  expr_path : SynPath → Expr
  expr_other : ℕ → Expr

-- `ExprTuple`, its attributes known by a number each.
pub record ExprTuple : Type 0 where
  pub elems : List Expr
  pub attrs : List ℕ

pub record MetaNameValue : Type 0 where
  pub path : SynPath
  pub value : Expr

-- `Type` and `FnArg`; a `Pat`, an identifier's, is known by a number.
pub data SynType : Type 0 where
  type_path : SynPath → SynType
  type_other : ℕ → SynType

pub data FnArg : Type 0 where
  fn_typed : (pat : ℕ) (ty : SynType) → FnArg
  fn_receiver : FnArg

-- `ItemFn`: what a function that is expanded keeps. Statements are known by a number each.
pub record ItemFn : Type 0 where
  pub vis : ℕ
  pub asyncness : Bool
  pub ident : Ident
  pub inputs : List FnArg
  pub stmts : List ℕ

-- `err_fold` names the part of a tuple that is missing, `err_missing_arg` the argument; and what syn
-- refuses to parse has an error of its own.
pub data TuplePart : Type 0 where
  part_name : TuplePart
  part_service : TuplePart

pub data Error : Type 0 where
  err_fold : TuplePart → Error
  err_missing_arg : Ident → Error
  syn_error : ℕ → Error
