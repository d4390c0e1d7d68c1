-- ===== src/Macros/Meta.antt =====
-- crates/service-macros/src/service.rs: the options of the attribute `service`. How syn takes a path of
-- one identifier apart is a parameter.

pub mod Last
use msft.Service.Guid.{bytes_eq}
use msft.Macros.Syntax.{
  Expr, Ident, LitStr, MetaNameValue, SynPath, expr_lit, lit_bool, lit_int, lit_str,
}
use msft.Prelude.{
  Bool, List, Option, [], arith, false, if◌then◌else◌, none, refl, some, ℕ, ◌∷◌, ◌≡◌,
}

pub record Meta : Type 0 where
  pub name : Option LitStr
  pub worker_threads : Option ℕ
  pub mt : Bool

abbrev pub default_meta : Meta
default_meta = record { name = none; worker_threads = none; mt = false }

-- The identifiers `name`, `mt` and `worker_threads`.
abbrev pub name_ident : Ident
name_ident = b'n' ∷ b'a' ∷ b'm' ∷ b'e' ∷ []

abbrev pub mt_ident : Ident
mt_ident = b'm' ∷ b't' ∷ []

abbrev pub worker_threads_ident : Ident
worker_threads_ident =
    b'w' ∷ b'o' ∷ b'r' ∷ b'k' ∷ b'e' ∷ b'r' ∷ b'_' ∷ b't' ∷ b'h' ∷ b'r' ∷ b'e' ∷ b'a' ∷ b'd' ∷ b's'
    ∷ []

abbrev pub match_name : Meta → Expr → Meta
match_name m (expr_lit (lit_str s)) = record m { name = some s }
match_name m e = m

abbrev pub match_mt : Meta → Expr → Meta
match_mt m (expr_lit (lit_bool b)) = record m { mt = b }
match_mt m e = m

abbrev pub match_worker_threads : Meta → Expr → Meta
match_worker_threads m (expr_lit (lit_int i)) = record m { worker_threads = some i }
match_worker_threads m e = m

module _ (get_ident : SynPath → Option Ident) where
  abbrev pub match_ident : Meta → Expr → Option Ident → Meta
  match_ident m e none = m
  match_ident m e (some i) =
      if bytes_eq i name_ident
      then match_name m e
      else if bytes_eq i mt_ident
      then match_mt m e
      else if bytes_eq i worker_threads_ident
      then match_worker_threads m e
      else m

  unfoldable pub fold_meta : Meta → MetaNameValue → Meta
  fold_meta m v = match_ident m v.value (get_ident v.path)

  -- `into_iter().fold(Meta::default(), fold_meta)`.
  abbrev pub folded : Meta → List MetaNameValue → Meta
  folded m [] = m
  folded m (v ∷ vs) = folded (fold_meta m v) vs

  abbrev pub meta_of : List MetaNameValue → Meta
  meta_of vs = folded default_meta vs
