-- ===== src/Macros/Dispatcher/Table.antt =====
-- Which services the code starts that `expand_start_service_ctrl_dispatcher` of
-- crates/service-macros/src/service.rs generates.
use msft.Macros.Dispatcher.Reading.{
  distinct, elements, elements-separated, fold-missing, is_empty, is_empty-services_of, missing,
  pair_of, read_table, services_of, started, try_fold-tuple_of, tuple_of, value_of,
}
use mathlib.Core.List.{append-nil}
use msft.Service.Ports.{contains}
use msft.Service.Guid.{bytes_eq_iff}
use msft.Macros.Syntax.{Expr, ExprTuple, Ident, LitStr, TuplePart, err_fold}
use msft.Macros.Dispatcher.{
  Const, Dispatcher, Entry, Service, TableToken, comma, format_ident, name_item, null_entry,
  rendered, separated, service_entry, service_ident, table_item, try_fold,
  expand_start_service_ctrl_dispatcher, generated,
}
use msft.Macros.Dispatcher.{item}
use msft.Prelude.{
  Bool, List, [], arith, false, if◌then◌else◌, map, none, refl, some, true, ℕ, ◌++◌, ◌∷◌, ◌≡◌,
  Faulty, err, ok,
}

module _ (to_uppercase : List ℕ → List ℕ) (is_ident : Ident → Bool) where
  -- Every name makes an identifier.
  abbrev pub AllIdents : List Service → Type 0
  AllIdents [] = Unit
  AllIdents (s ∷ ss) = (is_ident (service_ident to_uppercase is_ident s.name) ≡ true) × AllIdents ss

  abbrev pub const_of : Service → Const
  const_of s = record {
    attrs = s.attrs;
    ident = service_ident to_uppercase is_ident s.name;
    value = s.name;
  }

  abbrev pub entry_of : Service → Entry
  entry_of s = service_entry (service_ident to_uppercase is_ident s.name) s.service

  abbrev pub table_of : List Service → List TableToken
  table_of ss = separated (map entry_of ss) ++ (comma ∷ item null_entry ∷ [])

  format_ident-some :
      (n : LitStr)
      → is_ident (service_ident to_uppercase is_ident n) ≡ true
      → format_ident to_uppercase is_ident n ≡ some (service_ident to_uppercase is_ident n)
  unfolding format_ident
  format_ident-some n h = ground arith

  rendered-items {ℓ} :
      {A : Type ℓ} (f : Service → Faulty Ident → Faulty A) (g : Service → A) (ss : List Service)
      → ((s : Service) → f s (some (service_ident to_uppercase is_ident s.name)) ≡ some (g s))
      → AllIdents ss
      → rendered to_uppercase is_ident f ss ≡ some (map g ss)
  rendered-items f g [] k h = refl
  rendered-items f g (s ∷ ss) k h =
      rw (format_ident-some s.name h.0, k s, rendered-items f g ss k h.1) refl

  generated-AllIdents :
      (ss : List Service)
      → AllIdents ss
      → generated to_uppercase is_ident ss
        ≡ some (record { names = map const_of ss; table = table_of ss })
  generated-AllIdents ss h =
      rw
        (
          rendered-items (name_item to_uppercase is_ident) const_of ss (λ s. refl) h,
          rendered-items (table_item to_uppercase is_ident) entry_of ss (λ s. refl) h,
        )
        refl

  -- Each service's name is what the constant of its entry stands for.
  abbrev Resolves : List Const → List Service → Type 0
  Resolves cs [] = Unit
  Resolves cs (s ∷ ss) =
      (value_of cs (service_ident to_uppercase is_ident s.name) ≡ some s.name) × Resolves cs ss

  Resolves-cons :
      (c : Const) (cs : List Const) (ss : List Service)
      → contains (map (λ d. d.ident) (map const_of ss)) c.ident ≡ false
      → Resolves cs ss
      → Resolves (c ∷ cs) ss
  Resolves-cons c cs [] h r = tt
  Resolves-cons c cs (s ∷ ss) h r = ground (
    arith,
    Resolves-cons c cs ss,
    bytes_eq_iff c.ident (service_ident to_uppercase is_ident s.name),
    bytes_eq_iff (service_ident to_uppercase is_ident s.name) c.ident,
  )

  distinct-Resolves :
      (ss : List Service) → distinct (map const_of ss) ≡ true → Resolves (map const_of ss) ss
  distinct-Resolves [] h = tt
  distinct-Resolves (s ∷ ss) h = ground (
    arith,
    distinct-Resolves ss,
    Resolves-cons (const_of s) (map const_of ss) ss,
    bytes_eq_iff (const_of s).ident (const_of s).ident,
  )

  read_table-Resolves :
      (cs : List Const) (ss : List Service)
      → Resolves cs ss
      → read_table cs (map entry_of ss ++ (null_entry ∷ [])) ≡ some (map pair_of ss)
  read_table-Resolves cs [] r = refl
  read_table-Resolves cs (s ∷ ss) r = rw (r.0, read_table-Resolves cs ss r.1) refl

  table-elements :
      (ss : List Service)
      → elim (elements (table_of ss)) [ none ↦ none | some es ↦ read_table (map const_of ss) es ]
        ≡ (if is_empty ss
            then none
            else read_table (map const_of ss) (map entry_of ss ++ (null_entry ∷ [])))
  table-elements [] = refl
  table-elements (s ∷ ss) = rw (elements-separated (entry_of s) (map entry_of ss) null_entry) refl

  -- Of tuples whose names make identifiers, all of them different, the generated code starts the services
  -- of all tuples, each under its name, in order, and no others; but of no tuples it does not compile.
  pub expand-started :
      (ts : List (Service × List Expr))
      → AllIdents (services_of ts)
      → distinct (map const_of (services_of ts)) ≡ true
      → (d : Dispatcher) × (expand_start_service_ctrl_dispatcher to_uppercase is_ident
            (ok (map tuple_of ts))
          ≡ some (ok d))
        × (started d ≡ (if is_empty ts then none else some (map pair_of (services_of ts))))
  unfolding expand_start_service_ctrl_dispatcher
  expand-started ts valid different =
      let ss = services_of ts in
      let all : try_fold [] (map tuple_of ts ++ []) ≡ ok ss = try_fold-tuple_of [] ts [] in
      let all' : try_fold [] (map tuple_of ts) ≡ ok ss = rw (append-nil (map tuple_of ts)) at all in
      let ran = read_table-Resolves (map const_of ss) ss (distinct-Resolves ss different) in
      (
        record { names = map const_of ss; table = table_of ss },
        rw (all', generated-AllIdents ss valid) refl,
        rw (different, table-elements ss, ran, is_empty-services_of ts) refl,
      )

  -- The first tuple without a name, or with a name and no service, is the macro's error, whatever comes
  -- behind it.
  pub expand-err :
      (ts : List (Service × List Expr)) (bad : ExprTuple) (rest : List ExprTuple) (part : TuplePart)
      → missing bad.elems ≡ some part
      → expand_start_service_ctrl_dispatcher to_uppercase is_ident
          (ok (map tuple_of ts ++ (bad ∷ rest)))
        ≡ some (err (err_fold part))
  unfolding expand_start_service_ctrl_dispatcher
  expand-err ts bad rest part h =
      rw (try_fold-tuple_of [] ts (bad ∷ rest), fold-missing (services_of ts) bad part h) refl
