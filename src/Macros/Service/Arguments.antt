-- ===== src/Macros/Service/Arguments.antt =====
-- Which arguments of the user's function `find_arg` of crates/service-macros/src/service.rs finds.
use mathlib.Core.Option.{some-ne-none}
use msft.Macros.Service.{find_arg, find_function_argument, find_map, last_segment, or_next}
use msft.Service.Guid.{bytes_eq, bytes_eq_iff}
use msft.Macros.Syntax.{
  FnArg, Ident, ItemFn, SynPath, fn_receiver, fn_typed, type_other, type_path, err_missing_arg,
}
use msft.Prelude.{
  Bool-cases, List, Option-cases, [], arith, inl, inr, none, ok, refl, some, ℕ, ◌++◌, ◌∷◌, ◌≡◌, ◌≢◌,
  Option, ap, sym, ◌∙◌, err, ◌⊎◌,
}

-- No argument among these has a type of this name: a path whose last segment is the name.
abbrev pub NotNamed : Ident → List FnArg → Type 0
NotNamed n [] = Unit
NotNamed n (fn_receiver ∷ as') = NotNamed n as'
NotNamed n (fn_typed pat (type_other t) ∷ as') = NotNamed n as'
NotNamed n (fn_typed pat (type_path p) ∷ as') =
    ((front : List Ident) → p.segments ≢ front ++ (n ∷ [])) × NotNamed n as'

-- The first argument with a type of this name.
pub record Takes (n : Ident) (inputs : List FnArg) (a : ℕ × SynPath) : Type 0 where
  pub before : List FnArg
  pub after : List FnArg
  pub front : List Ident
  pub stands : inputs ≡ before ++ (fn_typed a.0 (type_path a.1) ∷ after)
  pub ends : a.1.segments ≡ front ++ (n ∷ [])
  pub is_first : NotNamed n before

last_segment-append : (front : List Ident) (n : Ident) → last_segment (front ++ (n ∷ [])) ≡ some n
last_segment-append [] n = refl
last_segment-append (i ∷ []) n = refl
last_segment-append (i ∷ j ∷ front) n = last_segment-append (j ∷ front) n

last_segment-some :
    (is : List Ident) (n : Ident)
    → last_segment is ≡ some n
    → (front : List Ident) × (is ≡ front ++ (n ∷ []))
last_segment-some [] n h = ground (arith)
last_segment-some (i ∷ []) n h = ([], ground arith)
last_segment-some (i ∷ j ∷ is) n h =
    let (front, e) = last_segment-some (j ∷ is) n h in (i ∷ front, rw e refl)

find_function_argument-named :
    (n : Ident) (pat : ℕ) (p : SynPath) (front : List Ident)
    → p.segments ≡ front ++ (n ∷ [])
    → find_function_argument n (fn_typed pat (type_path p)) ≡ some (pat, p)
unfolding find_function_argument
find_function_argument-named n pat p front h =
    rw (h, last_segment-append front n, (bytes_eq_iff n n).1 refl) refl

find_function_argument-other :
    (n : Ident) (pat : ℕ) (p : SynPath)
    → ((front : List Ident) → p.segments ≢ front ++ (n ∷ []))
    → find_function_argument n (fn_typed pat (type_path p)) ≡ none
unfolding find_function_argument
find_function_argument-other n pat p h = elim (Option-cases (last_segment p.segments)) [
  | inl e ↦ rw e refl
  | inr (i, e) ↦ elim (Bool-cases (bytes_eq i n)) [
    | inl b ↦
        let ends : last_segment p.segments ≡ some n = e ∙ ap some ((bytes_eq_iff i n).0 b) in
        let (front, s) = last_segment-some p.segments n ends in elim (h front s) [ ]
    | inr b ↦ rw (e, b) refl
  ]
]

pub find_map-NotNamed : (n : Ident) (as' : List FnArg) → NotNamed n as' → find_map n as' ≡ none
unfolding find_function_argument
find_map-NotNamed n [] h = refl
find_map-NotNamed n (fn_receiver ∷ as') h = find_map-NotNamed n as' h
find_map-NotNamed n (fn_typed pat (type_other t) ∷ as') h = find_map-NotNamed n as' h
find_map-NotNamed n (fn_typed pat (type_path p) ∷ as') h =
    rw (find_function_argument-other n pat p h.0, find_map-NotNamed n as' h.1) refl

or_next-none : (x y : Option (ℕ × SynPath)) → or_next x y ≡ none → (x ≡ none) × (y ≡ none)
or_next-none x y h = ground arith

pub find_map-none : (n : Ident) (as' : List FnArg) → find_map n as' ≡ none → NotNamed n as'
unfolding find_function_argument
find_map-none n [] h = tt
find_map-none n (fn_receiver ∷ as') h = find_map-none n as' h
find_map-none n (fn_typed pat (type_other t) ∷ as') h = find_map-none n as' h
find_map-none n (fn_typed pat (type_path p) ∷ as') h =
    let (first, others) =
      or_next-none (find_function_argument n (fn_typed pat (type_path p))) (find_map n as') h in
    (
      λ front e. some-ne-none (pat, p) (sym (find_function_argument-named n pat p front e) ∙ first),
      find_map-none n as' others,
    )

find_map-append :
    (n : Ident) (before rest : List FnArg)
    → NotNamed n before
    → find_map n (before ++ rest) ≡ find_map n rest
unfolding find_function_argument
find_map-append n [] rest h = refl
find_map-append n (fn_receiver ∷ as') rest h = find_map-append n as' rest h
find_map-append n (fn_typed pat (type_other t) ∷ as') rest h = find_map-append n as' rest h
find_map-append n (fn_typed pat (type_path p) ∷ as') rest h =
    rw (find_function_argument-other n pat p h.0, find_map-append n as' rest h.1) refl

pub find_arg-Takes :
    (n : Ident) (f : ItemFn) (a : ℕ × SynPath) → Takes n f.inputs a → find_arg n f ≡ ok a
find_arg-Takes n f a t =
    rw
      (
        t.stands,
        find_map-append n t.before (fn_typed a.0 (type_path a.1) ∷ t.after) t.is_first,
        find_function_argument-named n a.0 a.1 t.front t.ends,
      )
      refl

pub find_arg-cases :
    (n : Ident) (f : ItemFn)
    → ((find_arg n f ≡ err (err_missing_arg n)) × NotNamed n f.inputs)
      ⊎ ((a : ℕ × SynPath) × (find_arg n f ≡ ok a))
find_arg-cases n f = elim (Option-cases (find_map n f.inputs)) [
  | inl e ↦ inl (rw e refl, find_map-none n f.inputs e)
  | inr (a, e) ↦ inr (a, rw e refl)
]

pub found-NotNamed :
    (n : Ident) (f : ItemFn) (a : ℕ × SynPath) → find_arg n f ≡ ok a → NotNamed n f.inputs → ⊥
found-NotNamed n f a e h = ground (arith, find_map-NotNamed n f.inputs h)
