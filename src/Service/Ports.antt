-- ===== src/Service/Ports.antt =====
-- `HashMap<OsString, V>` of crates/service/src/device.rs: an association list with each port at most once.
use msft.Service.Wchar.{OsString}
use msft.Service.Guid.{bytes_eq, bytes_eq_iff}
use msft.Prelude.{◌≡◌, Bool, ◌||◌, List, [], ◌∷◌, Option, none, some, false, if◌then◌else◌, arith}

module _ {ℓ} {V : Type ℓ} where
  abbrev pub get : OsString → List (OsString × V) → Option V
  get p [] = none
  get p (e ∷ es) = let rest = get p es in if bytes_eq e.0 p then some e.1 else rest

  abbrev pub remove : OsString → List (OsString × V) → List (OsString × V)
  remove p [] = []
  remove p (e ∷ es) = let rest = remove p es in if bytes_eq e.0 p then rest else e ∷ rest

  abbrev pub insert : OsString → V → List (OsString × V) → List (OsString × V)
  insert p s es = (p, s) ∷ remove p es

  pub get-remove :
      (p q : OsString) (c : List (OsString × V))
      → get p (remove q c) ≡ (if bytes_eq q p then none else get p c)
  get-remove p q [] = ground arith
  get-remove p q (e ∷ c) =
      ground (arith, get-remove p q c, bytes_eq_iff q p, bytes_eq_iff e.0 p, bytes_eq_iff e.0 q)

  pub get-insert :
      (p q : OsString) (s : V) (c : List (OsString × V))
      → get p (insert q s c) ≡ (if bytes_eq q p then some s else get p c)
  get-insert p q s c = ground (arith, get-remove p q c)

-- `contains` of a vector of ports.
abbrev pub contains : List OsString → OsString → Bool
contains [] p = false
contains (q ∷ qs) p = bytes_eq q p || contains qs p
