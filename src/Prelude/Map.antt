-- ===== src/Prelude/Map.antt =====
-- `HashMap` as an association list: a look-up gives the one value of its key, an insertion
-- replaces it. The order of the entries is that of first insertion.
use mathlib.Core.Path.{◌≡◌, refl}
use mathlib.Core.Option.{Option, none, some}
use mathlib.Core.List.{List, [], ◌∷◌}
use native.Mathlib.Omega.{arith}
use zorch.Prelude.Tests.{if◌then◌else◌}
use zorch.Prelude.Classes.{Eq, ◌==◌}

module _ {ℓ κ} {Key : Type ℓ} {Value : Type κ} ⦃e : Eq Key⦄ where
  unfoldable pub lookup : Key → List (Key × Value) → Option Value
  lookup key [] = none
  lookup key ((here, value) ∷ rest) =
      let later = lookup key rest in if here == key then some value else later

  unfoldable pub insert : Key → Value → List (Key × Value) → List (Key × Value)
  insert key value [] = (key, value) ∷ []
  insert key value ((here, old) ∷ rest) =
      let later = insert key value rest in
      if here == key then (key, value) ∷ rest else (here, old) ∷ later

  unfoldable pub erase : Key → List (Key × Value) → List (Key × Value)
  erase key [] = []
  erase key ((here, old) ∷ rest) =
      let later = erase key rest in if here == key then later else (here, old) ∷ later

  pub lookup-insert :
      (key asked : Key) (value : Value) (entries : List (Key × Value))
      → lookup asked (insert key value entries)
        ≡ (if key == asked then some value else lookup asked entries)
  unfolding insert lookup
  lookup-insert key asked value [] = refl
  lookup-insert key asked value ((here, old) ∷ rest) =
      let later = lookup-insert key asked value rest in
      ground (later, arith, e.beq_iff here key, e.beq_iff here asked, e.beq_iff key asked)

  pub lookup-erase :
      (key asked : Key) (entries : List (Key × Value))
      → lookup asked (erase key entries) ≡ (if key == asked then none else lookup asked entries)
  unfolding erase lookup
  lookup-erase key asked [] = ground arith
  lookup-erase key asked ((here, old) ∷ rest) =
      let later = lookup-erase key asked rest in
      ground (later, arith, e.beq_iff here key, e.beq_iff here asked, e.beq_iff key asked)
