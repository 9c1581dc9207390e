-- ===== src/Shared/Sql.antt =====
-- The arguments of an INSERT: sqlx binds them to the placeholders by their order.
use zorch.Prelude.{ℕ, Bool, String, Option, List, [], ◌∷◌}
use zorch.Prelude.Int.{ℤ}
use zorch.Shared.Float.{F64}

-- A cell of a row of the database.
pub data Cell (Json : Type 0) : Type 0 where
  uuid : ℕ → Cell Json
  maybe_uuid : Option ℕ → Cell Json
  words : String → Cell Json
  flag : Bool → Cell Json
  int : ℤ → Cell Json
  float : F64 → Cell Json
  json : Json → Cell Json
  maybe_int : Option ℤ → Cell Json
  maybe_float : Option F64 → Cell Json
  texts : List String → Cell Json
  maybe_texts : Option (List String) → Cell Json
  maybe_words : Option String → Cell Json

-- A column takes the argument at its position.
unfoldable pub row_of {ℓ} : {A : Type ℓ} → List String → List A → List (String × A)
row_of (c ∷ cs) (a ∷ xs) = (c, a) ∷ row_of cs xs
row_of (c ∷ cs) [] = []
row_of [] xs = []
