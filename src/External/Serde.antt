-- ===== src/External/Serde.antt =====
-- serde_json, behind an interface: JSON values, their reading and printing, and the methods of
-- `Value` and `Map` that the code calls.
use zorch.Prelude.{ℕ, Bool, true, String, Option, some, List, ◌≡◌, ◌≢◌}
use zorch.Shared.Errors.{Reply, got}

pub record Serde : Type 1 where
  pub Json : Type 0
  pub from_slice : String → Reply Json
  pub to_vec : Json → Reply String
  -- `Value::get` of a name: nothing unless the value is an object with that field
  pub get : String → Json → Option Json
  pub as_bool : Json → Option Bool
  pub as_u64 : Json → Option ℕ
  pub as_str : Json → Option String
  pub is_object : Json → Bool
  -- `Map::insert` on the map of an object
  pub insert : String → Json → Json → Json
  pub bool : Bool → Json
  pub string : String → Json
  pub empty_object : Json
  -- `from_value::<HashMap<String, String>>`
  pub to_string_map : Json → Option (List (String × String))
  -- `==` of values
  pub same : Json → Json → Bool

-- What the documentation of serde_json promises. Of a printed object it is only used that its
-- Booleans and strings are read again: a float may lose its last bit.
pub record SerdeLaws (serde : Serde) : Type 0 where
  pub get_insert :
      (v : serde.Json)
      → serde.is_object v ≡ true
      → (key : String) (new : serde.Json) → serde.get key (serde.insert key new v) ≡ some new
  pub get_insert_other :
      (v : serde.Json)
      → serde.is_object v ≡ true
      → (key asked : String) → key ≢ asked
      → (new : serde.Json) → serde.get asked (serde.insert key new v) ≡ serde.get asked v
  pub is_object_insert :
      (v : serde.Json)
      → serde.is_object v ≡ true
      → (key : String) (new : serde.Json) → serde.is_object (serde.insert key new v) ≡ true
  pub is_object_empty : serde.is_object serde.empty_object ≡ true
  pub get_object :
      (v w : serde.Json) (key : String) → serde.get key v ≡ some w → serde.is_object v ≡ true
  pub as_str_string : (t : String) → serde.as_str (serde.string t) ≡ some t
  pub string_of_str : (v : serde.Json) (t : String) → serde.as_str v ≡ some t → v ≡ serde.string t
  pub as_bool_bool : (b : Bool) → serde.as_bool (serde.bool b) ≡ some b
  pub empty_is_no_json : (v : serde.Json) → serde.from_slice "" ≢ got v
  pub reread :
      (v : serde.Json) (s : String)
      → serde.to_vec v ≡ got s
      → (w : serde.Json) × (serde.from_slice s ≡ got w)
        × ((key : String) (b : Bool)
            → serde.get key v ≡ some (serde.bool b)
            → serde.get key w ≡ some (serde.bool b))
        × ((key : String) (t : String)
            → serde.get key v ≡ some (serde.string t)
            → serde.get key w ≡ some (serde.string t))
