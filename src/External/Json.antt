-- ===== src/External/Json.antt =====
-- An instance of the interface to serde_json: values as trees, printed by a table of texts.
use zorch.Prelude.{
  ℕ, Bool, true, false, String, Option, none, some, ◌≡◌, ◌≢◌, refl, ap, arith, if◌then◌else◌,
  Bool-cases, inl, inr, List, [], ◌∷◌,
}
use mathlib.Core.Logic.{ite}
use zorch.Prelude.{ℕ_discrete}
use zorch.Prelude.Classes.{◌==◌, string_eq, beq_refl, beq_ne, ne_of_beq}
use zorch.Shared.Errors.{Reply, got, failed}
use zorch.External.Serde.{Serde, SerdeLaws}

mutual
  pub data Entries : Type 0 where
    entry : String → Value → Entries → Entries
    no_entries : Entries

  pub data Elements : Type 0 where
    element : Value → Elements → Elements
    no_elements : Elements

  pub data Value : Type 0 where
    str : String → Value
    flag : Bool → Value
    map_of : Entries → Value
    list_of : Elements → Value
    whole : ℕ → Value  -- the numbers that fit u64; others are not needed
    null : Value

unfoldable pub find_field : String → Entries → Option Value
find_field key no_entries = none
find_field key (entry here v rest) =
    let later = find_field key rest in if here == key then some v else later

unfoldable pub put_field : String → Value → Entries → Entries
put_field key new no_entries = entry key new no_entries
put_field key new (entry here v rest) =
    let later = put_field key new rest in
    if here == key then entry key new rest else entry here v later

unfoldable pub get_value : String → Value → Option Value
get_value key (map_of fs) = find_field key fs
get_value key _ = none

unfoldable pub put_value : String → Value → Value → Value
put_value key new (map_of fs) = map_of (put_field key new fs)
put_value key new v = v

unfoldable pub object? : Value → Bool
object? (map_of fs) = true
object? _ = false

unfoldable pub str_of : Value → Option String
str_of (str s) = some s
str_of _ = none

unfoldable pub flag_of : Value → Option Bool
flag_of (flag b) = some b
flag_of _ = none

unfoldable pub whole_of : Value → Option ℕ
whole_of (whole n) = some n
whole_of _ = none

unfoldable pub strings_in : Entries → Option (List (String × String))
strings_in no_entries = some []
strings_in (entry key (str s) rest) = elim (strings_in rest) [
  | none ↦ none
  | some entries ↦ some ((key, s) ∷ entries)
]
strings_in (entry key _ rest) = none

unfoldable pub string_map_of : Value → Option (List (String × String))
string_map_of (map_of fs) = strings_in fs
string_map_of _ = none

abbrev pub text_decision : (s t : String) (b : Bool) → (s == t) ≡ b → Dec (s ≡ t)
text_decision s t true e = yes ((string_eq.beq_iff s t).0 e)
text_decision s t false e = no (ne_of_beq s t e)

abbrev pub text_discrete : Discrete String
text_discrete s t = text_decision s t (s == t) refl

abbrev pub Value-discrete : Discrete Value
Value-discrete = hlevel (ℕ_discrete, text_discrete)

unfoldable pub same_value : Value → Value → Bool
same_value v w = ite (Value-discrete v w) true false

same_value-eq : (v w : Value) → same_value v w ≡ true → v ≡ w
unfolding same_value
same_value-eq v w h = elim (Value-discrete v w) [ yes e ↦ e | no n ↦ ground (arith, n, h) ]

-- A table of texts and their values is read in order, and a value is printed as the first text
-- that reads as it.
abbrev pub Table : Type 0
Table = List (String × Value)

unfoldable pub read_in : Table → String → Reply Value
read_in [] s = failed "expected value"
read_in ((here, v) ∷ rest) s = let later = read_in rest s in if here == s then got v else later

unfoldable pub reads_as : Reply Value → Value → Bool
reads_as (got w) v = same_value w v
reads_as (failed e) v = false

unfoldable pub print_in : Table → Table → Value → Reply String
print_in table [] v = failed "unknown value"
print_in table ((here, w) ∷ rest) v =
    let later = print_in table rest v in if reads_as (read_in table here) v then got here else later

reads_as-eq : (r : Reply Value) (v : Value) → reads_as r v ≡ true → r ≡ got v
unfolding reads_as
reads_as-eq (got w) v h = ap got (same_value-eq w v h)
reads_as-eq (failed e) v h = ground (arith, h)

print_in-reads :
    (table rest : Table) (v : Value) (s : String)
    → print_in table rest v ≡ got s
    → read_in table s ≡ got v
unfolding print_in
print_in-reads table [] v s h = ground (arith, h)
print_in-reads table ((here, w) ∷ rest) v s h =
    let later = print_in-reads table rest v s in
    elim (Bool-cases (reads_as (read_in table here) v)) [
      | inl b ↦
          let e : read_in table here ≡ got v = reads_as-eq (read_in table here) v b in
          ground (arith, b, h, e)
      | inr b ↦ later (ground (arith, b, h))
    ]

abbrev pub json_of : Table → Serde
json_of table = record {
  Json = Value;
  from_slice = read_in table;
  to_vec = print_in table table;
  get = get_value;
  as_bool = flag_of;
  as_u64 = whole_of;
  as_str = str_of;
  is_object = object?;
  insert = put_value;
  bool = flag;
  string = str;
  empty_object = map_of no_entries;
  to_string_map = string_map_of;
  same = same_value;
}

find_field-put_field :
    (key : String) (new : Value) (fs : Entries) → find_field key (put_field key new fs) ≡ some new
unfolding find_field put_field
find_field-put_field key new no_entries = let e = beq_refl key in ground (arith, e)
find_field-put_field key new (entry here v rest) =
    let later = find_field-put_field key new rest in
    let e = beq_refl key in ground (arith, later, e)

find_field-put_field_other :
    (key asked : String) (new : Value) (fs : Entries)
    → key ≢ asked
    → find_field asked (put_field key new fs) ≡ find_field asked fs
unfolding find_field put_field
find_field-put_field_other key asked new no_entries h =
    let e = beq_ne key asked h in ground (arith, e)
find_field-put_field_other key asked new (entry here v rest) h =
    let later = find_field-put_field_other key asked new rest h in
    let e = beq_ne key asked h in ground (arith, later, e, string_eq.beq_iff here key)

get_value-put_value :
    (v : Value)
    → object? v ≡ true
    → (key : String) (new : Value) → get_value key (put_value key new v) ≡ some new
unfolding get_value put_value object?
get_value-put_value (map_of fs) h key new = find_field-put_field key new fs
get_value-put_value null h key new = ground (arith, h)
get_value-put_value (flag b) h key new = ground (arith, h)
get_value-put_value (whole n) h key new = ground (arith, h)
get_value-put_value (str s) h key new = ground (arith, h)
get_value-put_value (list_of xs) h key new = ground (arith, h)

get_value-put_value_other :
    (v : Value)
    → object? v ≡ true
    → (key asked : String) → key ≢ asked
    → (new : Value) → get_value asked (put_value key new v) ≡ get_value asked v
unfolding get_value put_value object?
get_value-put_value_other (map_of fs) h key asked n new =
    find_field-put_field_other key asked new fs n
get_value-put_value_other null h key asked n new = refl
get_value-put_value_other (flag b) h key asked n new = refl
get_value-put_value_other (whole m) h key asked n new = refl
get_value-put_value_other (str s) h key asked n new = refl
get_value-put_value_other (list_of xs) h key asked n new = refl

object?-put_value :
    (v : Value)
    → object? v ≡ true
    → (key : String) (new : Value) → object? (put_value key new v) ≡ true
unfolding put_value object?
object?-put_value (map_of fs) h key new = refl
object?-put_value null h key new = h
object?-put_value (flag b) h key new = h
object?-put_value (whole n) h key new = h
object?-put_value (str s) h key new = h
object?-put_value (list_of xs) h key new = h

get_value-object? : (v w : Value) (key : String) → get_value key v ≡ some w → object? v ≡ true
unfolding get_value object?
get_value-object? (map_of fs) w key h = refl
get_value-object? null w key h = ground (arith, h)
get_value-object? (flag b) w key h = ground (arith, h)
get_value-object? (whole n) w key h = ground (arith, h)
get_value-object? (str s) w key h = ground (arith, h)
get_value-object? (list_of xs) w key h = ground (arith, h)

str_of-eq : (v : Value) (t : String) → str_of v ≡ some t → v ≡ str t
unfolding str_of
str_of-eq (str s) t h = ground (arith, h)
str_of-eq null t h = ground (arith, h)
str_of-eq (flag b) t h = ground (arith, h)
str_of-eq (whole n) t h = ground (arith, h)
str_of-eq (map_of fs) t h = ground (arith, h)
str_of-eq (list_of xs) t h = ground (arith, h)

pub json_laws :
    (table : Table) → ((v : Value) → read_in table "" ≢ got v) → SerdeLaws (json_of table)
unfolding get_value object? str_of flag_of find_field
json_laws table no_empty = record {
  get_insert = get_value-put_value;
  get_insert_other = get_value-put_value_other;
  is_object_insert = object?-put_value;
  is_object_empty = refl;
  get_object = get_value-object?;
  as_str_string = λ t. refl;
  string_of_str = str_of-eq;
  as_bool_bool = λ b. refl;
  empty_is_no_json = no_empty;
  reread = λ v s h. (v, print_in-reads table table v s h, (λ key b e. e), (λ key t e. e));
}
