-- ===== src/Mcp/Schema/Scalars.antt =====
-- The errors, and the schemas of strings, integers and booleans.
use mssql_ai_project.Base.{
  String, Bool, true, false, ◌&&◌, Option, none, some, List, ◌==◌, if◌then◌else◌, is_some,
}
use mssql_ai_project.Base.Int.{ℤ, pos, leb_ℤ, ltb_ℤ}
use mssql_ai_project.Base.Text.{Text, codes, text_eq, strip, is_empty, is_substring}
use mssql_ai_project.Base.Json
use mssql_ai_project.Base.Json.{
  Json, null, bool, int, float, str, arr, obj, Items, nil, cons, Fields,
}
use mssql_ai_project.Base.Result.{Result, ok, err, ◌>>=◌, ◌>>◌}

pub data Reason : Type 0 where
  must_be_an_object : Reason
  schema_properties_must_be_an_object : Reason
  unsupported_arguments : List Text → Reason
  missing_required_arguments : List Json → Reason
  must_be_a_string : Reason
  must_not_be_empty : Reason
  must_be_an_integer : Reason
  must_be_at_most : Json → Reason
  must_be_a_boolean : Reason
  must_be_an_array : Reason
  schema_items_must_be_an_object : Reason
  unsupported_schema_type : Option Json → Reason
  must_be_one_of : Json → Reason

-- `MetadataToolError(INVALID_ARGUMENTS, ...)` with its path and reason, that of a tool whose schema
-- is no object, and what Python raises on a malformed schema
pub data SchemaError : Type 0 where
  invalid : Text → Reason → SchemaError
  not_an_object_schema : Text → SchemaError
  attribute_error : SchemaError
  type_error : SchemaError
  key_error : Text → SchemaError

-- How Python compares an int with a float, given by its representation.
pub record Numbers : Type 0 where
  pub equal : ℤ → String → Bool
  pub exceeds : ℤ → String → Bool

-- What a schema makes of a value, at a path, required or not.
abbrev pub Validator : Type 0
Validator = Json → Text → Bool → Result SchemaError Json

-- `int(b)`, which is what Python compares
abbrev number_of : Bool → ℤ
number_of b = if b then pos 1 else pos 0

abbrev pub int_beq : ℤ → ℤ → Bool
int_beq m n = leb_ℤ m n && leb_ℤ n m

unfoldable text_among : Text → Items → Bool
text_among s nil = false
text_among s (cons (str t) vs) = let rest = text_among s vs in if s == t then true else rest
text_among s (cons v vs) = text_among s vs

-- `value in enum_values` of a text
unfoldable pub text_in : Text → Json → Result SchemaError Bool
unfolding text_among
text_in s (arr vs) = ok (text_among s vs)
text_in s (str t) = ok (is_substring s t)
text_in s (obj d) = ok (is_some (Json.get d s))
text_in s v = err type_error

module _ (numbers : Numbers) where
  unfoldable pub equals_int : ℤ → Json → Bool
  equals_int n (int m) = int_beq n m
  equals_int n (bool b) = int_beq n (number_of b)
  equals_int n (float r) = numbers.equal n r
  equals_int n v = false

  unfoldable int_among : ℤ → Items → Bool
  int_among n nil = false
  int_among n (cons v vs) = let rest = int_among n vs in if equals_int n v then true else rest

  -- `value in enum_values` of an integer
  unfoldable pub int_in : ℤ → Json → Result SchemaError Bool
  unfolding int_among
  int_in n (arr vs) = ok (int_among n vs)
  int_in n (obj d) = ok false
  int_in n v = err type_error

  -- `value > maximum`
  unfoldable pub int_exceeds : ℤ → Json → Result SchemaError Bool
  int_exceeds n (int m) = ok (ltb_ℤ m n)
  int_exceeds n (bool b) = ok (ltb_ℤ (number_of b) n)
  int_exceeds n (float r) = ok (numbers.exceeds n r)
  int_exceeds n v = err type_error

abbrev pub guard_result : Result SchemaError Bool → SchemaError → Result SchemaError (Unit {0})
guard_result r e = r >>= λ b. if b then ok tt else err e

unfoldable pub check_enum :
    (Json → Result SchemaError Bool) → Option Json → Text → Result SchemaError (Unit {0})
check_enum value_in none path = ok tt
check_enum value_in (some null) path = ok tt
check_enum value_in (some enum_values) path =
    guard_result (value_in enum_values) (invalid path (must_be_one_of enum_values))

abbrev pub validate_enum :
    (Json → Result SchemaError Bool) → Fields → Text → Result SchemaError (Unit {0})
validate_enum value_in schema path = check_enum value_in (Json.get schema (codes "enum")) path

unfoldable pub validate_string : Fields → Validator
validate_string schema (str s) path required =
    if required && is_empty (strip s)
    then err (invalid path must_not_be_empty)
    else validate_enum (text_in (strip s)) schema path >> ok (str (strip s))
validate_string schema value path required = err (invalid path must_be_a_string)

-- `if maximum is not None and value > maximum`
unfoldable pub check_maximum :
    (Json → Result SchemaError Bool) → Option Json → Text → Result SchemaError (Unit {0})
check_maximum value_exceeds none path = ok tt
check_maximum value_exceeds (some null) path = ok tt
check_maximum value_exceeds (some maximum) path =
    value_exceeds maximum >>= λ b. if b then err (invalid path (must_be_at_most maximum)) else ok tt

unfoldable pub validate_integer : Numbers → Fields → Validator
validate_integer numbers schema (int n) path required =
    check_maximum (int_exceeds numbers n) (Json.get schema (codes "maximum")) path
    >> validate_enum (int_in numbers n) schema path
    >> ok (int n)
validate_integer numbers schema value path required = err (invalid path must_be_an_integer)

unfoldable pub validate_boolean : Validator
validate_boolean (bool b) path required = ok (bool b)
validate_boolean value path required = err (invalid path must_be_a_boolean)
