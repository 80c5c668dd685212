-- ===== src/Mcp/Schema.antt =====
-- services/mssql-mcp/mssql_mcp_app/schema_validation.py: the arguments of a tool against its input
-- schema. A schema is read once into its validator, so that the walk is by recursion on the schema.
-- How Python compares an int with a float is a parameter.
pub mod Scalars
pub mod Objects
pub mod Again
pub mod Members
pub mod Keys
pub mod Results
pub mod Conformance
pub mod Conforming
unfoldable pub use Scalars.*
unfoldable pub use Objects.*
use mssql_ai_project.Base.{
  String, Bool, true, false, Option, none, some, List, [], ◌∷◌, ◌==◌, if◌then◌else◌,
}
use mssql_ai_project.Base.Text.{Text, codes, text_eq}
use mssql_ai_project.Base.Json
use mssql_ai_project.Base.Json.{Json, null, bool, int, float, str, arr, obj, Fields, empty, field}
use mssql_ai_project.Base.Result.{Result, ok, err, ◌>>=◌}

-- `schema.get("type") == name`
unfoldable pub type_is : Fields → String → Bool
type_is schema name = elim (Json.get schema (codes "type")) [
  | some (str t) ↦ t == codes name
  | _ ↦ false
]

module _ (numbers : Numbers) where
  -- the branches on the expected type, once the schemas inside are read
  unfoldable pub validate_by_type : Fields → Validator → List (Text × Validator) → Validator
  validate_by_type schema items properties value path required =
      if type_is schema "string"
      then validate_string schema value path required
      else if type_is schema "integer"
      then validate_integer numbers schema value path required
      else if type_is schema "boolean"
      then validate_boolean value path required
      else if type_is schema "array"
      then validate_array (Json.get schema (codes "items")) items value path required
      else if type_is schema "object"
      then validate_object schema properties value path required
      else err (invalid path (unsupported_schema_type (Json.get schema (codes "type"))))

  unfoldable mutual
    pub validate_value : Json → Validator
    validate_value (obj schema) =
        validate_by_type schema (validate_items schema) (validate_properties schema)
    validate_value schema = λ value path required. err attribute_error

    -- the validator of `schema.get("items", {})`
    pub validate_items : Fields → Validator
    validate_items empty = validate_by_type empty (λ value path required. err attribute_error) []
    validate_items (field key schema d) =
        let here = validate_value schema in
        let rest = validate_items d in if key == codes "items" then here else rest

    -- the validators of `schema.get("properties", {})`
    pub validate_properties : Fields → List (Text × Validator)
    validate_properties empty = []
    validate_properties (field key schema d) =
        let here = validate_members schema in
        let rest = validate_properties d in if key == codes "properties" then here else rest

    pub validate_members : Json → List (Text × Validator)
    validate_members (obj properties) = validate_each properties
    validate_members schema = []

    pub validate_each : Fields → List (Text × Validator)
    validate_each empty = []
    validate_each (field key schema d) = (key, validate_value schema) ∷ validate_each d

  -- `tool` is its name and its input schema
  unfoldable pub validate_tool_arguments : Text → Fields → Fields → Result SchemaError Json
  validate_tool_arguments name schema arguments =
      if type_is schema "object"
      then validate_object schema (validate_properties schema) (obj arguments) (codes "arguments")
          true
      else err (not_an_object_schema name)
