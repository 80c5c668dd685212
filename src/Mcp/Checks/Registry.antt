-- ===== src/Mcp/Checks/Registry.antt =====
-- The checks of a call at concrete inputs.
use mssql_ai_project.Base.{◌≡◌, refl, true, false, Option, some, [], ◌∷◌, ◌==◌, elem, filter}
use mssql_ai_project.Base.Text.{
  Text, codes, text_eq, strip, lstrip, rstrip, is_space, lower, to_lower,
}
use mssql_ai_project.Base.Json
use mssql_ai_project.Base.Json.{Json, str, arr, obj, nil, cons, Fields, empty, field}
use mssql_ai_project.Base.Values.{truthy, py_str}
use mssql_ai_project.Base.Result.{ok}
use mssql_ai_project.Mcp.Guardrails.{
  enforce_read_only_arguments, enforce_fields, enforce_items, is_refused, forbidden_argument_keys,
  NothingRefused,
}
use mssql_ai_project.Mcp.Schema.{
  Numbers, validate_tool_arguments, type_is, validate_by_type, validate_value, validate_properties,
  validate_members, validate_each, validate_items, validate_object, validate_members_of,
  validate_fields, validator_at, validate_string, check_enum, with_default, with_defaults,
  is_missing, is_blank, is_required, required_keys, members, unknown_keys, keys_of, is_mapping,
}
use mssql_ai_project.Mcp.Schema.Conformance.{Conforms}
use mssql_ai_project.Mcp.Registry.{
  ToolSpec, DbProfile, tool_named, check_active, get_tool, profile_by_id, allowed_guardrail_paths,
  may_probe, validate_database_probe_boundary, check_probe, validate_profile, prepare,
}
use mssql_ai_project.Mcp.Registry.Prepared.{prepare_lem}

abbrev numbers : Numbers
numbers = record { equal = λ n r. false; exceeds = λ n r. false }

abbrev repr : Json → Text
repr v = codes "{}"

abbrev text_schema : Json
text_schema = obj (field (codes "type") (str (codes "string")) empty)

abbrev schema : Fields
schema = field (codes "type") (str (codes "object")) (
    field (codes "required") (arr (cons (str (codes "dbProfileId")) nil)) (
      field (codes "properties")
        (obj (
          field (codes "dbProfileId") text_schema (field (codes "databaseName") text_schema empty)))
        empty))

abbrev tool : ToolSpec
tool = record {
  name = codes "check_database_exists";
  description = [];
  input_schema = schema;
  read_only = true;
  active = true;
}

abbrev sales : DbProfile
sales = record { id = codes "sales"; database = codes "Sales" }

-- a request with its arguments
abbrev parse : Option Fields → Option Fields
parse payload = payload

abbrev arguments : Text → Fields
arguments database =
    field (codes "dbProfileId") (str (codes "sales"))
      (field (codes "databaseName") (str database) empty)

passes :
    prepare repr numbers parse
      (tool ∷ [])
      (sales ∷ [])
      (codes "check_database_exists")
      (some (arguments (codes " SALES ")))
    ≡ ok (tool, arguments (codes " SALES "), arguments (codes "SALES"), sales)
unfolding prepare tool_named check_active get_tool profile_by_id allowed_guardrail_paths may_probe
    validate_database_probe_boundary check_probe validate_profile enforce_read_only_arguments
    enforce_fields enforce_items is_refused forbidden_argument_keys validate_tool_arguments type_is
    validate_by_type validate_value validate_properties validate_members validate_each
    validate_items validate_object validate_members_of validate_fields validator_at validate_string
    check_enum with_default with_defaults is_missing is_blank is_required required_keys members
    unknown_keys keys_of is_mapping filter strip lstrip rstrip is_space lower to_lower Json.get
    Json.put truthy py_str elem
passes = refl

prepare_lem_example :
    (tool_named (codes "check_database_exists") (tool ∷ []) ≡ some tool)
    × (true ≡ true)
    × (true ≡ true)
    × NothingRefused
        (allowed_guardrail_paths tool.name)
        (obj (arguments (codes " SALES ")))
        (codes "arguments")
    × Conforms numbers (obj schema) (obj (arguments (codes "SALES")))
    × (profile_by_id (sales ∷ []) (Json.get (arguments (codes "SALES")) (codes "dbProfileId"))
        ≡ some sales)
    × ((tool.name == codes "check_database_exists") ≡ true
        → (d : Json) → Json.get (arguments (codes "SALES")) (codes "databaseName") ≡ some d
        → may_probe repr sales d ≡ true)
prepare_lem_example =
    prepare_lem repr numbers parse (tool ∷ []) (sales ∷ []) (codes "check_database_exists")
      (some (arguments (codes " SALES "))) tool (arguments (codes " SALES "))
      (arguments (codes "SALES")) sales passes
