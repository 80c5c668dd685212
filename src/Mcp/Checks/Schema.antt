-- ===== src/Mcp/Checks/Schema.antt =====
-- The arguments of a tool against its schema, at concrete inputs.
use mssql_ai_project.Base.{◌≡◌, refl, true, false, List, [], is_some, filter}
use mssql_ai_project.Base.Text.{Text, codes, text_eq, strip, lstrip, rstrip, is_space}
use mssql_ai_project.Base.Int.{pos}
use mssql_ai_project.Base.Json
use mssql_ai_project.Base.Json.{Json, bool, int, str, arr, obj, nil, cons, Fields, empty, field}
use mssql_ai_project.Base.Result.{ok, err}
use mssql_ai_project.Mcp.Schema.{
  Numbers, invalid, must_be_at_most, validate_tool_arguments, type_is, validate_by_type,
  validate_value, validate_properties, validate_members, validate_each, validate_items,
  validate_object, validate_members_of, validate_fields, validator_at, validate_string,
  validate_integer, check_enum, check_maximum, text_in, int_exceeds, with_default, with_defaults,
  is_missing, is_blank, is_required, required_keys, members, unknown_keys, keys_of, is_mapping,
  properties_of,
}
use mssql_ai_project.Mcp.Schema.Conformance.{Conforms}
use mssql_ai_project.Mcp.Schema.Conforming.{validate_tool_arguments-Conforms}
use mssql_ai_project.Mcp.Schema.Results.{
  validate_tool_arguments_again, validate_tool_arguments-keys,
}

-- No float stands in these schemas.
abbrev numbers : Numbers
numbers = record { equal = λ n r. false; exceeds = λ n r. false }

abbrev kind_schema : Json
kind_schema = obj (
    field (codes "type") (str (codes "string"))
      (field (codes "enum") (arr (cons (str (codes "table")) nil)) empty))

abbrev limit_schema : Json
limit_schema = obj (
    field (codes "type") (str (codes "integer"))
      (field (codes "maximum") (int (pos 50)) (field (codes "default") (int (pos 20)) empty)))

abbrev schema : Fields
schema = field (codes "type") (str (codes "object")) (
    field (codes "required") (arr (cons (str (codes "kind")) nil)) (
      field (codes "properties")
        (obj (field (codes "kind") kind_schema (field (codes "limit") limit_schema empty))) empty))

abbrev arguments : Fields
arguments = field (codes "kind") (str (codes " table ")) empty

abbrev normalized : Fields
normalized = field (codes "kind") (str (codes "table")) (field (codes "limit") (int (pos 20)) empty)

accepted : validate_tool_arguments numbers (codes "t") schema arguments ≡ ok (obj normalized)
unfolding validate_tool_arguments type_is validate_by_type validate_value validate_properties
    validate_members validate_each validate_object validate_members_of validate_fields validator_at
    validate_string validate_integer check_enum check_maximum text_in int_exceeds with_default
    with_defaults is_missing is_blank is_required required_keys members unknown_keys keys_of
    is_mapping filter strip lstrip rstrip is_space Json.get Json.put validate_items
accepted = refl

over_the_maximum :
    validate_tool_arguments numbers
      (codes "t")
      schema
      (field (codes "limit") (int (pos 51)) (field (codes "kind") (str (codes "table")) empty))
    ≡ err (invalid (codes "arguments.limit") (must_be_at_most (int (pos 50))))
unfolding validate_tool_arguments type_is validate_by_type validate_value validate_properties
    validate_members validate_each validate_object validate_members_of validate_fields validator_at
    validate_string validate_integer check_enum check_maximum text_in int_exceeds with_default
    with_defaults is_missing is_blank is_required required_keys members unknown_keys keys_of
    is_mapping filter strip lstrip rstrip is_space Json.get Json.put validate_items
over_the_maximum = refl

validate_tool_arguments_again_example :
    (n : Fields) × (obj normalized ≡ obj n)
    × (validate_tool_arguments numbers (codes "t") schema n ≡ ok (obj n))
validate_tool_arguments_again_example =
    validate_tool_arguments_again numbers (codes "t") schema arguments (obj normalized) accepted

validate_tool_arguments-keys_example :
    (n : Fields) × (required : List Json) × (obj normalized ≡ obj n)
    × (required_keys (Json.get schema (codes "required")) ≡ ok required)
    × (unknown_keys (properties_of schema) n ≡ [])
    × ((k : Text) → is_required required k ≡ true → is_blank (Json.get n k) ≡ false)
    × ((k : Text) → is_some (Json.get arguments k) ≡ true → is_some (Json.get n k) ≡ true)
validate_tool_arguments-keys_example =
    validate_tool_arguments-keys numbers (codes "t") schema arguments (obj normalized) accepted

validate_tool_arguments-Conforms_example : Conforms numbers (obj schema) (obj normalized)
validate_tool_arguments-Conforms_example =
    validate_tool_arguments-Conforms numbers (codes "t") schema arguments (obj normalized) accepted
