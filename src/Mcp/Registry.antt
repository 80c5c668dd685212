-- ===== src/Mcp/Registry.antt =====
-- services/mssql-mcp/mssql_mcp_app/registry.py: the checks of `invoke_payload` before it asks the cache
-- or the repository. The model of a request (`ToolInvokeRequest`) is a parameter: how it reads
-- a payload, or raises.
pub mod Prepared
use mssql_ai_project.Base.{
  String, Bool, true, false, not, ◌&&◌, ◌||◌, Option, none, some, List, [], ◌∷◌, ◌==◌, map,
  if◌then◌else◌,
}
use mssql_ai_project.Base.Text.{Text, codes, text_eq, lower}
use mssql_ai_project.Base.Json
use mssql_ai_project.Base.Json.{Json, str, obj, Fields}
use mssql_ai_project.Base.Values.{truthy, py_str}
use mssql_ai_project.Base.Result.{Result, ok, err, ◌>>=◌, ◌>>◌}
use mssql_ai_project.Mcp.Guardrails.{ReadOnlyViolation, enforce_read_only_arguments}
use mssql_ai_project.Mcp.Schema.{Numbers, SchemaError, validate_tool_arguments, fields_of}

-- `ToolSpec` of services/mssql-mcp/mssql_mcp_app/catalog.py
pub record ToolSpec : Type 0 where
  pub name : Text
  pub description : Text
  pub input_schema : Fields
  pub read_only : Bool
  pub active : Bool

-- A profile, as far as the registry reads it.
pub record DbProfile : Type 0 where
  pub id : Text
  pub database : Text

pub data RegistryError : Type 0 where
  unknown_tool : Text → RegistryError
  not_active : Text → Bool → Bool → RegistryError
  invalid_request : Text → RegistryError
  read_only_violation : ReadOnlyViolation → RegistryError
  invalid_arguments : SchemaError → RegistryError
  profile_not_found : Option Json → RegistryError
  other_database : Text → Json → Text → RegistryError

-- `self._tools.get(tool_name)`: of two tools with one name the dict holds the later one
unfoldable pub tool_named : Text → List ToolSpec → Option ToolSpec
tool_named name [] = none
tool_named name (tool ∷ catalog) = elim (tool_named name catalog) [
  | some later ↦ some later
  | none ↦ if tool.name == name then some tool else none
]

unfoldable pub check_active : Text → ToolSpec → Result RegistryError ToolSpec
check_active name tool =
    if not tool.read_only || not tool.active
    then err (not_active name tool.read_only tool.active)
    else ok tool

unfoldable pub get_tool : List ToolSpec → Text → Result RegistryError ToolSpec
get_tool catalog name = elim (tool_named name catalog) [
  | none ↦ err (unknown_tool name)
  | some tool ↦ check_active name tool
]

unfoldable pub profile_by_id : List DbProfile → Option Json → Option DbProfile
profile_by_id [] profile_id = none
profile_by_id (profile ∷ profiles) (some (str i)) =
    let rest = profile_by_id profiles (some (str i)) in
    if profile.id == i then some profile else rest
profile_by_id (profile ∷ profiles) profile_id = profile_by_id profiles profile_id

unfoldable pub allowed_guardrail_paths : Text → List Text
allowed_guardrail_paths name =
    if name == codes "search_metadata_objects" then codes "arguments.query" ∷ [] else []

module _ (repr : Json → Text) where
  -- `str(requested_database).lower() == profile.database.lower()`, or the profile `master`
  unfoldable pub may_probe : DbProfile → Json → Bool
  may_probe profile requested =
      not (truthy requested)
      || profile.id == codes "master"
      || lower (py_str repr requested) == lower profile.database

  unfoldable pub validate_database_probe_boundary :
      DbProfile → Option Json → Result RegistryError (Unit {0})
  validate_database_probe_boundary profile none = ok tt
  validate_database_probe_boundary profile (some requested) =
      if may_probe profile requested
      then ok tt
      else err (other_database profile.id requested profile.database)

  unfoldable pub check_probe : Text → Fields → DbProfile → Result RegistryError DbProfile
  check_probe name arguments profile =
      if name == codes "check_database_exists"
      then validate_database_probe_boundary profile (Json.get arguments (codes "databaseName"))
        >> ok profile
      else ok profile

  unfoldable pub validate_profile : List DbProfile → Text → Fields → Result RegistryError DbProfile
  validate_profile profiles name arguments =
      elim (profile_by_id profiles (Json.get arguments (codes "dbProfileId"))) [
        | none ↦ err (profile_not_found (Json.get arguments (codes "dbProfileId")))
        | some profile ↦ check_probe name arguments profile
      ]

abbrev pub guarded : Result ReadOnlyViolation (Unit {0}) → Result RegistryError (Unit {0})
guarded (ok u) = ok tt
guarded (err e) = err (read_only_violation e)

abbrev pub validated : Result SchemaError Json → Result RegistryError Json
validated (ok v) = ok v
validated (err e) = err (invalid_arguments e)

module _ (repr : Json → Text) (numbers : Numbers) (parse_request : Option Fields → Option Fields)
    (catalog : List ToolSpec) (profiles : List DbProfile) where
  abbrev pub request_or : Text → Option Fields → Result RegistryError Fields
  request_or name none = err (invalid_request name)
  request_or name (some arguments) = ok arguments

  -- the first part of `invoke_payload`, up to the key of the cache
  unfoldable pub prepare :
      Text → Option Fields → Result RegistryError (ToolSpec × Fields × Fields × DbProfile)
  prepare tool_name payload = do
    tool ← get_tool catalog tool_name
    raw_arguments ← request_or tool_name (parse_request payload)
    guarded (
        enforce_read_only_arguments (allowed_guardrail_paths tool.name) (obj raw_arguments)
          (codes "arguments"))
    value ← validated (validate_tool_arguments numbers tool.name tool.input_schema raw_arguments)
    let arguments : Fields = fields_of (some value)
    profile ← validate_profile repr profiles tool.name arguments
    ok (tool, raw_arguments, arguments, profile)
