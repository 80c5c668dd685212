-- ===== src/Mcp/Registry/Prepared.antt =====
-- What holds of a call of a tool that passes the checks.
use mssql_ai_project.Base.{
  ◌≡◌, refl, sym, ◌∙◌, subst, true, false, not, ◌||◌, Option, some, List, ◌==◌, arith, Bool-cases,
  Option-cases, inl, inr,
}
use mssql_ai_project.Base.Text.{Text, codes, text_eq}
use mssql_ai_project.Base.Json
use mssql_ai_project.Base.Json.{Json, obj, Fields}
use mssql_ai_project.Base.Result.{Result, ok, err}
use mssql_ai_project.Mcp.Guardrails.{
  ReadOnlyViolation, enforce_read_only_arguments, NothingRefused, enforce_read_only_arguments_iff,
}
use mssql_ai_project.Mcp.Schema.{Numbers, SchemaError, validate_tool_arguments, fields_of}
use mssql_ai_project.Mcp.Schema.Again.{ok_or, bind_ok, first_ok, value_of}
use mssql_ai_project.Mcp.Schema.Results.{validate_tool_arguments_again}
use mssql_ai_project.Mcp.Schema.Conformance.{Conforms}
use mssql_ai_project.Mcp.Schema.Conforming.{validate_tool_arguments-Conforms}
use mssql_ai_project.Mcp.Registry.{
  ToolSpec, DbProfile, tool_named, check_active, get_tool, profile_by_id, allowed_guardrail_paths,
  may_probe, validate_database_probe_boundary, check_probe, validate_profile, guarded, validated,
  request_or, prepare,
}

guarded_ok : (r : Result ReadOnlyViolation (Unit {0})) → guarded r ≡ ok tt → r ≡ ok tt
guarded_ok (ok u) h = refl
guarded_ok (err e) h = ground arith

validated_ok : (r : Result SchemaError Json) (v : Json) → validated r ≡ ok v → r ≡ ok v
validated_ok (ok u) v h =
    subst (λ x. Path (Result SchemaError Json) (ok u) (ok x)) (value_of h) refl
validated_ok (err e) v h = ground arith

get_tool_ok :
    (catalog : List ToolSpec) (name : Text) (tool : ToolSpec)
    → get_tool catalog name ≡ ok tool
    → (tool_named name catalog ≡ some tool) × (tool.read_only ≡ true) × (tool.active ≡ true)
unfolding get_tool check_active
get_tool_ok catalog name tool h = elim (Option-cases (tool_named name catalog)) [
  | inl e ↦ let z = rw (e, get_tool) at h in ground arith
  | inr (t, e) ↦
      let (live, y) =
        ok_or (not t.read_only || not t.active) _ (ok t) tool (rw (e, get_tool) at h) in
      subst (λ x. (tool_named name catalog ≡ some x) × (x.read_only ≡ true) × (x.active ≡ true))
        (value_of y) (e, ground arith, ground arith)
]

abbrev Probes : (Json → Text) → Text → Fields → DbProfile → Type 0
Probes repr name arguments profile =
    (name == codes "check_database_exists") ≡ true
    → (d : Json) → Json.get arguments (codes "databaseName") ≡ some d
    → may_probe repr profile d ≡ true

check_probe_ok :
    (repr : Json → Text) (name : Text) (arguments : Fields) (p profile : DbProfile)
    → check_probe repr name arguments p ≡ ok profile
    → (p ≡ profile) × Probes repr name arguments p
unfolding check_probe validate_database_probe_boundary
check_probe_ok repr name arguments p profile h =
    elim (Bool-cases (name == codes "check_database_exists")) [
      | inr e ↦ (value_of (rw e at h), λ y. let z : true ≡ false = sym y ∙ e in ground arith)
      | inl e ↦
          let (a, b) =
            first_ok
              (validate_database_probe_boundary repr p (Json.get arguments (codes "databaseName")))
              (ok p) profile (rw e at h) in
          (
            value_of b,
            λ y d g. elim (Bool-cases (may_probe repr p d)) [
              | inl q ↦ q
              | inr q ↦ let z = rw (g, q) at a in ground arith
            ],
          )
    ]

validate_profile_ok :
    (repr : Json → Text) (profiles : List DbProfile) (name : Text) (arguments : Fields)
    (profile : DbProfile)
    → validate_profile repr profiles name arguments ≡ ok profile
    → (profile_by_id profiles (Json.get arguments (codes "dbProfileId")) ≡ some profile)
      × Probes repr name arguments profile
unfolding validate_profile
validate_profile_ok repr profiles name arguments profile h =
    elim (Option-cases (profile_by_id profiles (Json.get arguments (codes "dbProfileId")))) [
      | inl e ↦ let z = rw (e, validate_profile) at h in ground arith
      | inr (p, e) ↦
          let (same, probes) =
            check_probe_ok repr name arguments p profile (rw (e, validate_profile) at h) in
          subst
            (λ x.
              (profile_by_id profiles (Json.get arguments (codes "dbProfileId")) ≡ some x)
              × Probes repr name arguments x)
            same (e, probes)
    ]

abbrev Passed :
    (Json → Text)
    → Numbers
    → List ToolSpec
    → List DbProfile
    → Text
    → ToolSpec × Fields × Fields × DbProfile
    → Type 0
Passed repr numbers catalog profiles name (tool, raw, arguments, profile) =
    (tool_named name catalog ≡ some tool)
    × (tool.read_only ≡ true)
    × (tool.active ≡ true)
    × NothingRefused (allowed_guardrail_paths tool.name) (obj raw) (codes "arguments")
    × Conforms numbers (obj tool.input_schema) (obj arguments)
    × (profile_by_id profiles (Json.get arguments (codes "dbProfileId")) ≡ some profile)
    × Probes repr tool.name arguments profile

-- A call gets past the checks of `invoke_payload` only if its tool is the one that the catalog holds
-- under its name, read-only and active; no key of its arguments is one that the guard refuses; the
-- arguments that are handed on conform to the input schema of the tool; its profile is the registered
-- one that they name; and `check_database_exists` is asked for another database than that of the
-- profile only from the profile `master`.
pub prepare_lem :
    (repr : Json → Text) (numbers : Numbers) (parse_request : Option Fields → Option Fields)
    (catalog : List ToolSpec) (profiles : List DbProfile) (name : Text) (payload : Option Fields)
    (tool : ToolSpec) (raw arguments : Fields) (profile : DbProfile)
    → prepare repr numbers parse_request catalog profiles name payload
      ≡ ok (tool, raw, arguments, profile)
    → (tool_named name catalog ≡ some tool)
      × (tool.read_only ≡ true)
      × (tool.active ≡ true)
      × NothingRefused (allowed_guardrail_paths tool.name) (obj raw) (codes "arguments")
      × Conforms numbers (obj tool.input_schema) (obj arguments)
      × (profile_by_id profiles (Json.get arguments (codes "dbProfileId")) ≡ some profile)
      × ((tool.name == codes "check_database_exists") ≡ true
          → (d : Json) → Json.get arguments (codes "databaseName") ≡ some d
          → may_probe repr profile d ≡ true)
unfolding prepare
prepare_lem repr numbers parse catalog profiles name payload tool raw arguments profile h =
    let (t, a, h1) = bind_ok (get_tool catalog name) _ _ h in
    let (r, b, h2) =
      bind_ok (request_or repr numbers parse catalog profiles name (parse payload)) _ _ h1 in
    let guard =
      enforce_read_only_arguments (allowed_guardrail_paths t.name) (obj r) (codes "arguments") in
    let (c, h3) = first_ok (guarded guard) _ _ h2 in
    let (v, d, h4) =
      bind_ok (validated (validate_tool_arguments numbers t.name t.input_schema r)) _ _ h3 in
    let (p, e, z) = bind_ok (validate_profile repr profiles t.name (fields_of (some v))) _ _ h4 in
    let q = value_of z in
    let found = get_tool_ok catalog name t a in
    let checked = validated_ok (validate_tool_arguments numbers t.name t.input_schema r) v d in
    let (n, same, _) = validate_tool_arguments_again numbers t.name t.input_schema r v checked in
    let conforms : Conforms numbers (obj t.input_schema) (obj (fields_of (some v))) =
      subst
        (λ x.
          Conforms numbers (obj t.input_schema) x
          → Conforms numbers (obj t.input_schema) (obj (fields_of (some x))))
        (sym same) (λ y. y)
        (validate_tool_arguments-Conforms numbers t.name t.input_schema r v checked) in
    let (pf, probes) = validate_profile_ok repr profiles t.name (fields_of (some v)) p e in
    subst (Passed repr numbers catalog profiles name) q (
      found.0,
      found.1,
      found.2,
      (enforce_read_only_arguments_iff (allowed_guardrail_paths t.name) (obj r)
            (codes "arguments")).0
          (guarded_ok guard c),
      conforms,
      pf,
      probes,
    )
