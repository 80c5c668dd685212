-- ===== src/Repository/Audit.antt =====
-- `standardized_audit_payload` of apps/api/api_app/repositories.py, and `record_audit_event`.
use mssql_ai_project.Base.{
  String, Bool, true, false, Option, none, some, List, [], ◌∷◌, map, string_eq, if◌then◌else◌,
  is_some, take, nat_beq,
}
use mssql_ai_project.Base.Dict
use mssql_ai_project.Base.Dict.{Dict}
use mssql_ai_project.Base.Text.{Text, codes, upper, is_empty}
use mssql_ai_project.Base.Json
use mssql_ai_project.Base.Json.{Json, null, str, arr, obj, Items, nil, cons, Fields, empty, field}
use mssql_ai_project.Base.Values.{truthy, py_str}
use mssql_ai_project.Base.Result.{Result, ok, err, ◌>>=◌}
use mssql_ai_project.Repository.State.{RepositoryError, not_a_mapping, not_a_pair}

unfoldable pub audit_stage_by_action : Dict String
audit_stage_by_action =
    ("REQUEST_SUBMITTED", "REQUEST")
    ∷ ("IDEMPOTENT_REQUEST_REPLAYED", "REQUEST")
    ∷ ("JOB_TRANSITIONED", "JOB")
    ∷ ("JOB_FAILED", "JOB")
    ∷ ("METADATA_COLLECTED", "METADATA")
    ∷ ("AGENT_RUN_RECORDED", "AGENT_RUNTIME")
    ∷ ("ARTIFACT_CREATED", "ARTIFACT")
    ∷ ("ARTIFACT_VALIDATED", "VALIDATION")
    ∷ ("KNOWLEDGE_ASSET_VERSIONED", "KNOWLEDGE")
    ∷ ("KNOWLEDGE_EXPORTED", "KNOWLEDGE")
    ∷ []

-- `target_type.replace("-", "_").replace(" ", "_").upper()`
unfoldable pub stage_of_type : Text → Text
stage_of_type t =
    upper (map (λ c. if nat_beq c 32 then b'_' else if nat_beq c b'-' then b'_' else c) t)

unfoldable pub audit_stage : String → String → Text
audit_stage action target_type = elim (Dict.get audit_stage_by_action action) [
  | none ↦ stage_of_type (codes target_type)
  | some stage ↦ codes stage
]

-- The key and the value that `dict` reads from an item of a list: a list, a text or a dict of two
-- elements. A mapping of the model has texts as keys, so that a key `None`, a number or a bool, which
-- `dict` takes as well, is refused here with the keys that cannot be hashed.
pair_with : Json → Json → Result RepositoryError (Text × Json)
pair_with (str k) v = ok (k, v)
pair_with k v = err (not_a_mapping k)

unfoldable pub pair_of : Json → Result RepositoryError (Text × Json)
unfolding pair_with
pair_of (arr (cons k (cons v nil))) = pair_with k v
pair_of (arr vs) = err (not_a_pair (arr vs))
pair_of (str (c ∷ d ∷ [])) = ok (c ∷ [], str (d ∷ []))
pair_of (str s) = err (not_a_pair (str s))
pair_of (obj (field k v (field j u empty))) = ok (k, str j)
pair_of (obj d) = err (not_a_pair (obj d))
pair_of v = err (not_a_mapping v)

-- `dict` of a list: the first item that is no pair raises, and a later pair replaces an earlier one.
unfoldable pub pairs_of : Fields → Items → Result RepositoryError Fields
pairs_of d nil = ok d
pairs_of d (cons v vs) = do pair ← pair_of v; pairs_of (Json.put d pair.0 pair.1) vs

-- `dict(payload.get(key) or {})`
unfoldable pub mapping_of : Option Json → Result RepositoryError Fields
mapping_of none = ok empty
mapping_of (some (obj d)) = ok d
mapping_of (some (arr vs)) = pairs_of empty vs
mapping_of (some (str s)) = if is_empty s then ok empty else err (not_a_pair (str s))
mapping_of (some v) = if truthy v then err (not_a_mapping v) else ok empty

-- `payload.setdefault(key, value)`
unfoldable pub set_default : Fields → Text → Json → Fields
set_default d k v = if is_some (Json.get d k) then d else Json.put d k v

abbrev pub ref_keys : List Text
ref_keys =
    codes "requestId"
    ∷ codes "jobId"
    ∷ codes "metadataId"
    ∷ codes "artifactId"
    ∷ codes "validationReportId"
    ∷ []

module _ (repr : Json → Text) where
  -- one round of the loop over the ids that a payload refers to
  unfoldable pub add_ref : Fields → Text → Option Json → Fields
  add_ref refs key none = refs
  add_ref refs key (some null) = refs
  add_ref refs key (some v) = Json.put refs key (str (take 128 (py_str repr v)))

  unfoldable pub collect_refs : Fields → List Text → Fields → Fields
  collect_refs payload [] refs = refs
  collect_refs payload (key ∷ keys) refs =
      collect_refs payload keys (add_ref refs key (Json.get payload key))

-- `if correlation_id:`
abbrev pub given : Option Text → Bool
given none = false
given (some []) = false
given (some (c ∷ s)) = true

unfoldable pub with_correlation : Fields → Option Text → Result RepositoryError Fields
with_correlation payload none = ok payload
with_correlation payload (some []) = ok payload
with_correlation payload (some (c ∷ s)) = do
  tracking ← mapping_of (Json.get payload (codes "tracking"))
  ok (
      Json.put
        (Json.put payload (codes "tracking")
          (obj (Json.put tracking (codes "correlationId") (str (c ∷ s)))))
        (codes "correlationId") (str (c ∷ s)))

unfoldable pub is_empty_mapping : Fields → Bool
is_empty_mapping empty = true
is_empty_mapping (field k v d) = false

unfoldable pub with_defaults : String → String → String → Text → Fields → Fields
with_defaults action target_type target_ref_id actor payload =
    set_default
      (set_default (set_default payload (codes "stage") (str (audit_stage action target_type)))
        (codes "actor") (str actor))
      (codes "targetRef")
      (obj (
        field (codes "type") (str (codes target_type))
          (field (codes "id") (str (codes target_ref_id)) empty)))

module _ (repr : Json → Text) where
  unfoldable pub standardized_audit_payload :
      String → String → String → Fields → Text → Option Text → Result RepositoryError Fields
  standardized_audit_payload action target_type target_ref_id payload actor correlation_id = do
    tracked ← with_correlation payload correlation_id
    let full = with_defaults action target_type target_ref_id actor tracked
    given_refs ← mapping_of (Json.get full (codes "refs"))
    let refs = collect_refs repr full ref_keys given_refs
    ok (if is_empty_mapping refs then full else Json.put full (codes "refs") (obj refs))
