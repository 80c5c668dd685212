-- ===== src/Repository/Requests.antt =====
-- Work requests.
use mssql_ai_project.Base.{String, Bool, false, Option, none, some, List, ◌==◌, first_where}
use mssql_ai_project.Base.Dict
use mssql_ai_project.Base.Dict.{Dict}
use mssql_ai_project.Base.Text.{Text, codes, text_eq}
use mssql_ai_project.Base.Json.{str, arr, obj, Fields, empty, field}
use mssql_ai_project.Base.Exec.{pure, gets, modify, ◌>>=◌, ◌>>◌}
use mssql_ai_project.Lifecycle.{JobStatus, submitted}
use mssql_ai_project.TargetKey.{target_key_for_target, or_else}
use mssql_ai_project.Repository.Records.{WorkRequestRecord}
use mssql_ai_project.Repository.State.{
  World, MemoryWorkflowRepository, Method, prefixed_id, utc_now,
}
use mssql_ai_project.Repository.Log.{record_audit_event, api_system, str_or_null, str_items}

module _ (w : World) where
  unfoldable pub create_request :
      Text
      → Fields
      → List Text
      → Fields
      → Text
      → Text
      → Option Text
      → Option Text
      → Method WorkRequestRecord
  create_request db_profile_id target outputs options request_hash correlation_id idempotency_key
        target_key =
      do
        let canonical_key =
            or_else target_key
              (target_key_for_target w.repr (some db_profile_id) (some target) none)
        request_id ← prefixed_id w "req"
        created_at ← utc_now w
        updated_at ← utc_now w
        let request : WorkRequestRecord = record {
          request_id = request_id;
          db_profile_id = db_profile_id;
          target = target;
          outputs = outputs;
          options = options;
          request_hash = request_hash;
          correlation_id = correlation_id;
          idempotency_key = idempotency_key;
          target_key = canonical_key;
          status = submitted;
          created_at = created_at;
          updated_at = updated_at;
        }
        modify (λ s. record s { requests = Dict.put s.requests request_id request })
        record_audit_event w "REQUEST_SUBMITTED" "WORK_REQUEST" request_id
            (field (codes "dbProfileId") (str db_profile_id) (
              field (codes "targetKey") (str_or_null canonical_key) (
                field (codes "outputs") (arr (str_items outputs)) (
                  field (codes "tracking")
                    (obj (
                      field (codes "correlationId") (str correlation_id) (
                        field (codes "idempotencyKey") (str_or_null idempotency_key)
                          (field (codes "requestHash") (str request_hash) empty))))
                    empty))))
            api_system (some correlation_id)
        pure request

  unfoldable pub set_request_status :
      String → JobStatus → Option WorkRequestRecord → Method (Unit {0})
  set_request_status request_id status none = pure tt
  set_request_status request_id status (some request) = do
    updated_at ← utc_now w
    let changed : WorkRequestRecord = record request { status = status; updated_at = updated_at }
    modify (λ s. record s { requests = Dict.put s.requests request_id changed })

  -- An unknown request is left alone.
  unfoldable pub update_request_status : String → JobStatus → Method (Unit {0})
  update_request_status request_id status = do
    request ← gets (λ s. Dict.get s.requests request_id)
    set_request_status request_id status request

unfoldable pub get_request : String → MemoryWorkflowRepository → Option WorkRequestRecord
get_request request_id s = Dict.get s.requests request_id

-- `request.idempotency_key == idempotency_key`
abbrev pub has_key : Text → WorkRequestRecord → Bool
has_key key request = elim request.idempotency_key [ none ↦ false | some k ↦ k == key ]

unfoldable pub find_request_by_idempotency_key :
    Text → MemoryWorkflowRepository → Option WorkRequestRecord
find_request_by_idempotency_key key s = first_where (has_key key) (Dict.values s.requests)
