-- ===== src/Repository/Log.antt =====
-- `record_audit_event`, and the JSON that the methods put into its payload.
use mssql_ai_project.Base.{String, Option, none, some, List, [], ◌∷◌, ◌++◌}
use mssql_ai_project.Base.Text.{Text, codes}
use mssql_ai_project.Base.Json.{Json, null, str, Items, nil, cons, Fields}
use mssql_ai_project.Base.Exec.{pure, lift, modify, ◌>>=◌, ◌>>◌}
use mssql_ai_project.Repository.Records.{AuditEventRecord}
use mssql_ai_project.Repository.State.{World, Method, prefixed_id, utc_now}
use mssql_ai_project.Repository.Audit.{standardized_audit_payload}

-- the default of the parameter `actor`
abbrev pub api_system : Text
api_system = codes "api-system"

abbrev pub str_or_null : Option Text → Json
str_or_null none = null
str_or_null (some s) = str s

abbrev pub str_items : List Text → Items
str_items [] = nil
str_items (s ∷ ss) = cons (str s) (str_items ss)

module _ (w : World) where
  unfoldable pub record_audit_event :
      String → String → String → Fields → Text → Option Text → Method AuditEventRecord
  record_audit_event action target_type target_ref_id payload actor correlation_id = do
    audit_payload ← lift (
        standardized_audit_payload w.repr action target_type target_ref_id payload actor
          correlation_id)
    audit_id ← prefixed_id w "audit"
    created_at ← utc_now w
    let event : AuditEventRecord = record {
      audit_id = audit_id;
      action = action;
      target_type = target_type;
      target_ref_id = target_ref_id;
      payload = audit_payload;
      actor = actor;
      correlation_id = correlation_id;
      created_at = created_at;
    }
    modify (λ s. record s { audit_events = s.audit_events ++ event ∷ [] })
    pure event
