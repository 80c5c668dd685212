-- ===== src/Repository/Collections.antt =====
-- Metadata collections and agent runs of a job.
use mssql_ai_project.Base.{
  String, Bool, Option, none, some, List, [], ◌∷◌, ◌==◌, filter, elem, string_eq, if◌then◌else◌,
}
use mssql_ai_project.Base.Dict
use mssql_ai_project.Base.Dict.{Dict}
use mssql_ai_project.Base.Int.{ℤ}
use mssql_ai_project.Base.Sort.{sort_by, key_ltb}
use mssql_ai_project.Base.Text.{Text, codes, text_eq}
use mssql_ai_project.Base.Json
use mssql_ai_project.Base.Json.{Json, null, str, obj, Fields, empty, field}
use mssql_ai_project.Base.Exec.{pure, gets, modify, ◌>>=◌, ◌>>◌}
use mssql_ai_project.Repository.Records.{MetadataCollectionRecord, AgentRunRecord}
use mssql_ai_project.Repository.State.{
  World, MemoryWorkflowRepository, Method, prefixed_id, utc_now,
}
use mssql_ai_project.Repository.Log.{record_audit_event, api_system, str_or_null}
use mssql_ai_project.Repository.Jobs.{bounded}
use mssql_ai_project.Repository.Artifacts.{job_correlation}

-- `payload.get(key)` as a value
abbrev pub value_or_null : Option Json → Json
value_or_null none = null
value_or_null (some v) = v

-- The keys that `_public_model_invocation` lets through.
unfoldable pub public_invocation_keys : List Text
public_invocation_keys =
    codes "provider"
    ∷ codes "model"
    ∷ codes "modelProfileId"
    ∷ codes "modelRegistryRef"
    ∷ codes "reasoningEffort"
    ∷ codes "promptVersion"
    ∷ codes "outputSchemaVersion"
    ∷ codes "inputHash"
    ∷ codes "promptHash"
    ∷ codes "outputHash"
    ∷ codes "status"
    ∷ codes "tokenUsage"
    ∷ codes "latencyMs"
    ∷ codes "analysisCoverage"
    ∷ codes "sourceContextSummary"
    ∷ codes "componentInvocations"
    ∷ []

-- `{key: value for key, value in payload.items() if key in keys}`
unfoldable pub restrict : List Text → Fields → Fields
restrict keys empty = empty
restrict keys (field k v d) =
    let rest = restrict keys d in if elem k keys then field k v rest else rest

unfoldable pub public_model_invocation : Fields → Fields
public_model_invocation = restrict public_invocation_keys

module _ (w : World) where
  unfoldable pub save_metadata_collection : String → Text → Fields → Method MetadataCollectionRecord
  save_metadata_collection job_id status payload = do
    metadata_id ← prefixed_id w "meta"
    created_at ← utc_now w
    let collection : MetadataCollectionRecord = record {
      metadata_id = metadata_id;
      job_id = job_id;
      status = status;
      payload = payload;
      created_at = created_at;
    }
    modify (λ s. record s {
      metadata_collections = Dict.put s.metadata_collections metadata_id collection;
    })
    job ← gets (λ s. Dict.get s.jobs job_id)
    record_audit_event w "METADATA_COLLECTED" "JOB" job_id
        (field (codes "status") (str status) (
          field (codes "snapshotId") (value_or_null (Json.get payload (codes "snapshotId"))) empty))
        api_system (job_correlation job)
    pure collection

  unfoldable pub save_agent_run :
      String → Text → Text → Text → Text → Fields → Fields → Option Text → Method AgentRunRecord
  save_agent_run job_id agent_type status target_ref summary structured_output model_invocation
        target_key =
      do
        agent_run_id ← prefixed_id w "agent"
        created_at ← utc_now w
        let agent_run : AgentRunRecord = record {
          agent_run_id = agent_run_id;
          job_id = job_id;
          agent_type = agent_type;
          status = status;
          target_ref = target_ref;
          summary = summary;
          structured_output = structured_output;
          model_invocation = model_invocation;
          target_key = target_key;
          created_at = created_at;
        }
        modify (λ s. record s { agent_runs = Dict.put s.agent_runs agent_run_id agent_run })
        job ← gets (λ s. Dict.get s.jobs job_id)
        record_audit_event w "AGENT_RUN_RECORDED" "JOB" job_id
            (field (codes "agentRunId") (str (codes agent_run_id)) (
              field (codes "agentType") (str agent_type) (
                field (codes "status") (str status) (
                  field (codes "targetRef") (str target_ref) (
                    field (codes "targetKey") (str_or_null target_key) (
                      field (codes "modelInvocation")
                        (obj (public_model_invocation model_invocation)) empty))))))
            api_system (job_correlation job)
        pure agent_run

-- `records[-1] if records else None`
unfoldable pub last_item {ℓ} : {A : Type ℓ} → List A → Option A
last_item [] = none
last_item (x ∷ []) = some x
last_item (x ∷ y ∷ ys) = last_item (y ∷ ys)

unfoldable pub latest_metadata_for_job :
    String → MemoryWorkflowRepository → Option MetadataCollectionRecord
latest_metadata_for_job job_id s =
    last_item (filter (λ r. r.job_id == job_id) (Dict.values s.metadata_collections))

abbrev pub newer_run : AgentRunRecord → AgentRunRecord → Bool
newer_run a b = key_ltb (b.created_at, b.agent_run_id) (a.created_at, a.agent_run_id)

unfoldable pub list_agent_runs :
    String → Option ℤ → MemoryWorkflowRepository → Option (List AgentRunRecord)
list_agent_runs job_id limit s =
    if Dict.contains s.jobs job_id
    then some (
        bounded limit
          (sort_by newer_run (filter (λ r. r.job_id == job_id) (Dict.values s.agent_runs))))
    else none
