-- ===== src/DesignRuns/Checks.antt =====
-- apps/api/api_app/metadata_design_runs.py at concrete inputs.
use mssql_ai_project.Base.{◌+◌, ◌≡◌, refl, true, false, none, some, ◌==◌}
use mssql_ai_project.Base.Dict
use mssql_ai_project.Base.Text.{Text, codes, text_eq, lower, is_space, lstrip}
use mssql_ai_project.Base.Json
use mssql_ai_project.Base.Json.{Json, str, Fields, empty, field}
use mssql_ai_project.Base.Result.{ok}
use mssql_ai_project.Repository.{World, MetadataDesignRunRecord}
use mssql_ai_project.Repository.Calls.{empty_repository}
use mssql_ai_project.DesignRuns.{
  MetadataDesignRunRequest, create_metadata_design_run, is_secret_like,
}
use mssql_ai_project.DesignRuns.Redacted.{TextIn, create_metadata_design_run_redacts}

abbrev world : World
world = record { uuid_hex = λ n. "0"; clock = λ n. n + 1000; repr = λ v. codes "{}" }

abbrev request : MetadataDesignRunRequest
request = record {
  conversation_id = none;
  model_payload = field (codes "message") (str (codes "use API_Key 7")) empty;
}

found_in_request : is_secret_like (codes "use API_Key 7") ≡ true
unfolding is_secret_like lower
found_in_request = refl

blanks_are_needed : is_secret_like (codes "executed; select a*; rawsql") ≡ false
unfolding is_secret_like lower is_space lstrip
blanks_are_needed = refl

create_metadata_design_run_redacts_example :
    let (r, t) = create_metadata_design_run world request empty_repository in
    (run : MetadataDesignRunRecord) × (r ≡ ok run)
    × (Dict.get t.metadata_design_runs run.run_id ≡ some run)
    × (run.status ≡ "QUEUED")
    × ((k : Text) (v : Json) (x : Text)
        → (codes "conversationId" == k) ≡ false
        → Json.get run.request k ≡ some v
        → TextIn x v
        → is_secret_like x ≡ false)
create_metadata_design_run_redacts_example =
    create_metadata_design_run_redacts world request empty_repository
