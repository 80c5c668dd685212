-- ===== src/Repository/Versions.antt =====
-- What `upsert_knowledge_asset` does to the contents of the assets, seen by their logical keys.
pub mod Assets
pub mod Same
pub mod Contents
pub mod Writes
pub mod Asset
use Prim.Native.String.{◌++◌}
use text.Mathlib.TextLemmas.{append-eq-nil_iff}
use text.Mathlib.TextEquality.{eq_iff}
use mssql_ai_project.Base.{
  ℕ, ◌+◌, String, Bool, true, false, ◌&&◌, ◌≡◌, refl, sym, ◌∙◌, Option, none, some, List, [], ◌∷◌,
  ◌++◌ as ◌++ˡ◌, ◌==◌, string_eq, if◌then◌else◌, ◌⊎◌, inl, inr, Bool-cases, Option-cases, arith,
  subst, ap,
}
use mssql_ai_project.Base.Dict
use mssql_ai_project.Base.Dict.{Dict, get-put_self}
use mssql_ai_project.Base.Text.{Text, codes, text_eq, text_beq_iff}
use mssql_ai_project.Base.Json
use mssql_ai_project.Base.Json.{Json, Fields}
use mssql_ai_project.Base.Result.{Result, ok, err, Result-cases}
use mssql_ai_project.Base.Exec.{Exec, pure, lift, gets, or_raise, modify, continue, ◌>>=◌}
use mssql_ai_project.Base.Exec.Keeps.{IsKept, Keeps, Keeps-modify, keeps_rules}
use mssql_ai_project.Repository.Records.{
  KnowledgeAssetRecord, KnowledgeAssetVersionRecord, AuditEventRecord,
}
use mssql_ai_project.Repository.State.{
  RepositoryError, World, MemoryWorkflowRepository, Method, prefixed_id, utc_now,
}
use mssql_ai_project.Repository.Audit.{
  standardized_audit_payload, with_correlation, with_defaults, mapping_of, set_default,
}
use mssql_ai_project.Repository.Log.{record_audit_event, api_system}
use mssql_ai_project.Repository.Knowledge.{
  find_asset, change_asset, id_given, has_content, with_version, with_source_job, with_target_key,
  id_or_empty, reuse_version, store_version, new_version, put_content, obtain_asset, new_asset,
  keep_asset, versioned_payload, upsert_knowledge_asset, target_logical_key, type_of_target,
  schema_of_target, name_of_target,
}
use mssql_ai_project.TargetKey.{target_key_for_target}
use mssql_ai_project.Repository.ContentKeeps.{facts-Keeps, edges-Keeps}
use mssql_ai_project.Repository.Versions.Assets.{
  Content, SameContent, content_of, append, update, find_asset-put, find_asset-change_asset,
  with_source_job-SameContent, with_target_key-SameContent, content_of-update, append_current,
  append_versioned, update_off, has_content_same,
}
use mssql_ai_project.Repository.Versions.Same.{
  returns, SameKnowledge, same_knowledge, prefixed_id-SameKnowledge, utc_now-SameKnowledge,
  log-SameKnowledge, record_audit_event-SameKnowledge, versioned_payload-returns,
  record_audit_event-returns,
}
use mssql_ai_project.Repository.Versions.Contents.{
  ok_inj, Appends, IsCurrent, Puts, found_at, found_none, Puts-err, Appends-same, Appends-next,
  found_changed, Puts-same, Puts-after, Puts-before,
}
use mssql_ai_project.Repository.Versions.Writes.{
  fresh_id-given, Puts-reuse, Puts-store, Puts-new, Puts-content,
}
use mssql_ai_project.Repository.Versions.Asset.{Obtains, Obtains-put, Obtains-asset}

module _ (key h : Text) where
  Puts-obtained :
      (w : World) (s : MemoryWorkflowRepository) (j : Option String) (kind : Text) (t : Option Text)
      (p : Fields) (facts edges : List Json) (o : Method KnowledgeAssetRecord)
      → Obtains key s (o s).0 (o s).1
      → Puts key h s
          ((o >>= put_content w j kind key t p facts edges h) s).0
          ((o >>= put_content w j kind key t p facts edges h) s).1
  unfolding ◌>>=◌ Appends
  Puts-obtained w s j kind t p facts edges o g =
      let q = Puts-content key h w j g.asset kind t p facts edges (o s).1 g.found in
      rw g.returned
        (record { contents = λ k. rw (sym (g.contents k)) (q.contents k); current = q.current })

module _ (w : World) (j : Option String) (profile kind : Text) (target p : Fields)
    (facts edges : List Json) (h : Text) (s : MemoryWorkflowRepository) where
  Puts-upsert :
      Dict.get s.knowledge_assets (("know" ++ "_") ++ w.uuid_hex s.ids_drawn) ≡ none
      → Puts
          (target_logical_key w profile kind target)
          h
          s
          (upsert_knowledge_asset w j profile kind target p facts edges h s).0
          (upsert_knowledge_asset w j profile kind target p facts edges h s).1
  unfolding upsert_knowledge_asset ◌>>=◌ gets
  Puts-upsert fresh =
      let key : Text = target_logical_key w profile kind target in
      let t : Option Text = target_key_for_target w.repr (some profile) (some target) none in
      let o : Method KnowledgeAssetRecord =
        obtain_asset w j kind profile (type_of_target w target) (schema_of_target w target)
          (name_of_target w target) key t (find_asset key s.knowledge_assets) in
      Puts-obtained key h w s j kind t p facts edges o (
        Obtains-asset key w j kind profile _ _ _ t s fresh (find_asset key s.knowledge_assets) refl)

  upsert-current :
      (v : KnowledgeAssetVersionRecord)
      → IsCurrent (target_logical_key w profile kind target) h v s
      → let (r, t) = upsert_knowledge_asset w j profile kind target p facts edges h s in
        (r ≡ ok v)
        × (t.knowledge_versions ≡ s.knowledge_versions)
        × (t.audit_events ≡ s.audit_events)
  unfolding upsert_knowledge_asset ◌>>=◌ gets obtain_asset keep_asset put_content reuse_version
      or_raise modify pure IsCurrent
  upsert-current v (a, f, c, d) =
      let t : Option Text = target_key_for_target w.repr (some profile) (some target) none in
      let same = with_target_key-SameContent t a in
      rw (f, has_content_same a (with_target_key t a) h same, c) (rw (same.3, d) (refl, refl, refl))

-- When the id that is drawn for an asset is not yet the id of one, then after a call of
-- `upsert_knowledge_asset` the asset under the logical key of the target has the content hash `h`
-- appended to its versions (a hash that is the current one gets no new version number) when the call
-- returns, and the number of versions and current hash it had (none of an absent asset) when it
-- raises; what stands under every other logical key is the same as before.
pub upsert_knowledge_asset-append :
    (w : World) (job_id : Option String) (profile kind : Text) (target payload : Fields)
    (facts edges : List Json) (h : Text) (s : MemoryWorkflowRepository)
    → Dict.get s.knowledge_assets (("know" ++ "_") ++ w.uuid_hex s.ids_drawn) ≡ none
    → (k : Text)
    → let (r, t) = upsert_knowledge_asset w job_id profile kind target payload facts edges h s in
      content_of (find_asset k t.knowledge_assets) ≡ (
        if target_logical_key w profile kind target == k && returns r
        then append h (content_of (find_asset k s.knowledge_assets))
        else content_of (find_asset k s.knowledge_assets))
unfolding Appends
upsert_knowledge_asset-append w j profile kind target p facts edges h s fresh =
    (Puts-upsert w j profile kind target p facts edges h s fresh).contents

-- When `upsert_knowledge_asset` returns a version, on a state in which the id that is drawn for an
-- asset is not yet the id of one, then a further call for the same profile, kind, target and content
-- hash, whatever its job, payload, facts and edges, returns that same version, and neither adds a
-- version nor logs an event.
pub upsert_knowledge_asset_again :
    (w : World) (job_id : Option String) (profile kind : Text) (target payload : Fields)
    (facts edges : List Json) (h : Text) (s t : MemoryWorkflowRepository)
    (v : KnowledgeAssetVersionRecord)
    → Dict.get s.knowledge_assets (("know" ++ "_") ++ w.uuid_hex s.ids_drawn) ≡ none
    → upsert_knowledge_asset w job_id profile kind target payload facts edges h s ≡ (ok v, t)
    → (job_id' : Option String) (payload' : Fields) (facts' edges' : List Json)
    → let (r, u) =
        upsert_knowledge_asset w job_id' profile kind target payload' facts' edges' h t in
      (r ≡ ok v) × (u.knowledge_versions ≡ t.knowledge_versions) × (u.audit_events ≡ t.audit_events)
upsert_knowledge_asset_again w j profile kind target p facts edges h s t v fresh run j' p' facts'
      edges' =
    let key : Text = target_logical_key w profile kind target in
    let puts = Puts-upsert w j profile kind target p facts edges h s fresh in
    let now : IsCurrent key h v t =
      subst (λ x. IsCurrent key h v x) (ap (λ x. x.1) run) (puts.current v (ap (λ x. x.0) run)) in
    upsert-current w j' profile kind target p' facts' edges' h t v now
