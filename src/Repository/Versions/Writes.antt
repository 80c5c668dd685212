-- ===== src/Repository/Versions/Writes.antt =====
-- The two branches of `upsert_knowledge_asset`: the version that is there, or a new one.
use Prim.Native.String.{◌++◌}
use text.Mathlib.TextLemmas.{append-eq-nil_iff}
use text.Mathlib.TextEquality.{eq_iff}
use mssql_ai_project.Base.{
  ◌+◌, String, Bool, true, false, ◌≡◌, refl, ◌∙◌, Option, some, List, ◌==◌, string_eq, inl, inr,
  Bool-cases, Option-cases, arith, ap,
}
use mssql_ai_project.Base.Dict
use mssql_ai_project.Base.Dict.{Dict, get-put_self}
use mssql_ai_project.Base.Text.{Text, text_eq, text_beq_iff}
use mssql_ai_project.Base.Json.{Json, Fields}
use mssql_ai_project.Base.Exec.{pure, gets, or_raise, modify, ◌>>=◌}
use mssql_ai_project.Repository.Records.{KnowledgeAssetRecord, KnowledgeAssetVersionRecord}
use mssql_ai_project.Repository.State.{World, MemoryWorkflowRepository, prefixed_id, utc_now}
use mssql_ai_project.Repository.Knowledge.{
  find_asset, id_given, has_content, with_version, with_source_job, id_or_empty, reuse_version,
  store_version, new_version, put_content,
}
use mssql_ai_project.Repository.ContentKeeps.{facts-Keeps, edges-Keeps}
use mssql_ai_project.Repository.Versions.Assets.{
  SameContent, with_source_job-SameContent, append_versioned, has_content_same,
}
use mssql_ai_project.Repository.Versions.Same.{
  SameKnowledge, same_knowledge, prefixed_id-SameKnowledge, utc_now-SameKnowledge,
  record_audit_event-SameKnowledge, versioned_payload-returns, record_audit_event-returns,
}
use mssql_ai_project.Repository.Versions.Contents.{
  ok_inj, IsCurrent, Puts, Puts-err, Appends-same, Appends-next, found_changed, Puts-same,
  Puts-after, Puts-before,
}

pub fresh_id-given : (x : String) → id_given (some (("knowv" ++ "_") ++ x)) ≡ true
unfolding id_given
fresh_id-given x = elim (Bool-cases ((("knowv" ++ "_") ++ x) == "")) [
  | inr e ↦ rw e refl
  | inl e ↦
      let q : "knowv" ++ "_" ≡ "" =
        (append-eq-nil_iff.0 ((eq_iff (("knowv" ++ "_") ++ x) "").0 e)).0 in
      let z : Bool.false ≡ true = (eq_iff ("knowv" ++ "_") "").1 q in ground arith
]

module _ (key h : Text) where
  -- the version that is there already
  pub Puts-reuse :
      (w : World) (j : Option String) (a : KnowledgeAssetRecord) (s : MemoryWorkflowRepository)
      → find_asset key s.knowledge_assets ≡ some a
      → has_content a h ≡ true
      → Puts key h s (reuse_version w j key a s).0 (reuse_version w j key a s).1
  unfolding reuse_version ◌>>=◌ gets or_raise modify pure IsCurrent
  Puts-reuse w j a s f c =
      elim (Option-cases (Dict.get s.knowledge_versions (id_or_empty a.current_version_id))) [
        | inl e ↦ rw e (Puts-err key h s _ s refl)
        | inr (v, e) ↦ rw e (record {
          contents =
              Appends-same key h s.knowledge_assets a true (with_source_job j)
                (with_source_job-SameContent j) f c;
          current = λ u g.
              let same = with_source_job-SameContent j a in
              (
                with_source_job j a,
                found_changed key h s.knowledge_assets a (with_source_job j)
                    (λ b. (with_source_job-SameContent j b).0) f,
                has_content_same a (with_source_job j a) h same ∙ c,
                rw same.3 (e ∙ ap some (ok_inj g)),
              );
        })
      ]

  -- The step changes neither the assets nor their versions.

  module _ (w : World) (j : Option String) (a : KnowledgeAssetRecord) where
    pub Puts-store :
        (kind : Text) (t : Option Text) (v : KnowledgeAssetVersionRecord)
        (s : MemoryWorkflowRepository)
        → find_asset key s.knowledge_assets ≡ some a
        → has_content a h ≡ false
        → id_given (some v.version_id) ≡ true
        → v.version_no ≡ a.current_version_no + 1
        → v.content_hash ≡ h
        → Puts key h s (store_version w j kind key t a v s).0 (store_version w j kind key t a v s).1
    unfolding store_version ◌>>=◌ modify gets utc_now with_version has_content IsCurrent
    Puts-store kind t v s f c g n e =
        let put : KnowledgeAssetRecord → KnowledgeAssetRecord =
          λ x. with_version v.version_id v.version_no v.content_hash (w.clock s.clock_reads) x in
        let write : KnowledgeAssetRecord → KnowledgeAssetRecord = λ x. with_source_job j (put x) in
        let key_kept : (x : KnowledgeAssetRecord) → (write x).logical_key ≡ x.logical_key =
          λ x. (with_source_job-SameContent j (put x)).0 in
        let same : SameContent (put a) (write a) = with_source_job-SameContent j (put a) in
        Puts-before key h _ v s _ (record_audit_event-SameKnowledge w _ _ _ _ _ _)
          (record_audit_event-returns w _ _ _ _ _ _ _
            (versioned_payload-returns w.repr kind j t v a.asset_id _))
          (record {
            contents = Appends-next key h s.knowledge_assets a write key_kept f (
                rw e
                  (append_versioned a j v.version_id v.version_no h (w.clock s.clock_reads) c g n));
            current = λ u q. (
              write a,
              found_changed key h s.knowledge_assets a write key_kept f,
              has_content_same (put a) (write a) h same ∙ ground (arith, text_beq_iff h h),
              rw same.3 (get-put_self s.knowledge_versions v.version_id v ∙ ap some (ok_inj q)),
            );
          })

    pub Puts-new :
        (kind : Text) (t : Option Text) (p : Fields) (facts edges : List Json)
        (s : MemoryWorkflowRepository)
        → find_asset key s.knowledge_assets ≡ some a
        → has_content a h ≡ false
        → Puts key h s
            (new_version w j kind key t p facts edges h a s).0
            (new_version w j kind key t p facts edges h a s).1
    unfolding new_version ◌>>=◌ prefixed_id SameKnowledge
    Puts-new kind t p facts edges s f c =
        let drawn : MemoryWorkflowRepository = record s { ids_drawn = s.ids_drawn + 1 } in
        Puts-same key h s drawn _ _ (refl, refl)
          (Puts-after key h _ _ drawn
            (facts-Keeps SameKnowledge same_knowledge w (prefixed_id-SameKnowledge w)
              (utc_now-SameKnowledge w) _ a.asset_id kind h facts)
            (λ fs s1 e1.
              Puts-after key h _ _ s1
                (edges-Keeps SameKnowledge same_knowledge w (prefixed_id-SameKnowledge w)
                  (utc_now-SameKnowledge w) _ a.asset_id edges)
                (λ es s2 e2. Puts-after key h _ _ s2 (utc_now-SameKnowledge w) (λ now s3 e3.
                  Puts-store kind t _ s3 (rw (e3.0 ∙ e2.0 ∙ e1.0) f) c
                    (fresh_id-given (w.uuid_hex s.ids_drawn)) refl refl))))

    pub Puts-content :
        (kind : Text) (t : Option Text) (p : Fields) (facts edges : List Json)
        (s : MemoryWorkflowRepository)
        → find_asset key s.knowledge_assets ≡ some a
        → Puts key h s
            (put_content w j kind key t p facts edges h a s).0
            (put_content w j kind key t p facts edges h a s).1
    unfolding put_content
    Puts-content kind t p facts edges s f = elim (Bool-cases (has_content a h)) [
      | inl c ↦ rw c (Puts-reuse w j a s f c)
      | inr c ↦ rw c (Puts-new kind t p facts edges s f c)
    ]
