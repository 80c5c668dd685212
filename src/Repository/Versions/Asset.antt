-- ===== src/Repository/Versions/Asset.antt =====
-- The asset that `upsert_knowledge_asset` finds or adds.
use Prim.Native.String.{◌++◌}
use mssql_ai_project.Base.{
  String, ◌≡◌, refl, Option, none, some, [], ◌==◌, string_eq, inl, inr, Bool-cases, arith,
}
use mssql_ai_project.Base.Dict
use mssql_ai_project.Base.Dict.{Dict, get-put_self}
use mssql_ai_project.Base.Text.{Text, text_eq, text_beq_iff}
use mssql_ai_project.Base.Result.{Result, ok}
use mssql_ai_project.Base.Exec.{pure, modify, ◌>>=◌}
use mssql_ai_project.Repository.Records.{KnowledgeAssetRecord}
use mssql_ai_project.Repository.State.{
  RepositoryError, World, MemoryWorkflowRepository, prefixed_id, utc_now,
}
use mssql_ai_project.Repository.Knowledge.{
  find_asset, id_given, with_target_key, obtain_asset, new_asset, keep_asset,
}
use mssql_ai_project.Repository.Versions.Assets.{
  content_of, find_asset-put, find_asset-change_asset, with_target_key-SameContent,
  content_of-update,
}
use mssql_ai_project.Repository.Versions.Contents.{found_none, found_changed}

module _ (key : Text) where
  -- The asset is there, and no content has changed.
  pub record Obtains (s : MemoryWorkflowRepository)
      (r : Result RepositoryError KnowledgeAssetRecord) (t : MemoryWorkflowRepository)
      : Type 0 where
    pub asset : KnowledgeAssetRecord
    pub returned : r ≡ ok asset
    pub found : find_asset key t.knowledge_assets ≡ some asset
    pub contents :
        (k : Text)
        → content_of (find_asset k t.knowledge_assets)
          ≡ content_of (find_asset k s.knowledge_assets)

  pub Obtains-put :
      (a : KnowledgeAssetRecord) (i : String) (s t : MemoryWorkflowRepository)
      → t.knowledge_assets ≡ Dict.put s.knowledge_assets i a
      → a.logical_key ≡ key
      → content_of (some a) ≡ content_of none
      → Dict.get s.knowledge_assets i ≡ none
      → find_asset key s.knowledge_assets ≡ none
      → Obtains s (ok a) t
  Obtains-put a i s t g l c fresh e =
      let absent : find_asset a.logical_key s.knowledge_assets ≡ none = rw l e in
      record {
        asset = a;
        returned = refl;
        found =
            rw (g, find_asset-put s.knowledge_assets i a key fresh absent)
              (ground (arith, text_beq_iff a.logical_key key));
        contents = λ k.
            rw (g, find_asset-put s.knowledge_assets i a k fresh absent)
              (elim (Bool-cases (a.logical_key == k)) [
                | inr q ↦ rw q refl
                | inl q ↦
                    let none_k : find_asset k s.knowledge_assets ≡ none =
                      found_none a.logical_key k s.knowledge_assets absent q in
                    rw (q, none_k) c
              ]);
      }

  pub Obtains-asset :
      (w : World) (j : Option String) (kind p ty sc n : Text) (t : Option Text)
      (s : MemoryWorkflowRepository)
      → Dict.get s.knowledge_assets (("know" ++ "_") ++ w.uuid_hex s.ids_drawn) ≡ none
      → (o : Option KnowledgeAssetRecord) → find_asset key s.knowledge_assets ≡ o
      → Obtains s
          (obtain_asset w j kind p ty sc n key t o s).0
          (obtain_asset w j kind p ty sc n key t o s).1
  unfolding obtain_asset new_asset keep_asset ◌>>=◌ modify prefixed_id utc_now pure content_of
      id_given
  Obtains-asset w j kind p ty sc n t s fresh none e = Obtains-put _ _ s _ refl refl refl fresh e
  Obtains-asset w j kind p ty sc n t s fresh (some a) e = record {
    asset = with_target_key t a;
    returned = refl;
    found =
        found_changed key [] s.knowledge_assets a (with_target_key t)
          (λ x. (with_target_key-SameContent t x).0) e;
    contents = λ k.
        rw
          (find_asset-change_asset key k (with_target_key t) s.knowledge_assets
            (λ x. (with_target_key-SameContent t x).0))
          (content_of-update (with_target_key t) (key == k) (find_asset k s.knowledge_assets)
            (with_target_key-SameContent t));
  }
