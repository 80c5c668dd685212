-- ===== src/Repository/Versions/Contents.antt =====
-- What a step of `upsert_knowledge_asset` owes: the contents that the assets have after it.
use mssql_ai_project.Base.{
  Bool, true, ◌&&◌, ◌≡◌, refl, sym, none, some, ◌==◌, string_eq, if◌then◌else◌, inl, inr,
  Bool-cases, arith, subst, ap,
}
use mssql_ai_project.Base.Dict
use mssql_ai_project.Base.Dict.{Dict, get-put_self}
use mssql_ai_project.Base.Text.{Text, text_eq, text_beq_iff}
use mssql_ai_project.Base.Result.{Result, ok, err}
use mssql_ai_project.Base.Exec.{pure, continue, ◌>>=◌}
use mssql_ai_project.Base.Exec.Keeps.{Keeps}
use mssql_ai_project.Repository.Records.{KnowledgeAssetRecord, KnowledgeAssetVersionRecord}
use mssql_ai_project.Repository.State.{RepositoryError, MemoryWorkflowRepository, Method}
use mssql_ai_project.Repository.Knowledge.{find_asset, change_asset, has_content, id_or_empty}
use mssql_ai_project.Repository.Versions.Assets.{
  SameContent, content_of, append, find_asset-change_asset, content_of-update, append_current,
  update_off,
}
use mssql_ai_project.Repository.Versions.Same.{returns, SameKnowledge}

pub ok_inj :
    {v u : KnowledgeAssetVersionRecord}
    → Path (Result RepositoryError KnowledgeAssetVersionRecord) (ok v) (ok u)
    → v ≡ u
ok_inj {v} g = ap (λ r. elim r [ ok x ↦ x | err e ↦ v ]) g

-- The contents under all keys, before and after: `h` is appended to the content of `key` when the
-- call returns, and nothing else is changed.
unfoldable pub Appends :
    Text → Text → Dict KnowledgeAssetRecord → Bool → Dict KnowledgeAssetRecord → Type 0
Appends key h d b e =
    (k : Text)
    → content_of (find_asset k e) ≡ (
        if key == k && b
        then append h (content_of (find_asset k d))
        else content_of (find_asset k d))

-- The asset of the key has the content `h`, and its current version is `v`.
unfoldable pub IsCurrent :
    Text → Text → KnowledgeAssetVersionRecord → MemoryWorkflowRepository → Type 0
IsCurrent key h v s =
    (a : KnowledgeAssetRecord) × (find_asset key s.knowledge_assets ≡ some a)
    × (has_content a h ≡ true)
    × (Dict.get s.knowledge_versions (id_or_empty a.current_version_id) ≡ some v)

pub record Puts (key h : Text) (s : MemoryWorkflowRepository)
    (r : Result RepositoryError KnowledgeAssetVersionRecord) (t : MemoryWorkflowRepository)
    : Type 0 where
  pub contents : Appends key h s.knowledge_assets (returns r) t.knowledge_assets
  pub current : (v : KnowledgeAssetVersionRecord) → r ≡ ok v → IsCurrent key h v t

pub found_at :
    (key k : Text) (d : Dict KnowledgeAssetRecord) (a : KnowledgeAssetRecord)
    → find_asset key d ≡ some a
    → (key == k) ≡ true
    → find_asset k d ≡ some a
found_at key k d a found e =
    subst (λ (x : Text). find_asset x d ≡ some a) ((text_beq_iff key k).0 e) found

pub found_none :
    (key k : Text) (d : Dict KnowledgeAssetRecord)
    → find_asset key d ≡ none
    → (key == k) ≡ true
    → find_asset k d ≡ none
found_none key k d absent e =
    subst (λ (x : Text). find_asset x d ≡ none) ((text_beq_iff key k).0 e) absent

module _ (key h : Text) where
  pub Puts-err :
      (s : MemoryWorkflowRepository) (e : RepositoryError) (t : MemoryWorkflowRepository)
      → t.knowledge_assets ≡ s.knowledge_assets
      → Puts key h s (err e) t
  unfolding Appends
  Puts-err s e t g = record { contents = λ k. rw g (ground arith); current = λ v c. ground arith }

  pub Appends-same :
      (d : Dict KnowledgeAssetRecord) (a : KnowledgeAssetRecord) (b : Bool)
      (f : KnowledgeAssetRecord → KnowledgeAssetRecord)
      → ((c : KnowledgeAssetRecord) → SameContent c (f c))
      → find_asset key d ≡ some a
      → has_content a h ≡ true
      → Appends key h d b (change_asset key f d)
  unfolding Appends
  Appends-same d a b f same found c k =
      rw
        (
          find_asset-change_asset key k f d (λ x. (same x).0),
          content_of-update f (key == k) (find_asset k d) same,
        )
        (elim (Bool-cases (key == k)) [
          | inr e ↦ rw e refl
          | inl e ↦
              let g : find_asset k d ≡ some a = found_at key k d a found e in
              rw g (ground (arith, append_current a h c))
        ])

  pub Appends-next :
      (d : Dict KnowledgeAssetRecord) (a : KnowledgeAssetRecord)
      (f : KnowledgeAssetRecord → KnowledgeAssetRecord)
      → ((c : KnowledgeAssetRecord) → (f c).logical_key ≡ c.logical_key)
      → find_asset key d ≡ some a
      → append h (content_of (some a)) ≡ content_of (some (f a))
      → Appends key h d true (change_asset key f d)
  unfolding Appends
  Appends-next d a f same found c k =
      rw (find_asset-change_asset key k f d same) (elim (Bool-cases (key == k)) [
        | inr e ↦ rw (e, update_off f (find_asset k d)) refl
        | inl e ↦ let g : find_asset k d ≡ some a = found_at key k d a found e in rw (g, e) (sym c)
      ])

  pub found_changed :
      (d : Dict KnowledgeAssetRecord) (a : KnowledgeAssetRecord)
      (f : KnowledgeAssetRecord → KnowledgeAssetRecord)
      → ((c : KnowledgeAssetRecord) → (f c).logical_key ≡ c.logical_key)
      → find_asset key d ≡ some a
      → find_asset key (change_asset key f d) ≡ some (f a)
  found_changed d a f same found =
      rw (find_asset-change_asset key key f d same, found) (ground (arith, text_beq_iff key key))
  -- the version that is there already

module _ (key h : Text) where
  pub Puts-same :
      (s s' : MemoryWorkflowRepository) (r : Result RepositoryError KnowledgeAssetVersionRecord)
      (t : MemoryWorkflowRepository)
      → SameKnowledge s s'
      → Puts key h s' r t
      → Puts key h s r t
  unfolding SameKnowledge Appends
  Puts-same s s' r t g p = record {
    contents = λ k. rw (sym g.0) (p.contents k);
    current = p.current;
  }

  -- a step before that touches neither the assets nor their versions
  pub Puts-after :
      {A : Type 0} (m : Method A) (f : A → Method KnowledgeAssetVersionRecord)
      (s : MemoryWorkflowRepository)
      → Keeps SameKnowledge m
      → ((x : A) (t : MemoryWorkflowRepository)
          → SameKnowledge s t
          → Puts key h t (f x t).0 (f x t).1)
      → Puts key h s ((m >>= f) s).0 ((m >>= f) s).1
  unfolding ◌>>=◌ SameKnowledge
  Puts-after {A} m f s k p = go (m s).0 (k.at s)
    where
      go :
          (r : Result RepositoryError A)
          → SameKnowledge s (m s).1
          → Puts key h s (continue r f (m s).1).0 (continue r f (m s).1).1
      go (ok x) g = Puts-same s (m s).1 (f x (m s).1).0 (f x (m s).1).1 g (p x (m s).1 g)
      go (err e) g = Puts-err key h s e (m s).1 g.0

  -- a step after that returns and touches neither
  pub Puts-before :
      {A : Type 0} (m : Method A) (v : KnowledgeAssetVersionRecord)
      (s s' : MemoryWorkflowRepository)
      → Keeps SameKnowledge m
      → returns (m s').0 ≡ true
      → Puts key h s (ok v) s'
      → Puts key h s ((m >>= λ x. pure v) s').0 ((m >>= λ x. pure v) s').1
  unfolding ◌>>=◌ pure SameKnowledge Appends IsCurrent
  Puts-before {A} m v s s' k g p = go (m s').0 (k.at s') g
    where
      go :
          (r : Result RepositoryError A)
          → SameKnowledge s' (m s').1
          → returns r ≡ true
          → Puts key h s (continue r (λ x. pure v) (m s').1).0 (continue r (λ x. pure v) (m s').1).1
      go (ok x) g e = record {
        contents = λ k. rw g.0 (p.contents k);
        current = λ u q. let (a, f, c, d) = p.current u q in (a, rw g.0 f, c, rw g.1 d);
      }
      go (err e) g z = ground arith
