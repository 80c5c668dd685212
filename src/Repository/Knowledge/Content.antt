-- ===== src/Repository/Knowledge/Content.antt =====
-- The facts and edges of a knowledge version, as `upsert_knowledge_asset` reads them from JSON. What
-- is no mapping among them is left out.
use mssql_ai_project.Base.{String, Option, none, some, List, [], ◌∷◌, map, if◌then◌else◌}
use mssql_ai_project.Base.Text.{Text, codes}
use mssql_ai_project.Base.Json
use mssql_ai_project.Base.Json.{
  Json, null, bool, int, float, str, arr, obj, Items, nil, cons, Fields, empty, field,
}
use mssql_ai_project.Base.Values.{truthy, truthy?, py_str, str_or_empty}
use mssql_ai_project.Base.Result.{Result, ok, err}
use mssql_ai_project.Base.Exec.{pure, lift, ◌>>=◌}
use mssql_ai_project.Repository.Records.{KnowledgeFactRecord, KnowledgeEdgeRecord}
use mssql_ai_project.Repository.State.{
  RepositoryError, not_iterable, World, Method, prefixed_id, utc_now,
}
use mssql_ai_project.Repository.Audit.{mapping_of}

-- `a or b`, where neither may be there
abbrev pub or_value : Option Json → Option Json → Option Json
or_value a b = if truthy? a then a else b

unfoldable pub key_strings : Fields → List Json
key_strings empty = []
key_strings (field k v d) = str k ∷ key_strings d

unfoldable pub items_of : Items → List Json
items_of nil = []
items_of (cons v vs) = v ∷ items_of vs

-- the values that `for` gives of a value
unfoldable pub iterate : Option Json → Result RepositoryError (List Json)
iterate none = ok []
iterate (some (str s)) = ok (map (λ c. str (c ∷ [])) s)
iterate (some (arr vs)) = ok (items_of vs)
iterate (some (obj d)) = ok (key_strings d)
iterate (some v) = err (not_iterable v)

module _ (w : World) where
  -- `str(value or default)`
  abbrev pub text_or : Option Json → Text → Text
  text_or value default = elim value [
    | none ↦ default
    | some v ↦ if truthy v then py_str w.repr v else default
  ]

  -- `str(value or prefixed_id(prefix))`
  unfoldable pub text_or_fresh : String → Option Json → Method Text
  text_or_fresh prefix value =
      if truthy? value
      then pure (text_or value [])
      else do fresh ← prefixed_id w prefix; pure (codes fresh)

  module _ (version_id asset_id : String) where
    unfoldable pub fact_record : Text → Text → Fields → Method KnowledgeFactRecord
    fact_record asset_kind content_hash fact = do
      fact_id ←
          text_or_fresh "fact"
            (or_value (Json.get fact (codes "factId")) (Json.get fact (codes "id")))
      evidence_refs ← lift (iterate (Json.get fact (codes "evidenceRefs")))
      payload ← lift (mapping_of (Json.get fact (codes "payload")))
      created_at ← utc_now w
      pure (record {
        fact_id = fact_id;
        version_id = version_id;
        asset_id = asset_id;
        fact_type =
            text_or (or_value (Json.get fact (codes "factType")) (Json.get fact (codes "type")))
              asset_kind;
        object_ref = str_or_empty w.repr (Json.get fact (codes "objectRef"));
        summary = str_or_empty w.repr (Json.get fact (codes "summary"));
        status = text_or (Json.get fact (codes "status")) (codes "REVIEW_REQUIRED");
        evidence_refs = map (py_str w.repr) evidence_refs;
        payload = payload;
        content_hash = text_or (Json.get fact (codes "contentHash")) content_hash;
        created_at = created_at;
      })

    unfoldable pub edge_record : Fields → Method KnowledgeEdgeRecord
    edge_record edge = do
      edge_id ← text_or_fresh "edge" (Json.get edge (codes "edgeId"))
      evidence_refs ← lift (iterate (Json.get edge (codes "evidenceRefs")))
      payload ← lift (mapping_of (Json.get edge (codes "payload")))
      created_at ← utc_now w
      pure (record {
        edge_id = edge_id;
        version_id = version_id;
        asset_id = asset_id;
        from_fact_id =
            text_or (or_value (Json.get edge (codes "fromFactId")) (Json.get edge (codes "from")))
              [];
        to_fact_id =
            text_or (or_value (Json.get edge (codes "toFactId")) (Json.get edge (codes "to"))) [];
        edge_type =
            text_or (or_value (Json.get edge (codes "edgeType")) (Json.get edge (codes "type")))
              (codes "DERIVED_FROM");
        evidence_refs = map (py_str w.repr) evidence_refs;
        payload = payload;
        created_at = created_at;
      })

-- `[f(item) for item in items if isinstance(item, dict)]`
unfoldable pub each_mapping : {A : Type 0} → (Fields → Method A) → List Json → Method (List A)
each_mapping f [] = pure []
each_mapping f (obj d ∷ vs) = do a ← f d; rest ← each_mapping f vs; pure (a ∷ rest)
each_mapping f (v ∷ vs) = each_mapping f vs
