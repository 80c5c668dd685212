-- ===== src/Repository/ContentKeeps.antt =====
-- What reading the facts and edges of a version keeps: anything that the draws of ids and the
-- readings of the clock keep.
use mssql_ai_project.Base.{String, Option, List, [], ◌∷◌}
use mssql_ai_project.Base.Text.{Text}
use mssql_ai_project.Base.Json.{Json, null, bool, int, float, str, arr, obj, Fields}
use mssql_ai_project.Base.Exec.Keeps.{
  IsKept, Keeps, Keeps-bind, Keeps-pure, Keeps-lift, keeps_rules,
}
use mssql_ai_project.Repository.State.{
  World, MemoryWorkflowRepository, Method, prefixed_id, utc_now,
}
use mssql_ai_project.Repository.Knowledge.{text_or_fresh, fact_record, edge_record, each_mapping}

module _ (R : MemoryWorkflowRepository → MemoryWorkflowRepository → Type 0) (kept : IsKept R) where
  pub each_mapping-Keeps :
      {A : Type 0} (f : Fields → Method A)
      → ((d : Fields) → Keeps R (f d))
      → (vs : List Json) → Keeps R (each_mapping f vs)
  unfolding each_mapping
  each_mapping-Keeps f k [] = search (kept, keeps_rules)
  each_mapping-Keeps f k (obj d ∷ vs) = Keeps-bind kept (f d) _ (k d) (λ a.
      Keeps-bind kept (each_mapping f vs) _ (each_mapping-Keeps f k vs)
        (λ rest. Keeps-pure kept (a ∷ rest)))
  each_mapping-Keeps f k (null ∷ vs) = each_mapping-Keeps f k vs
  each_mapping-Keeps f k (bool b ∷ vs) = each_mapping-Keeps f k vs
  each_mapping-Keeps f k (int n ∷ vs) = each_mapping-Keeps f k vs
  each_mapping-Keeps f k (float r ∷ vs) = each_mapping-Keeps f k vs
  each_mapping-Keeps f k (str s ∷ vs) = each_mapping-Keeps f k vs
  each_mapping-Keeps f k (arr v ∷ vs) = each_mapping-Keeps f k vs

  module _ (w : World) (ids : (p : String) → Keeps R (prefixed_id w p))
      (reads : Keeps R (utc_now w)) where
    text_or_fresh-Keeps : (p : String) (v : Option Json) → Keeps R (text_or_fresh w p v)
    unfolding text_or_fresh
    text_or_fresh-Keeps p v = search (kept, keeps_rules, ids) depth 8

    fact_record-Keeps : (v a : String) (k h : Text) (d : Fields) → Keeps R (fact_record w v a k h d)
    unfolding fact_record
    fact_record-Keeps v a k h d = Keeps-bind kept _ _ (text_or_fresh-Keeps "fact" _) (λ i.
        Keeps-bind kept _ _ (Keeps-lift kept _) (λ refs.
          Keeps-bind kept _ _ (Keeps-lift kept _)
            (λ payload. Keeps-bind kept _ _ reads (λ t. Keeps-pure kept _))))

    edge_record-Keeps : (v a : String) (d : Fields) → Keeps R (edge_record w v a d)
    unfolding edge_record
    edge_record-Keeps v a d = Keeps-bind kept _ _ (text_or_fresh-Keeps "edge" _) (λ i.
        Keeps-bind kept _ _ (Keeps-lift kept _) (λ refs.
          Keeps-bind kept _ _ (Keeps-lift kept _)
            (λ payload. Keeps-bind kept _ _ reads (λ t. Keeps-pure kept _))))

    pub facts-Keeps :
        (v a : String) (k h : Text) (vs : List Json)
        → Keeps R (each_mapping (fact_record w v a k h) vs)
    facts-Keeps v a k h = each_mapping-Keeps (fact_record w v a k h) (fact_record-Keeps v a k h)

    pub edges-Keeps :
        (v a : String) (vs : List Json) → Keeps R (each_mapping (edge_record w v a) vs)
    edges-Keeps v a = each_mapping-Keeps (edge_record w v a) (edge_record-Keeps v a)
