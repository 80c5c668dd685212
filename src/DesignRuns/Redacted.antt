-- ===== src/DesignRuns/Redacted.antt =====
-- No text of a stored request looks like a secret, at whatever depth.
use Prim.Native.String.{◌++◌}
use mssql_ai_project.Base.{
  ◌+◌, sym, subst, ap, ◌==◌, String, ◌≡◌, refl, false, Option, none, some, arith, Bool-cases,
  string_eq, inl, inr,
}
use mssql_ai_project.Base.Text.{Text, codes, text_eq, lower}
use mssql_ai_project.Base.Json.{
  Json, null, bool, int, float, str, arr, obj, Items, nil, cons, Fields, empty, field,
}
use mssql_ai_project.Base.Json
use mssql_ai_project.Base.Dict
use mssql_ai_project.Base.Dict.{get-put_self}
use mssql_ai_project.Base.Result.{ok}
use mssql_ai_project.Base.Exec.{modify, pure, ◌>>=◌}
use mssql_ai_project.Repository
use mssql_ai_project.Repository.{
  World, MemoryWorkflowRepository, MetadataDesignRunRecord, prefixed_id, utc_now,
}
use mssql_ai_project.DesignRuns.{
  MetadataDesignRunRequest, conversation_or_fresh, create_metadata_design_run,
}
use mssql_ai_project.DesignRuns.Redaction.{
  is_secret_like, redacted, sanitize_text, sanitize, sanitize_items,
  sanitize_design_request_payload,
}

-- A text that stands somewhere in a value.
mutual
  pub data TextIn : Text → Json → Type 0 where
    here : {s : Text} → TextIn s (str s)
    in_items : {s : Text} {vs : Items} → TextInItems s vs → TextIn s (arr vs)
    in_fields : {s : Text} {d : Fields} → TextInFields s d → TextIn s (obj d)

  pub data TextInItems : Text → Items → Type 0 where
    item : {s : Text} {v : Json} {vs : Items} → TextIn s v → TextInItems s (cons v vs)
    later_item : {s : Text} {v : Json} {vs : Items} → TextInItems s vs → TextInItems s (cons v vs)

  pub data TextInFields : Text → Fields → Type 0 where
    value :
        {s : Text} {k : Text} {v : Json} {d : Fields} → TextIn s v → TextInFields s (field k v d)
    later_field :
        {s : Text} {k : Text} {v : Json} {d : Fields}
        → TextInFields s d
        → TextInFields s (field k v d)

redacted_plain : is_secret_like redacted ≡ false
unfolding is_secret_like redacted lower
redacted_plain = refl

sanitize_text_plain : (s : Text) → is_secret_like (sanitize_text s) ≡ false
unfolding sanitize_text
sanitize_text_plain s = elim (Bool-cases (is_secret_like s)) [
  | inl e ↦ rw e redacted_plain
  | inr e ↦ rw (e, e) refl
]

mutual
  unfolding sanitize sanitize_items sanitize_design_request_payload

  sanitize-plain : (v : Json) (s : Text) → TextIn s (sanitize v) → is_secret_like s ≡ false
  sanitize-plain null s i = elim i [ ]
  sanitize-plain (bool b) s i = elim i [ ]
  sanitize-plain (int n) s i = elim i [ ]
  sanitize-plain (float r) s i = elim i [ ]
  sanitize-plain (str t) s here = sanitize_text_plain t
  sanitize-plain (arr vs) s (in_items i) = sanitize_items-plain vs s i
  sanitize-plain (obj d) s (in_fields i) = sanitize_fields-plain d s i

  sanitize_items-plain :
      (vs : Items) (s : Text) → TextInItems s (sanitize_items vs) → is_secret_like s ≡ false
  sanitize_items-plain nil s i = elim i [ ]
  sanitize_items-plain (cons v vs) s (item i) = sanitize-plain v s i
  sanitize_items-plain (cons v vs) s (later_item i) = sanitize_items-plain vs s i

  pub sanitize_fields-plain :
      (d : Fields) (s : Text)
      → TextInFields s (sanitize_design_request_payload d)
      → is_secret_like s ≡ false
  sanitize_fields-plain empty s i = elim i [ ]
  sanitize_fields-plain (field k v d) s (value i) = sanitize-plain v s i
  sanitize_fields-plain (field k v d) s (later_field i) = sanitize_fields-plain d s i

TextInFields-get :
    (d : Fields) (k s : Text) (v : Json) → Json.get d k ≡ some v → TextIn s v → TextInFields s d
unfolding Json.get
TextInFields-get empty k s v e i = ground arith
TextInFields-get (field j u d) k s v e i = elim (Bool-cases (j == k)) [
  | inl q ↦ value (subst (λ x. TextIn s x) (sym (some_inj (rw q at e))) i)
  | inr q ↦ later_field (TextInFields-get d k s v (rw q at e) i)
]
  where
    some_inj : {x y : Json} → Path (Option Json) (some x) (some y) → x ≡ y
    some_inj {x} p = ap (λ o. elim o [ none ↦ x | some z ↦ z ]) p

-- What `create_metadata_design_run` of metadata_design_runs.py owes.
Stores : MetadataDesignRunRecord → MemoryWorkflowRepository → Type 0
Stores run t =
    (Dict.get t.metadata_design_runs run.run_id ≡ some run)
    × (run.status ≡ "QUEUED")
    × ((k : Text) (v : Json) (s : Text)
        → (codes "conversationId" == k) ≡ false
        → Json.get run.request k ≡ some v
        → TextIn s v
        → is_secret_like s ≡ false)

module _ (w : World) (q : MetadataDesignRunRequest) where
  stored :
      (conversation_id run_id : String) (s : MemoryWorkflowRepository)
      → let (r, t) =
          Repository.create_metadata_design_run w run_id conversation_id
            (Json.put
              (sanitize_design_request_payload q.model_payload)
              (codes "conversationId")
              (str (codes conversation_id)))
            s in
        (run : MetadataDesignRunRecord) × (r ≡ ok run) × Stores run t
  unfolding Repository.create_metadata_design_run ◌>>=◌ utc_now modify pure Stores
  stored conversation_id run_id s = (
    _,
    refl,
    (
      get-put_self s.metadata_design_runs run_id _,
      refl,
      λ k v x other found i.
          let g =
            rw
              (
                Json.get-put (sanitize_design_request_payload q.model_payload)
                    (codes "conversationId") k (str (codes conversation_id)),
                other,
              )
              at found in
          sanitize_fields-plain q.model_payload x
            (TextInFields-get (sanitize_design_request_payload q.model_payload) k x v g i),
    ),
  )

  conversation_of :
      (o : Option String) (s : MemoryWorkflowRepository)
      → (c : String) × (t : MemoryWorkflowRepository) × (conversation_or_fresh w o s ≡ (ok c, t))
  unfolding conversation_or_fresh prefixed_id pure
  conversation_of none s = (_, _, refl)
  conversation_of (some c) s = elim (Bool-cases (c == "")) [
    | inl e ↦ (
      ("metadata_design_conv" ++ "_") ++ w.uuid_hex s.ids_drawn,
      record s { ids_drawn = s.ids_drawn + 1 },
      rw e refl,
    )
    | inr e ↦ (c, s, rw e refl)
  ]

  -- `create_metadata_design_run` returns a run; it is stored under its id as `QUEUED`; and under each
  -- key of its stored request but `conversationId`, no text at whatever depth is one that
  -- `SECRET_LIKE_TEXT_RE` finds a secret in.
  pub create_metadata_design_run_redacts :
      (s : MemoryWorkflowRepository)
      → let (r, t) = create_metadata_design_run w q s in
        (run : MetadataDesignRunRecord) × (r ≡ ok run)
        × (Dict.get t.metadata_design_runs run.run_id ≡ some run)
        × (run.status ≡ "QUEUED")
        × ((k : Text) (v : Json) (x : Text)
            → (codes "conversationId" == k) ≡ false
            → Json.get run.request k ≡ some v
            → TextIn x v
            → is_secret_like x ≡ false)
  unfolding create_metadata_design_run ◌>>=◌ prefixed_id Stores
  create_metadata_design_run_redacts s =
      let (c, t, e) = conversation_of q.conversation_id s in
      let run_id : String = ("metadata_design_run" ++ "_") ++ w.uuid_hex t.ids_drawn in
      let z = stored c run_id (record t { ids_drawn = t.ids_drawn + 1 }) in
      rw e (z.0, z.1, z.2.0, z.2.1, z.2.2)
