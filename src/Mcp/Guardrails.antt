-- ===== src/Mcp/Guardrails.antt =====
-- services/mssql-mcp/mssql_mcp_app/guardrails.py: no argument of a tool, however deep, may be named
-- like SQL or a command, except at the paths that are allowed.
use mssql_ai_project.Base.{
  ℕ, suc, ◌≡◌, refl, ◌↔◌, Bool, false, not, ◌&&◌, List, [], ◌∷◌, ◌++◌, arith, elem, Bool-cases,
  if◌then◌else◌,
}
use mssql_ai_project.Base.Text.{Text, codes, text_eq, strip, lower}
use mssql_ai_project.Base.Json.{
  Json, null, bool, int, float, str, arr, obj, Items, nil, cons, Fields, empty, field,
}
use mssql_ai_project.Base.Values.{decimal}
use mssql_ai_project.Base.Result.{Result, ok, err, ◌>>◌}

unfoldable pub forbidden_argument_keys : List Text
forbidden_argument_keys =
    codes "sql" ∷ codes "query" ∷ codes "statement" ∷ codes "command" ∷ codes "ddl" ∷ []

-- `MetadataToolError(READ_ONLY_VIOLATION, ...)` with its argument path and key.
pub record ReadOnlyViolation : Type 0 where
  pub argument_path : Text
  pub argument_key : Text

-- `f"{path}.{key_text}"` and `f"{path}[{index}]"`
abbrev pub nested_path : Text → Text → Text
nested_path path key_text = path ++ (b'.' ∷ key_text)

abbrev pub item_path : Text → ℕ → Text
item_path path index = path ++ (b'[' ∷ (decimal index ++ (b']' ∷ [])))

module _ (allowed_paths : List Text) where
  -- the test on one key; the key is stripped
  unfoldable pub is_refused : Text → Text → Bool
  is_refused path key_text =
      elem (lower key_text) forbidden_argument_keys
      && not (elem (nested_path path key_text) allowed_paths)

  abbrev check_key : Text → Text → Result ReadOnlyViolation (Unit {0})
  check_key path key_text =
      if is_refused path key_text
      then err (record { argument_path = nested_path path key_text; argument_key = key_text })
      else ok tt

unfoldable mutual
  pub enforce_read_only_arguments : List Text → Json → Text → Result ReadOnlyViolation (Unit {0})
  enforce_read_only_arguments allowed null path = ok tt
  enforce_read_only_arguments allowed (bool b) path = ok tt
  enforce_read_only_arguments allowed (int n) path = ok tt
  enforce_read_only_arguments allowed (float r) path = ok tt
  enforce_read_only_arguments allowed (str s) path = ok tt
  enforce_read_only_arguments allowed (arr vs) path = enforce_items allowed vs path 0
  enforce_read_only_arguments allowed (obj d) path = enforce_fields allowed d path

  pub enforce_items : List Text → Items → Text → ℕ → Result ReadOnlyViolation (Unit {0})
  enforce_items allowed nil path index = ok tt
  enforce_items allowed (cons v vs) path index = do
    enforce_read_only_arguments allowed v (item_path path index)
    enforce_items allowed vs path (suc index)

  pub enforce_fields : List Text → Fields → Text → Result ReadOnlyViolation (Unit {0})
  enforce_fields allowed empty path = ok tt
  enforce_fields allowed (field key v d) path = do
    check_key allowed path (strip key)
    enforce_read_only_arguments allowed v (nested_path path (strip key))
    enforce_fields allowed d path

-- A key that stands somewhere in a value: `InValue p v q k` says that the object at the path `q` of
-- the value `v` at the path `p` has an entry whose stripped key is `k`.
mutual
  pub data InValue : Text → Json → Text → Text → Type 0 where
    in_items : {p q k : Text} {vs : Items} → InItems p 0 vs q k → InValue p (arr vs) q k
    in_fields : {p q k : Text} {d : Fields} → InFields p d q k → InValue p (obj d) q k

  pub data InItems : Text → ℕ → Items → Text → Text → Type 0 where
    item :
        {p q k : Text} {i : ℕ} {v : Json} {vs : Items}
        → InValue (item_path p i) v q k
        → InItems p i (cons v vs) q k
    later_item :
        {p q k : Text} {i : ℕ} {v : Json} {vs : Items}
        → InItems p (suc i) vs q k
        → InItems p i (cons v vs) q k

  pub data InFields : Text → Fields → Text → Text → Type 0 where
    key_here :
        {p : Text} {key : Text} {v : Json} {d : Fields} → InFields p (field key v d) p (strip key)
    under_key :
        {p q k : Text} {key : Text} {v : Json} {d : Fields}
        → InValue (nested_path p (strip key)) v q k
        → InFields p (field key v d) q k
    later_field :
        {p q k : Text} {key : Text} {v : Json} {d : Fields}
        → InFields p d q k
        → InFields p (field key v d) q k

module _ (allowed : List Text) where
  -- no key that stands in the value is refused
  abbrev pub NothingRefused : Json → Text → Type 0
  NothingRefused v p = (q k : Text) → InValue p v q k → is_refused allowed q k ≡ false

  check_key-ok : (p k : Text) → check_key allowed p k ≡ ok tt → is_refused allowed p k ≡ false
  check_key-ok p k h = ground (arith, Bool-cases (is_refused allowed p k))

  check_key-passes : (p k : Text) → is_refused allowed p k ≡ false → check_key allowed p k ≡ ok tt
  check_key-passes p k h = rw h refl

  first_ok :
      {E A : Type 0} (r : Result E (Unit {0})) (s : Result E A) (a : A)
      → (r >> s) ≡ ok a
      → r ≡ ok tt × s ≡ ok a
  first_ok (ok u) s a h = (refl, h)
  first_ok (err e) s a h = ground arith

  mutual
    unfolding enforce_read_only_arguments enforce_items enforce_fields

    accepted :
        (v : Json) (p : Text) → enforce_read_only_arguments allowed v p ≡ ok tt → NothingRefused v p
    accepted null p h q k i = elim i [ ]
    accepted (bool b) p h q k i = elim i [ ]
    accepted (int n) p h q k i = elim i [ ]
    accepted (float r) p h q k i = elim i [ ]
    accepted (str s) p h q k i = elim i [ ]
    accepted (arr vs) p h q k (in_items i) = accepted_items vs p 0 h q k i
    accepted (obj d) p h q k (in_fields i) = accepted_fields d p h q k i

    accepted_items :
        (vs : Items) (p : Text) (n : ℕ)
        → enforce_items allowed vs p n ≡ ok tt
        → (q k : Text) → InItems p n vs q k
        → is_refused allowed q k ≡ false
    accepted_items nil p n h q k i = elim i [ ]
    accepted_items (cons v vs) p n h q k (item i) =
        accepted v (item_path p n) (first_ok _ _ _ h).0 q k i
    accepted_items (cons v vs) p n h q k (later_item i) =
        accepted_items vs p (suc n) (first_ok _ _ _ h).1 q k i

    accepted_fields :
        (d : Fields) (p : Text)
        → enforce_fields allowed d p ≡ ok tt
        → (q k : Text) → InFields p d q k
        → is_refused allowed q k ≡ false
    accepted_fields empty p h q k i = elim i [ ]
    accepted_fields (field key v d) p h q k key_here =
        check_key-ok p (strip key) (first_ok _ _ _ h).0
    accepted_fields (field key v d) p h q k (under_key i) =
        accepted v (nested_path p (strip key)) (first_ok _ _ _ (first_ok _ _ _ h).1).0 q k i
    accepted_fields (field key v d) p h q k (later_field i) =
        accepted_fields d p (first_ok _ _ _ (first_ok _ _ _ h).1).1 q k i

  mutual
    unfolding enforce_read_only_arguments enforce_items enforce_fields

    passes :
        (v : Json) (p : Text) → NothingRefused v p → enforce_read_only_arguments allowed v p ≡ ok tt
    passes null p h = refl
    passes (bool b) p h = refl
    passes (int n) p h = refl
    passes (float r) p h = refl
    passes (str s) p h = refl
    passes (arr vs) p h = passes_items vs p 0 (λ q k i. h q k (in_items i))
    passes (obj d) p h = passes_fields d p (λ q k i. h q k (in_fields i))

    passes_items :
        (vs : Items) (p : Text) (n : ℕ)
        → ((q k : Text) → InItems p n vs q k → is_refused allowed q k ≡ false)
        → enforce_items allowed vs p n ≡ ok tt
    passes_items nil p n h = refl
    passes_items (cons v vs) p n h =
        rw (passes v (item_path p n) (λ q k i. h q k (item i)))
          (passes_items vs p (suc n) (λ q k i. h q k (later_item i)))

    passes_fields :
        (d : Fields) (p : Text)
        → ((q k : Text) → InFields p d q k → is_refused allowed q k ≡ false)
        → enforce_fields allowed d p ≡ ok tt
    passes_fields empty p h = refl
    passes_fields (field key v d) p h =
        rw
          (
            check_key-passes p (strip key) (h p (strip key) key_here),
            passes v (nested_path p (strip key)) (λ q k i. h q k (under_key i)),
          )
          (passes_fields d p (λ q k i. h q k (later_field i)))

  -- The arguments of a tool pass the guard exactly when no key at any depth of them, inside lists
  -- too, is one of the forbidden words (stripped, in any case) outside the allowed paths.
  pub enforce_read_only_arguments_iff :
      (v : Json) (p : Text) → (enforce_read_only_arguments allowed v p ≡ ok tt) ↔ NothingRefused v p
  enforce_read_only_arguments_iff v p = (accepted v p, passes v p)
