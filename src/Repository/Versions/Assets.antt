-- ===== src/Repository/Versions/Assets.antt =====
-- The search of an asset by its logical key, after the writes to the assets.
use mssql_ai_project.Base.{
  ℕ, ◌+◌, String, Bool, true, false, ◌≡◌, refl, sym, ◌∙◌, Option, none, some, [], ◌∷◌, ◌==◌,
  if◌then◌else◌, arith, string_eq,
}
use text.Mathlib.TextEquality.{eq_iff}
use mssql_ai_project.Base.Dict
use mssql_ai_project.Base.Dict.{Dict}
use mssql_ai_project.Base.Text.{Text, text_eq, text_beq_iff}
use mssql_ai_project.Repository.Records.{KnowledgeAssetRecord}
use mssql_ai_project.Repository.Knowledge.{
  find_asset, change_asset, id_given, has_content, with_source_job, with_target_key, with_version,
}

-- The number of versions of an asset, and the content of the current one; an asset that is not
-- there counts as one that has no version.
pub record Content : Type 0 where
  pub versions : ℕ
  pub current : Option Text

unfoldable pub content_of : Option KnowledgeAssetRecord → Content
content_of none = record { versions = 0; current = none }
content_of (some a) = record {
  versions = a.current_version_no;
  current = if id_given a.current_version_id then a.content_hash else none;
}

-- Each content has a number, and a content that is the current one gets no other.
unfoldable pub append : Text → Content → Content
append h c =
    let next : Content = record { versions = c.versions + 1; current = some h } in
    elim c.current [ none ↦ next | some g ↦ if g == h then c else next ]

abbrev pub update {ℓ} : {A : Type ℓ} → Bool → (A → A) → Option A → Option A
update b f none = none
update b f (some a) = if b then some (f a) else some a

pub find_asset-put :
    (d : Dict KnowledgeAssetRecord) (i : String) (a : KnowledgeAssetRecord) (key : Text)
    → Dict.get d i ≡ none
    → find_asset a.logical_key d ≡ none
    → find_asset key (Dict.put d i a) ≡ (if a.logical_key == key then some a else find_asset key d)
unfolding find_asset Dict.get Dict.put
find_asset-put [] i a key e h = refl
find_asset-put ((j, b) ∷ d) i a key e h = ground (
  arith,
  find_asset-put d i a key,
  eq_iff j i,
  text_beq_iff a.logical_key key,
  text_beq_iff b.logical_key key,
  text_beq_iff b.logical_key a.logical_key,
)

pub find_asset-change_asset :
    (k key : Text) (f : KnowledgeAssetRecord → KnowledgeAssetRecord) (d : Dict KnowledgeAssetRecord)
    → ((a : KnowledgeAssetRecord) → (f a).logical_key ≡ a.logical_key)
    → find_asset key (change_asset k f d) ≡ update (k == key) f (find_asset key d)
unfolding find_asset change_asset
find_asset-change_asset k key f [] h = refl
find_asset-change_asset k key f ((i, a) ∷ d) h = ground (
  arith,
  find_asset-change_asset k key f d h,
  h a,
  text_beq_iff k key,
  text_beq_iff a.logical_key key,
  text_beq_iff a.logical_key k,
)

-- `b` has the version and the content of `a`, under the same logical key.
abbrev pub SameContent : KnowledgeAssetRecord → KnowledgeAssetRecord → Type 0
SameContent a b =
    (b.logical_key ≡ a.logical_key)
    × (b.current_version_no ≡ a.current_version_no)
    × (b.content_hash ≡ a.content_hash)
    × (b.current_version_id ≡ a.current_version_id)

pub with_source_job-SameContent :
    (j : Option String) (a : KnowledgeAssetRecord) → SameContent a (with_source_job j a)
unfolding with_source_job
with_source_job-SameContent j a = ground arith

pub with_target_key-SameContent :
    (k : Option Text) (a : KnowledgeAssetRecord) → SameContent a (with_target_key k a)
unfolding with_target_key
with_target_key-SameContent k a = ground arith

content_of_same :
    (a b : KnowledgeAssetRecord) → SameContent a b → content_of (some b) ≡ content_of (some a)
unfolding content_of
content_of_same a b (k, n, h, i) = rw (n, h, i) refl

pub content_of-update :
    (f : KnowledgeAssetRecord → KnowledgeAssetRecord) (b : Bool) (o : Option KnowledgeAssetRecord)
    → ((a : KnowledgeAssetRecord) → SameContent a (f a))
    → content_of (update b f o) ≡ content_of o
content_of-update f b none h = refl
content_of-update f true (some a) h = content_of_same a (f a) (h a)
content_of-update f false (some a) h = refl

-- The current content appended once more is the current content.
pub append_current :
    (a : KnowledgeAssetRecord) (h : Text)
    → has_content a h ≡ true
    → append h (content_of (some a)) ≡ content_of (some a)
unfolding append content_of has_content
append_current a h e = ground (arith)

-- A content that is not the current one gets the next number.
pub append_other :
    (a : KnowledgeAssetRecord) (h : Text)
    → has_content a h ≡ false
    → append h (content_of (some a))
      ≡ record { versions = a.current_version_no + 1; current = some h }
unfolding append content_of has_content
append_other a h e = ground (arith)

pub update_off {ℓ} : {A : Type ℓ} (f : A → A) (o : Option A) → update false f o ≡ o
update_off f none = refl
update_off f (some a) = refl

pub has_content_same :
    (a b : KnowledgeAssetRecord) (h : Text) → SameContent a b → has_content b h ≡ has_content a h
unfolding has_content
has_content_same a b h (k, n, g, i) = rw (g, i) refl

-- The writes of a new version give the asset the next content.
pub append_versioned :
    (a : KnowledgeAssetRecord) (j : Option String) (v : String) (n : ℕ) (h : Text) (t : ℕ)
    → has_content a h ≡ false
    → id_given (some v) ≡ true
    → n ≡ a.current_version_no + 1
    → append h (content_of (some a))
      ≡ content_of (some (with_source_job j (with_version v n h t a)))
unfolding content_of with_version
append_versioned a j v n h t c g e =
    let b : KnowledgeAssetRecord = with_version v n h t a in
    append_other a h c
    ∙ sym
        (content_of_same b (with_source_job j b) (with_source_job-SameContent j b) ∙ rw (e, g) refl)
