-- ===== src/DesignRuns/Redaction.antt =====
-- `SECRET_LIKE_TEXT_RE` and `_sanitize_design_request_payload`. Letter case is that of ASCII letters.
use mssql_ai_project.Base.{
  String, Option, none, some, Bool, true, false, ◌&&◌, ◌||◌, List, [], ◌∷◌, nat_beq, if◌then◌else◌,
}
use mssql_ai_project.Base.Text.{Text, codes, is_space, lstrip, lower}
use mssql_ai_project.Base.Json.{
  Json, null, bool, int, float, str, arr, obj, Items, nil, cons, Fields, empty, field,
}

-- The pieces of the alternatives of the expression.
pub data Piece : Type 0 where
  -- the letters as they stand
  letters : Text → Piece
  -- `\s*` and `\s+`
  spaces : Piece
  some_spaces : Piece
  -- `[_-]?`
  joint : Piece

-- the text after the letters
unfoldable after : Text → Text → Option Text
after [] text = some text
after (c ∷ cs) [] = none
after (c ∷ cs) (d ∷ text) = let rest = after cs text in if nat_beq c d then rest else none

abbrev starts_blank : Text → Bool
starts_blank [] = false
starts_blank (c ∷ s) = is_space c

abbrev drop_joint : Text → Text
drop_joint [] = []
drop_joint (c ∷ s) = if nat_beq c b'_' || nat_beq c b'-' then s else c ∷ s

-- `re.match` of the pieces, on a text in lower case. No letter is a space or a joint, so that what
-- is optional is always taken.
unfoldable matches : List Piece → Text → Bool
unfolding after
matches [] text = true
matches (letters l ∷ ps) text = elim (after l text) [ none ↦ false | some rest ↦ matches ps rest ]
matches (spaces ∷ ps) text = matches ps (lstrip text)
matches (some_spaces ∷ ps) text = starts_blank text && matches ps (lstrip text)
matches (joint ∷ ps) text = matches ps (drop_joint text)

abbrev words : String → Piece
words s = letters (codes s)

-- the alternatives of the expression, `exec(?:ute)?\s+` and the groups written out
unfoldable secret_like_text_re : List (List Piece)
secret_like_text_re =
    (words "password" ∷ [])
    ∷ (words "secret" ∷ [])
    ∷ (words "token" ∷ [])
    ∷ (words "api" ∷ joint ∷ words "key" ∷ [])
    ∷ (words "connection" ∷ spaces ∷ words "string" ∷ [])
    ∷ (words "row" ∷ spaces ∷ words "data" ∷ [])
    ∷ (words "raw" ∷ some_spaces ∷ words "prompt" ∷ [])
    ∷ (words "raw" ∷ some_spaces ∷ words "sql" ∷ [])
    ∷ (words "raw" ∷ some_spaces ∷ words "provider" ∷ [])
    ∷ (words "full" ∷ some_spaces ∷ words "definition" ∷ [])
    ∷ (words "full" ∷ some_spaces ∷ words "sql" ∷ [])
    ∷ (words "select" ∷ some_spaces ∷ words "*" ∷ [])
    ∷ (words "drop" ∷ some_spaces ∷ words "table" ∷ [])
    ∷ (words "truncate" ∷ some_spaces ∷ words "table" ∷ [])
    ∷ (words "exec" ∷ some_spaces ∷ [])
    ∷ (words "execute" ∷ some_spaces ∷ [])
    ∷ []

unfoldable any_matches : List (List Piece) → Text → Bool
unfolding matches
any_matches [] text = false
any_matches (ps ∷ alternatives) text = matches ps text || any_matches alternatives text

-- at some place of the text, its end included
unfoldable search_from : Text → Bool
unfolding any_matches secret_like_text_re
search_from [] = any_matches secret_like_text_re []
search_from (c ∷ s) = any_matches secret_like_text_re (c ∷ s) || search_from s

-- `SECRET_LIKE_TEXT_RE.search(text)`
unfoldable pub is_secret_like : Text → Bool
unfolding search_from
is_secret_like text = search_from (lower text)

unfoldable pub redacted : Text
redacted = codes "[REDACTED_REVIEW_REQUIRED]"

unfoldable pub sanitize_text : Text → Text
sanitize_text text = if is_secret_like text then redacted else text

unfoldable mutual
  pub sanitize : Json → Json
  sanitize null = null
  sanitize (bool b) = bool b
  sanitize (int n) = int n
  sanitize (float r) = float r
  sanitize (str s) = str (sanitize_text s)
  sanitize (arr vs) = arr (sanitize_items vs)
  sanitize (obj d) = obj (sanitize_design_request_payload d)

  pub sanitize_items : Items → Items
  sanitize_items nil = nil
  sanitize_items (cons v vs) = cons (sanitize v) (sanitize_items vs)

  pub sanitize_design_request_payload : Fields → Fields
  sanitize_design_request_payload empty = empty
  sanitize_design_request_payload (field key v d) =
      field key (sanitize v) (sanitize_design_request_payload d)
