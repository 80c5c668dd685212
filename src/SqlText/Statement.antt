-- ===== src/SqlText/Statement.antt =====
-- packages/analysis/src/ai_agent_analysis/sql_utils.py, _find_statement_end: the semicolon that ends
-- a statement.
use mssql_ai_project.Base.{
  ℕ, suc, ◌+◌, ◌-◌, ◌≡◌, Bool, false, ◌&&◌, ◌||◌, some, [], ◌∷◌, ◌++◌, length, nat_beq,
  if◌then◌else◌, arith,
}
use mssql_ai_project.Base.Text.{Text}
use mssql_ai_project.SqlText.{scan_statement, find_statement_end}
use mssql_ai_project.SqlText.Balance.{depth_after, IsBalanced, drop-length}

-- A semicolon stands outside parentheses, at the depth of the text's start or where it came back.
unfoldable pub has_end : ℕ → Text → Bool
has_end n [] = false
has_end n (c ∷ s) =
    let opened = has_end (suc n) s in
    let closed = has_end (n - 1) s in
    let same = has_end n s in
    if nat_beq c b'('
    then opened
    else if nat_beq c b')'
    then closed
    else (nat_beq c b';' && nat_beq n 0) || same

scan_statement-stops :
    (n index : ℕ) (statement after : Text)
    → depth_after n statement ≡ some 0
    → has_end n statement ≡ false
    → scan_statement n index (statement ++ b';' ∷ after) ≡ index + length statement
unfolding scan_statement depth_after has_end
scan_statement-stops n index [] after h e = ground arith
scan_statement-stops n index (c ∷ s) after h e = ground (
  arith,
  scan_statement-stops (n + 1) (suc index) s after,
  scan_statement-stops (n - 1) (suc index) s after,
  scan_statement-stops n (suc index) s after,
)

-- From the start of a balanced statement without a semicolon outside parentheses,
-- `_find_statement_end` returns the index of the semicolon that follows it.
pub find_statement_end-stops :
    (before statement after : Text)
    → IsBalanced statement
    → has_end 0 statement ≡ false
    → find_statement_end (before ++ (statement ++ b';' ∷ after)) (length before)
      ≡ length before + length statement
unfolding find_statement_end
find_statement_end-stops before statement after h e =
    rw (drop-length before (statement ++ b';' ∷ after))
      (scan_statement-stops 0 (length before) statement after h e)
