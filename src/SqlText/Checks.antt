-- ===== src/SqlText/Checks.antt =====
-- packages/analysis/src/ai_agent_analysis/sql_utils.py at concrete inputs.
use mssql_ai_project.Base.{◌+◌, ◌≡◌, ◌↔◌, refl, false, some, [], ◌∷◌, ◌++◌, length, map}
use mssql_ai_project.Base.Text.{Text, codes, strip}
use mssql_ai_project.SqlText.{
  find_matching_paren, find_statement_end, split_top_level_csv, tail_part,
}
use mssql_ai_project.SqlText.Balance.{depth_after, IsBalanced, find_matching_paren_iff}
use mssql_ai_project.SqlText.Statement.{has_end, find_statement_end-stops}
use mssql_ai_project.SqlText.Split.{
  Part, done, plain, comma, group, literal, no_more, other, doubled, join_parts,
  split_top_level_csv-join,
}

find_matching_paren_iff_example :
    (find_matching_paren (codes "max" ++ b'(' ∷ codes "f(a), b) as c") (length (codes "max"))
      ≡ some 11)
    ↔ ((inside after : Text) × (codes "f(a), b) as c" ≡ inside ++ b')' ∷ after)
        × IsBalanced inside
        × (11 ≡ length (codes "max") + 1 + length inside))
find_matching_paren_iff_example = find_matching_paren_iff (codes "max") (codes "f(a), b) as c") 11

-- `f(a,b)`
call_part : Part false (b'f' ∷ b'(' ∷ (codes "a,b" ++ b')' ∷ []))
call_part =
    plain b'f' refl refl refl refl
      (group (plain b'a' refl refl refl refl (comma (plain b'b' refl refl refl refl done))) done)

-- `'x''y,'`
literal_part : Part false (39 ∷ ((b'x' ∷ 39 ∷ 39 ∷ b'y' ∷ b',' ∷ []) ++ 39 ∷ []))
literal_part =
    literal (other b'x' refl (doubled (other b'y' refl (other b',' refl no_more)))) done refl

split_top_level_csv-join_example :
    split_top_level_csv (
      join_parts
        ((b'f' ∷ b'(' ∷ (codes "a,b" ++ b')' ∷ [])) ∷ [])
        (39 ∷ ((b'x' ∷ 39 ∷ 39 ∷ b'y' ∷ b',' ∷ []) ++ 39 ∷ [])))
    ≡ map strip ((b'f' ∷ b'(' ∷ (codes "a,b" ++ b')' ∷ [])) ∷ [])
      ++ tail_part (39 ∷ ((b'x' ∷ 39 ∷ 39 ∷ b'y' ∷ b',' ∷ []) ++ 39 ∷ []))
split_top_level_csv-join_example =
    split_top_level_csv-join ((b'f' ∷ b'(' ∷ (codes "a,b" ++ b')' ∷ [])) ∷ [])
      (39 ∷ ((b'x' ∷ 39 ∷ 39 ∷ b'y' ∷ b',' ∷ []) ++ 39 ∷ [])) (call_part, tt) literal_part

abbrev statement : Text
statement = codes "select f" ++ b'(' ∷ (codes "a;b" ++ b')' ∷ codes " from t")

statement-IsBalanced : IsBalanced statement
unfolding depth_after
statement-IsBalanced = refl

no_end_inside : has_end 0 statement ≡ false
unfolding has_end
no_end_inside = refl

find_statement_end-stops_example :
    find_statement_end (codes "go " ++ (statement ++ b';' ∷ codes " x")) (length (codes "go "))
    ≡ length (codes "go ") + length statement
find_statement_end-stops_example =
    find_statement_end-stops (codes "go ") statement (codes " x") statement-IsBalanced no_end_inside
