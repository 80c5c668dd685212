-- ===== src/SqlText.antt =====
-- packages/analysis/src/ai_agent_analysis/sql_utils.py: the scanners that cut SQL text at commas, at
-- a matching parenthesis and at the end of a statement. A text is a list of code points, and an index
-- that runs along it is the recursion.
pub mod Balance
pub mod Split
pub mod Statement
mod Checks
use mssql_ai_project.Base.{
  ℕ, zero, suc, ◌+◌, ◌-◌, Bool, true, false, not, ◌&&◌, Option, none, some, List, [], ◌∷◌, ◌++◌,
  length, nat_beq, if◌then◌else◌,
}
use mssql_ai_project.Base.Int.{ℤ, pos, negsuc}
use mssql_ai_project.Base.Text.{Text, is_empty, strip}

-- `text[n:]`
unfoldable pub drop : ℕ → Text → Text
drop zero s = s
drop (suc n) [] = []
drop (suc n) (c ∷ s) = drop n s

abbrev pub up : ℤ → ℤ
up (pos n) = pos (suc n)
up (negsuc zero) = pos zero
up (negsuc (suc n)) = negsuc n

abbrev pub down : ℤ → ℤ
down (pos zero) = negsuc zero
down (pos (suc n)) = pos n
down (negsuc n) = negsuc (suc n)

abbrev pub is_level : ℤ → Bool
is_level (pos n) = nat_beq n 0
is_level (negsuc n) = false

-- The loop of `_find_matching_paren` from the index on; `depth` may fall below zero.
unfoldable pub scan_paren : ℤ → ℕ → Text → Option ℕ
scan_paren depth index [] = none
scan_paren depth index (c ∷ s) =
    let next : ℤ =
      if nat_beq c b'(' then up depth else if nat_beq c b')' then down depth else depth in
    let rest : Option ℕ = scan_paren next (suc index) s in
    if nat_beq c b')' && is_level next then some index else rest

unfoldable pub find_matching_paren : Text → ℕ → Option ℕ
find_matching_paren sql_text open_paren = scan_paren (pos 0) open_paren (drop open_paren sql_text)

-- The loop of `_find_statement_end` from the index on; `depth` stops at zero.
unfoldable pub scan_statement : ℕ → ℕ → Text → ℕ
scan_statement depth index [] = index
scan_statement depth index (c ∷ s) =
    let next : ℕ =
      if nat_beq c b'(' then depth + 1 else if nat_beq c b')' then depth - 1 else depth in
    let rest : ℕ = scan_statement next (suc index) s in
    if nat_beq c b';' && nat_beq depth 0 then index else rest

-- The start is an index into the text or its length.
unfoldable pub find_statement_end : Text → ℕ → ℕ
find_statement_end sanitized_sql start = scan_statement 0 start (drop start sanitized_sql)

-- What `split_top_level_csv` keeps between two code points. `skip` says that the next code point is
-- the second quote of a doubled one, over which the index steps.
pub record Scan : Type 0 where
  pub depth : ℕ
  pub in_string : Bool
  pub skip : Bool

abbrev pub level : Scan
level = record { depth = 0; in_string = false; skip = false }

abbrev pub before_quote : Text → Bool
before_quote [] = false
before_quote (c ∷ s) = nat_beq c 39

-- The state after a code point.
unfoldable pub advance : Scan → ℕ → Bool → Scan
advance st c quote_next =
    if st.skip
    then record st { skip = false }
    else if nat_beq c 39
    then (if st.in_string && quote_next
        then record st { skip = true }
        else record st { in_string = not st.in_string })
    else if st.in_string
    then st
    else if nat_beq c b'('
    then record st { depth = st.depth + 1 }
    else if nat_beq c b')'
    then record st { depth = st.depth - 1 }
    else st

-- A comma outside strings and parentheses ends a part.
unfoldable pub ends_part : Scan → ℕ → Bool
ends_part st c = not st.skip && not st.in_string && nat_beq c b',' && nat_beq st.depth 0

-- The last part, unless it is blank.
abbrev pub tail_part : Text → List Text
tail_part part = if is_empty (strip part) then [] else strip part ∷ []

unfoldable pub split_from : Scan → Text → Text → List Text
split_from st part [] = tail_part part
split_from st part (c ∷ s) =
    let ends : Bool = ends_part st c in
    let rest : List Text =
      split_from (advance st c (before_quote s)) (if ends then [] else part ++ c ∷ []) s in
    if ends then strip part ∷ rest else rest

unfoldable pub split_top_level_csv : Text → List Text
split_top_level_csv text = split_from level [] text
