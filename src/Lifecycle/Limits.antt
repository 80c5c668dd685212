-- ===== src/Lifecycle/Limits.antt =====
-- Artifact statuses under validation, and page sizes.
use mssql_ai_project.Base.{◌≤◌, Option, none, some, arith, string_eq}
use mssql_ai_project.Base.Int.{ℤ, pos, negsuc}
use mssql_ai_project.Lifecycle.{artifact_status_eq, normalize_page_limit}

-- Every page has between 1 and 100 items.
pub normalize_page_limit_bounds :
    (limit : Option ℤ) → (1 ≤ normalize_page_limit limit) × (normalize_page_limit limit ≤ 100)
unfolding normalize_page_limit
normalize_page_limit_bounds none = (omega arith, omega arith)
normalize_page_limit_bounds (some (pos m)) = (omega arith, omega arith)
normalize_page_limit_bounds (some (negsuc m)) = (omega arith, omega arith)
