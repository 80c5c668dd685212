-- ===== src/Base/Env.antt =====
-- Settings from the environment, read by the parameter `getenv` (`_env_flag` and `_env_int`, of which
-- services/mssql-mcp/mssql_mcp_app/tool_cache.py and the two files backpressure.py have a copy each).
use Prim.Native.Nat.{ℕ}
use Prim.Native.String.{String}
use mathlib.Core.Bool.{Bool}
use mathlib.Core.Option.{Option, none, some}
use mathlib.Core.List.{[], ◌∷◌}
use mssql_ai_project.Base.Tests.{if◌then◌else◌}
use mssql_ai_project.Base.Lists.{elem}
use mssql_ai_project.Base.Text.{Text, codes, text_eq, strip, lower, is_empty}
use mssql_ai_project.Base.Int.{ℤ, pos, negsuc}
use mssql_ai_project.Base.Values.{parse_int}

-- `max(n, 0)`
abbrev pub at_least_zero : ℤ → ℕ
at_least_zero (pos n) = n
at_least_zero (negsuc n) = 0

abbrev int_or : Option ℤ → ℤ → ℤ
int_or none default = default
int_or (some n) default = n

module _ (getenv : String → Option Text) where
  unfoldable pub env_flag : String → Bool → Bool
  env_flag name default = elim (getenv name) [
    | none ↦ default
    | some value ↦
        if is_empty (strip value)
        then default
        else elem (lower (strip value)) (codes "1" ∷ codes "true" ∷ codes "yes" ∷ codes "on" ∷ [])
  ]

  unfoldable pub env_int : String → ℤ → ℤ
  env_int name default = elim (getenv name) [
    | none ↦ default
    | some value ↦ if is_empty (strip value) then default else int_or (parse_int value) default
  ]
