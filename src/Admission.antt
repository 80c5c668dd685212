-- ===== src/Admission.antt =====
-- apps/api/api_app/backpressure.py and services/mssql-mcp/mssql_mcp_app/backpressure.py: the counter
-- that admits at most `max_active` callers at a time. Its lock makes a pass of the waiting loop, and
-- the release, one step each. `time.monotonic()` is a number of milliseconds.
pub mod Waiting
pub mod Occupancy
mod Checks
use mssql_ai_project.Base.{
  ℕ, ◌+◌, ◌-◌, String, Option, none, some, List, [], ◌∷◌, Bool, leb, ltb, if◌then◌else◌,
}
use mssql_ai_project.Base.Text.{Text}
use mssql_ai_project.Base.Int.{ℤ, pos, negsuc}
use mssql_ai_project.Base.Env.{env_int, at_least_zero}

-- What one pass of `acquire` comes to.
pub data Attempt : Type 0 where
  unlimited : Attempt
  acquired : Attempt
  waits : Attempt
  refused : Attempt

-- `time.monotonic() + max(wait_ms, 0) / 1000`
unfoldable pub deadline_after : ℕ → ℤ → ℕ
deadline_after now wait_ms = now + at_least_zero wait_ms

unfoldable pub attempt : ℤ → ℕ → ℕ → ℕ → Attempt
attempt (negsuc m) active deadline now = unlimited
attempt (pos m) active deadline now =
    if leb m 0
    then unlimited
    else if ltb active m
    then acquired
    else if leb deadline now
    then refused
    else waits

-- What a caller saw of the counter at one pass of the loop, and when.
pub record Pass : Type 0 where
  pub active : ℕ
  pub now : ℕ

-- What a pass gives, or the rest of the loop if it has to wait.
abbrev pub or_next : Attempt → Attempt → Attempt
or_next unlimited rest = unlimited
or_next acquired rest = acquired
or_next refused rest = refused
or_next waits rest = rest

-- The loop over its passes, as far as the sequence of them goes.
unfoldable pub acquire : ℤ → ℕ → List Pass → Attempt
acquire max_active deadline [] = waits
acquire max_active deadline (p ∷ passes) =
    or_next (attempt max_active p.active deadline p.now) (acquire max_active deadline passes)

-- `self.active += 1`, where `acquire` comes to `acquired`
unfoldable pub admit : ℕ → ℕ
admit active = active + 1

-- `self.active = max(self.active - 1, 0)`
unfoldable pub release : ℕ → ℕ
release active = active - 1

-- `workflow_admission` and `metadata_admission`: the limit and the wait that they pass on.
module _ (getenv : String → Option Text) where
  unfoldable pub workflow_limits : ℤ × ℤ
  workflow_limits = (
    env_int getenv "WORKFLOW_MAX_ACTIVE_JOBS" (pos 4),
    env_int getenv "BACKPRESSURE_WAIT_MS" (pos 250),
  )

  unfoldable pub metadata_limits : ℤ × ℤ
  metadata_limits = (
    env_int getenv "MSSQL_METADATA_MAX_CONCURRENCY" (pos 4),
    env_int getenv "BACKPRESSURE_WAIT_MS" (pos 250),
  )
