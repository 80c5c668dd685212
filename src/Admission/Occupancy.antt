-- ===== src/Admission/Occupancy.antt =====
-- _AdmissionCounter of apps/api/api_app/backpressure.py and
-- services/mssql-mcp/mssql_mcp_app/backpressure.py: who is inside, over every interleaving of callers
-- that enter and leave. A caller that reads a limit of zero or less is inside without being counted.
use mssql_ai_project.Base.{
  ℕ, ◌+◌, ◌≤◌, ◌<◌, ◌≡◌, refl, List, [], ◌∷◌, ◌++◌, arith, length, length-append,
}
use mssql_ai_project.Base.Int.{ℤ, pos, negsuc}
use mssql_ai_project.Admission.{acquired, unlimited, attempt, admit, release}

-- The counter, the callers that stand between their acquisition and their release, and the callers
-- that were let in without an acquisition and have not left yet.
pub record Admissions : Type 0 where
  pub active : ℕ
  pub counted : List ℕ
  pub uncounted : List ℕ

abbrev pub no_callers : Admissions
no_callers = record { active = 0; counted = []; uncounted = [] }

-- A step of any caller that lets it in or out, where the limits that callers read are `allowed`. A
-- caller leaves in any order, by a return or by an exception.
pub data Step (allowed : ℤ → Type 0) : Admissions → Admissions → Type 0 where
  enter :
      {active : ℕ} {counted uncounted : List ℕ} (caller : ℕ) (max_active : ℤ) (deadline now : ℕ)
      → allowed max_active
      → attempt max_active active deadline now ≡ acquired
      → Step allowed
          (record { active = active; counted = counted; uncounted = uncounted })
          (record { active = admit active; counted = caller ∷ counted; uncounted = uncounted })
  enter_unlimited :
      {active : ℕ} {counted uncounted : List ℕ} (caller : ℕ) (max_active : ℤ) (deadline now : ℕ)
      → allowed max_active
      → attempt max_active active deadline now ≡ unlimited
      → Step allowed
          (record { active = active; counted = counted; uncounted = uncounted })
          (record { active = active; counted = counted; uncounted = caller ∷ uncounted })
  leave :
      {active : ℕ} {uncounted : List ℕ} (before after : List ℕ) (caller : ℕ)
      → Step allowed
          (record { active = active; counted = before ++ caller ∷ after; uncounted = uncounted })
          (record { active = release active; counted = before ++ after; uncounted = uncounted })
  leave_unlimited :
      {active : ℕ} {counted : List ℕ} (before after : List ℕ) (caller : ℕ)
      → Step allowed
          (record { active = active; counted = counted; uncounted = before ++ caller ∷ after })
          (record { active = active; counted = counted; uncounted = before ++ after })

pub data Reach (allowed : ℤ → Type 0) : Admissions → Type 0 where
  start : Reach allowed no_callers
  then_step : {s t : Admissions} → Reach allowed s → Step allowed s t → Reach allowed t

module _ (allowed : ℤ → Type 0) where
  Step-counts :
      (s t : Admissions)
      → Step allowed s t
      → s.active ≡ length s.counted
      → t.active ≡ length t.counted
  unfolding admit release
  Step-counts _ _ (enter {active} {counted} caller m deadline now a e) h = omega arith
  Step-counts _ _ (enter_unlimited caller m deadline now a e) h = h
  Step-counts _ _ (leave {active} before after caller) h =
      omega (arith, length-append before (caller ∷ after), length-append before after)
  Step-counts _ _ (leave_unlimited before after caller) h = h

  pub Reach-counts : (s : Admissions) → Reach allowed s → s.active ≡ length s.counted
  Reach-counts _ start = refl
  Reach-counts _ (then_step {s} {t} r step) = Step-counts s t step (Reach-counts s r)

module _ (limit : ℕ) where
  -- positive settings of at most `limit`
  abbrev pub AtMost : ℤ → Type 0
  AtMost (pos m) = (1 ≤ m) × (m ≤ limit)
  AtMost (negsuc m) = ⊥

  acquired_below :
      (m : ℤ) (active deadline now : ℕ)
      → AtMost m
      → attempt m active deadline now ≡ acquired
      → active < limit
  unfolding attempt
  acquired_below (pos m) active deadline now a h = ground arith
  acquired_below (negsuc m) active deadline now a h = ground arith

  never_unlimited :
      (m : ℤ) (active deadline now : ℕ) → AtMost m → attempt m active deadline now ≡ unlimited → ⊥
  unfolding attempt
  never_unlimited (pos m) active deadline now a h = ground arith
  never_unlimited (negsuc m) active deadline now a h = a

  -- The counter is within the limit, and nobody is inside uncounted.
  abbrev IsWithin : Admissions → Type 0
  IsWithin s = (s.active ≤ limit) × (length s.uncounted ≡ 0)

  Step-IsWithin : (s t : Admissions) → Step AtMost s t → IsWithin s → IsWithin t
  unfolding admit release
  Step-IsWithin _ _ (enter {active} caller m deadline now a e) (h, none) =
      (omega (arith, acquired_below m active deadline now a e), none)
  Step-IsWithin _ _ (enter_unlimited {active} caller m deadline now a e) h =
      absurd (never_unlimited m active deadline now a e)
  Step-IsWithin _ _ (leave {active} before after caller) (h, none) = (omega arith, none)
  Step-IsWithin _ _ (leave_unlimited before after caller) (h, none) =
      (h, omega (arith, length-append before (caller ∷ after), length-append before after))

  Reach-IsWithin : (s : Admissions) → Reach AtMost s → IsWithin s
  Reach-IsWithin _ start = (omega arith, refl)
  Reach-IsWithin _ (then_step {s} {t} r step) = Step-IsWithin s t step (Reach-IsWithin s r)

  -- Where every caller reads a limit of at least one and at most `limit`, no order in which callers
  -- enter, wait and leave has more than `limit` of them inside at once, counted or not.
  pub Reach-bounded :
      (s : Admissions) → Reach AtMost s → length s.counted + length s.uncounted ≤ limit
  Reach-bounded s r =
      omega (arith, (Reach-IsWithin s r).0, (Reach-IsWithin s r).1, Reach-counts AtMost s r)
