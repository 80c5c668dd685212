-- ===== src/Lifecycle/Order.antt =====
-- The order that `ensure_job_transition` gives to the life of a job.
use mssql_ai_project.Base.{
  ℕ, ◌≤◌, ◌≡◌, refl, ◌≢◌, ◌↔◌, inl, inr, true, false, not, ◌&&◌, arith, ◌==◌, elem, Bool-cases,
}
use mssql_ai_project.Base.Result.{ok}
use mssql_ai_project.Lifecycle.{
  JobStatus, submitted, collecting_metadata, analyzing, generating, validating, validation_complete,
  canceled, job_eq, job_beq_iff, allowed_job_transitions, terminal_job_statuses,
  ensure_job_transition,
}

-- The changes of status that the lifecycle permits, as a relation.
pub data Permitted : JobStatus → JobStatus → Type 0 where
  stay : (s : JobStatus) → Permitted s s
  fail : (s : JobStatus) → s ≢ JobStatus.published → Permitted s JobStatus.failed
  collect : Permitted submitted collecting_metadata
  analyze : Permitted collecting_metadata analyzing
  generate : Permitted analyzing generating
  validate : Permitted generating validating
  complete : Permitted validating validation_complete

-- How far a job has come. `FAILED` is last, since every other status but `PUBLISHED` may fail.
abbrev pub stage : JobStatus → ℕ
stage submitted = 0
stage collecting_metadata = 1
stage analyzing = 2
stage generating = 3
stage validating = 4
stage validation_complete = 5
stage JobStatus.failed = 6
stage _ = 5

-- A job comes from one status to another by permitted changes, one after the other.
pub data Reach (s : JobStatus) : JobStatus → Type 0 where
  here : Reach s s
  next : {t u : JobStatus} → Reach s t → Permitted t u → Reach s u

Permitted-accepted : {a b : JobStatus} → Permitted a b → ensure_job_transition a b ≡ ok tt
unfolding ensure_job_transition allowed_job_transitions terminal_job_statuses elem
Permitted-accepted (stay s) = rw ((job_beq_iff s s).1 refl)
Permitted-accepted (fail s h) = ground (arith, job_beq_iff s JobStatus.published)
Permitted-accepted collect = refl
Permitted-accepted analyze = refl
Permitted-accepted generate = refl
Permitted-accepted validate = refl
Permitted-accepted complete = refl

allowed-Permitted : (a b : JobStatus) → elem b (allowed_job_transitions a) ≡ true → Permitted a b
unfolding elem allowed_job_transitions
allowed-Permitted submitted b h =
    let e : b ≡ collecting_metadata = ground (arith, job_beq_iff b collecting_metadata) in
    rw e collect
allowed-Permitted collecting_metadata b h =
    let e : b ≡ analyzing = ground (arith, job_beq_iff b analyzing) in rw e analyze
allowed-Permitted analyzing b h =
    let e : b ≡ generating = ground (arith, job_beq_iff b generating) in rw e generate
allowed-Permitted generating b h =
    let e : b ≡ validating = ground (arith, job_beq_iff b validating) in rw e validate
allowed-Permitted validating b h = elim (Bool-cases (b == validation_complete)) [
  | inl e ↦ rw ((job_beq_iff b validation_complete).0 e) complete
  | inr n ↦
      let e : b ≡ JobStatus.failed = ground (arith, job_beq_iff b JobStatus.failed) in
      rw e (fail validating (ground arith))
]
allowed-Permitted _ b h = cc

listed :
    (a b : JobStatus)
    → ensure_job_transition a b ≡ ok tt
    → (a == b) ≡ false
    → (b == JobStatus.failed && not (a == JobStatus.published)) ≡ false
    → elem b (allowed_job_transitions a) ≡ true
unfolding ensure_job_transition
listed a b h other live = ground arith

-- The failing branch, the statuses that a job ends in, and the table, in the order of the tests.
accepted-Permitted : (a b : JobStatus) → ensure_job_transition a b ≡ ok tt → Permitted a b
accepted-Permitted a b h = elim (Bool-cases (a == b)) [
  | inl e ↦ rw ((job_beq_iff a b).0 e) (stay b)
  | inr other ↦ elim (Bool-cases (b == JobStatus.failed && not (a == JobStatus.published))) [
    | inl e ↦
        let target : b ≡ JobStatus.failed = ground (arith, job_beq_iff b JobStatus.failed) in
        rw target (fail a (ground (arith, job_beq_iff a JobStatus.published)))
    | inr live ↦ allowed-Permitted a b (listed a b h other live)
  ]
]

-- `ensure_job_transition` accepts exactly the permitted changes of status: a status again, a failure
-- of what is not published, and the five steps from `SUBMITTED` to `VALIDATION_COMPLETE`. It raises
-- at every other pair.
pub ensure_job_transition_iff :
    (a b : JobStatus) → (ensure_job_transition a b ≡ ok tt) ↔ Permitted a b
ensure_job_transition_iff a b = (accepted-Permitted a b, Permitted-accepted)

stage-Permitted : {a b : JobStatus} → Permitted a b → stage a ≤ stage b
stage-Permitted (stay s) = omega arith
stage-Permitted (fail submitted h) = omega arith
stage-Permitted (fail s h) = omega arith
stage-Permitted collect = omega arith
stage-Permitted analyze = omega arith
stage-Permitted generate = omega arith
stage-Permitted validate = omega arith
stage-Permitted complete = omega arith

-- A job comes from one status to another by changes that `ensure_job_transition` accepts.
pub data Chain (s : JobStatus) : JobStatus → Type 0 where
  done : Chain s s
  accepted : {t u : JobStatus} → Chain s t → ensure_job_transition t u ≡ ok tt → Chain s u

Chain-Reach : {a b : JobStatus} → Chain a b → Reach a b
Chain-Reach done = here
Chain-Reach (accepted {t} {u} r e) = next (Chain-Reach r) (accepted-Permitted t u e)

stage-Reach : {a b : JobStatus} → Reach a b → stage a ≤ stage b
stage-Reach here = omega arith
stage-Reach (next r p) = omega (arith, stage-Reach r, stage-Permitted p)

-- Whatever changes `ensure_job_transition` accepts one after the other, a job never goes back to an
-- earlier stage: from `SUBMITTED` over the four working statuses to the statuses that come
-- after these, and last `FAILED`.
pub stage-Chain : {a b : JobStatus} → Chain a b → stage a ≤ stage b
stage-Chain r = stage-Reach (Chain-Reach r)

-- The statuses that a submitted job can come to.
abbrev pub IsRunning : JobStatus → Type 0
IsRunning JobStatus.review_pending = ⊥
IsRunning JobStatus.approved = ⊥
IsRunning JobStatus.rejected = ⊥
IsRunning JobStatus.published = ⊥
IsRunning canceled = ⊥
IsRunning _ = Unit

pub Permitted-IsRunning : {a b : JobStatus} → Permitted a b → IsRunning a → IsRunning b
Permitted-IsRunning (stay s) h = h
Permitted-IsRunning (fail s n) h = tt
Permitted-IsRunning collect h = tt
Permitted-IsRunning analyze h = tt
Permitted-IsRunning generate h = tt
Permitted-IsRunning validate h = tt
Permitted-IsRunning complete h = tt

-- From `SUBMITTED` no chain of accepted changes comes to `REVIEW_PENDING`, `APPROVED`, `REJECTED`,
-- `PUBLISHED` or `CANCELED`.
pub Reach-IsRunning : {b : JobStatus} → Reach submitted b → IsRunning b
Reach-IsRunning here = tt
Reach-IsRunning (next r p) = Permitted-IsRunning p (Reach-IsRunning r)
