-- ===== src/Repository/Claims.antt =====
-- Claims: of two workers that ask for the same work, one gets it.
use mssql_ai_project.Base.{
  String, ◌≡◌, refl, ap, ◌⊎◌, inl, inr, true, false, Option, none, some, Bool-cases, ◌==◌,
}
use mssql_ai_project.Base.Dict
use mssql_ai_project.Base.Dict.{get-put_self}
use mssql_ai_project.Base.Result.{ok}
use mssql_ai_project.Base.Exec.{◌>>=◌}
use mssql_ai_project.Lifecycle.{
  submitted, collecting_metadata, collect_metadata, job_eq, job_beq_iff,
}
use mssql_ai_project.Lifecycle.Order.{Permitted, ensure_job_transition_iff}
use mssql_ai_project.Repository.Records.{JobRecord}
use mssql_ai_project.Repository.State.{World, MemoryWorkflowRepository}
use mssql_ai_project.Repository.Jobs.{not_submitted, claim_submitted_job}
use mssql_ai_project.Repository.Transitions.{moved, IsMoveTo, transition_job_accepted}

not_submitted-cases :
    (o : Option JobRecord)
    → (not_submitted o ≡ true) ⊎ ((job : JobRecord) × (o ≡ some job) × (job.status ≡ submitted))
unfolding not_submitted
not_submitted-cases none = inl refl
not_submitted-cases (some job) = elim (Bool-cases (job.status == submitted)) [
  | inl e ↦ inr (job, refl, (job_beq_iff job.status submitted).0 e)
  | inr e ↦ inl (rw e refl)
]

submitted_open :
    (o : Option JobRecord) (job : JobRecord)
    → o ≡ some job
    → job.status ≡ submitted
    → not_submitted o ≡ false
unfolding not_submitted
submitted_open o job e st = rw e (rw st refl)

module _ (w : World) (s : MemoryWorkflowRepository) (j : String) where
  -- A submitted job that is there is claimed, as one transition to `COLLECTING_METADATA`.
  pub claim_submitted_job_lem :
      (job : JobRecord)
      → Dict.get s.jobs j ≡ some job
      → job.status ≡ submitted
      → let claimed = moved w s collecting_metadata (some collect_metadata) job in
        let (r, t) = claim_submitted_job w j s in
        (r ≡ ok (some claimed)) × IsMoveTo w s "JOB_TRANSITIONED" j claimed t
  unfolding claim_submitted_job ◌>>=◌
  claim_submitted_job_lem job found st =
      let m =
        transition_job_accepted w s j collecting_metadata (some collect_metadata) job found
          (rw st ((ensure_job_transition_iff submitted collecting_metadata).1 Permitted.collect)) in
      rw (submitted_open (Dict.get s.jobs j) job found st) (rw m.0 (refl, m.1))

  claim_submitted_job-none :
      not_submitted (Dict.get s.jobs j) ≡ true → claim_submitted_job w j s ≡ (ok none, s)
  unfolding claim_submitted_job ◌>>=◌
  claim_submitted_job-none h = rw h refl

-- `claim_submitted_job` gives a job to one claimer. If it returns a job, that job was stored as
-- `SUBMITTED` and is now stored as `COLLECTING_METADATA`, as it was returned, and a second claim of it
-- returns nothing and changes nothing.
pub claim_submitted_job_once :
    (w : World) (s : MemoryWorkflowRepository) (j : String) (claimed : JobRecord)
    → (claim_submitted_job w j s).0 ≡ ok (some claimed)
    → let t = (claim_submitted_job w j s).1 in
      ((old : JobRecord) × (Dict.get s.jobs j ≡ some old) × (old.status ≡ submitted))
      × (claimed.status ≡ collecting_metadata)
      × (Dict.get t.jobs j ≡ some claimed)
      × (claim_submitted_job w j t ≡ (ok none, t))
claim_submitted_job_once w s j claimed e = elim (not_submitted-cases (Dict.get s.jobs j)) [
  | inl shut ↦ absurd (claims_nothing (claim_submitted_job-none w s j shut) e)
  | inr (job, found, st) ↦
      let m = claim_submitted_job_lem w s j job found st in
      let t = (claim_submitted_job w j s).1 in
      let same : claimed ≡ moved w s collecting_metadata (some collect_metadata) job =
        cc (m.0, e) in
      let stored : Dict.get t.jobs j ≡ some claimed =
        cc (ap (λ d. Dict.get d j) m.1.0, get-put_self s.jobs j claimed, same) in
      (
        (job, found, st),
        rw same refl,
        stored,
        claim_submitted_job-none w t j (rw stored (rw same (unfold not_submitted in refl))),
      )
]
  where
    claims_nothing :
        claim_submitted_job w j s ≡ (ok none, s)
        → (claim_submitted_job w j s).0 ≡ ok (some claimed)
        → ⊥
    claims_nothing p q = cc
