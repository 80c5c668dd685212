-- ===== src/Repository/StaleClaims.antt =====
-- Claims on work that its worker seems to have dropped: stale jobs, and queued or stale analysis
-- runs. A claim reads the clock, and what it claimed is not stale for a claimer with the same limit.
use mssql_ai_project.Base.{
  ℕ, ◌+◌, ◌<◌, String, ◌≡◌, refl, ap, ◌⊎◌, inl, inr, true, false, Option, none, some, arith,
  Bool-cases,
}
use mssql_ai_project.Base.Dict
use mssql_ai_project.Base.Dict.{get-put_self}
use mssql_ai_project.Base.Result.{Result, ok}
use mssql_ai_project.Base.Exec.{◌>>=◌}
use mssql_ai_project.Repository.Records.{JobRecord, MetadataAnalysisRunRecord}
use mssql_ai_project.Repository.State.{RepositoryError, World, MemoryWorkflowRepository, utc_now}
use mssql_ai_project.Repository.Jobs.{is_stale, if_stale, touch, claim_stale_active_job}
use mssql_ai_project.Repository.Runs.{
  metadata_analysis_run_is_recoverable, if_recoverable, start_claimed, claim_metadata_analysis_run,
}

if_stale-cases :
    (b : ℕ) (o : Option JobRecord)
    → (if_stale b o ≡ none)
      ⊎ ((job : JobRecord) × (o ≡ some job) × (is_stale b job ≡ true) × (if_stale b o ≡ some job))
unfolding if_stale
if_stale-cases b none = inl refl
if_stale-cases b (some job) = elim (Bool-cases (is_stale b job)) [
  | inl e ↦ inr (job, refl, e, rw e refl)
  | inr e ↦ inl (rw e refl)
]

if_recoverable-cases :
    (b : ℕ) (o : Option MetadataAnalysisRunRecord)
    → (if_recoverable b o ≡ none)
      ⊎ ((run : MetadataAnalysisRunRecord) × (o ≡ some run)
          × (metadata_analysis_run_is_recoverable run b ≡ true)
          × (if_recoverable b o ≡ some run))
unfolding if_recoverable
if_recoverable-cases b none = inl refl
if_recoverable-cases b (some run) = elim (Bool-cases (metadata_analysis_run_is_recoverable run b)) [
  | inl e ↦ inr (run, refl, e, rw e refl)
  | inr e ↦ inl (rw e refl)
]

nothing_claimed :
    {A S : Type 0} {p : Result RepositoryError (Option A) × S} {s : S} {a : A}
    → p ≡ (ok none, s)
    → p.0 ≡ ok (some a)
    → ⊥
nothing_claimed e h = cc

module _ (w : World) (s : MemoryWorkflowRepository) (j : String) (before : ℕ) where
  stale_none :
      if_stale before (Dict.get s.jobs j) ≡ none
      → claim_stale_active_job w j before s ≡ (ok none, s)
  unfolding claim_stale_active_job ◌>>=◌ touch
  stale_none h = rw (h, touch) refl

  stale_some :
      (job : JobRecord)
      → if_stale before (Dict.get s.jobs j) ≡ some job
      → let kept : JobRecord = record job { updated_at = w.clock s.clock_reads } in
        claim_stale_active_job w j before s ≡ (
          ok (some kept),
          record s { jobs = Dict.put s.jobs j kept; clock_reads = s.clock_reads + 1 },
        )
  unfolding claim_stale_active_job ◌>>=◌ touch utc_now
  stale_some job h = rw (h, touch) refl

  run_none :
      if_recoverable before (Dict.get s.metadata_analysis_runs j) ≡ none
      → claim_metadata_analysis_run w j before s ≡ (ok none, s)
  unfolding claim_metadata_analysis_run ◌>>=◌ start_claimed
  run_none h = rw (h, start_claimed) refl

  run_some :
      (run : MetadataAnalysisRunRecord)
      → if_recoverable before (Dict.get s.metadata_analysis_runs j) ≡ some run
      → let started : MetadataAnalysisRunRecord = record run {
        status = "RUNNING";
        started_at = some (w.clock s.clock_reads);
        completed_at = none;
        error = none;
      } in
        claim_metadata_analysis_run w j before s ≡ (
          ok (some started),
          record s {
            metadata_analysis_runs = Dict.put s.metadata_analysis_runs j started;
            clock_reads = s.clock_reads + 1;
          },
        )
  unfolding claim_metadata_analysis_run ◌>>=◌ start_claimed utc_now
  run_some run h = rw (h, start_claimed) refl

started_not_recoverable :
    (before now : ℕ) (run : MetadataAnalysisRunRecord)
    → before < now
    → run.status ≡ "RUNNING"
    → run.started_at ≡ some now
    → metadata_analysis_run_is_recoverable run before ≡ false
unfolding metadata_analysis_run_is_recoverable
started_not_recoverable before now run h st at = rw (st, at) (ground arith)

touched_not_stale :
    (before now : ℕ) (job : JobRecord)
    → before < now
    → is_stale before (record job { updated_at = now }) ≡ false
unfolding is_stale
touched_not_stale before now job h = ground arith

-- `claim_stale_active_job` gives a stale job to one claimer. If it returns a job and the clock that it
-- read stood past `stale_before`, then an active job with that id was there, not updated after
-- `stale_before`; it is stored with the new time and else unchanged; and a second claim with the same
-- limit returns nothing and changes nothing.
pub claim_stale_active_job_once :
    (w : World) (s : MemoryWorkflowRepository) (j : String) (before : ℕ) (claimed : JobRecord)
    → (claim_stale_active_job w j before s).0 ≡ ok (some claimed)
    → before < w.clock s.clock_reads
    → let t = (claim_stale_active_job w j before s).1 in
      ((old : JobRecord) × (Dict.get s.jobs j ≡ some old)
        × (is_stale before old ≡ true)
        × (claimed ≡ record old { updated_at = w.clock s.clock_reads }))
      × (Dict.get t.jobs j ≡ some claimed)
      × (claim_stale_active_job w j before t ≡ (ok none, t))
unfolding if_stale
claim_stale_active_job_once w s j before claimed e late =
    elim (if_stale-cases before (Dict.get s.jobs j)) [
      | inl no_job ↦ absurd (nothing_claimed (stale_none w s j before no_job) e)
      | inr (job, found, stale, picked) ↦
          let m = stale_some w s j before job picked in
          let t = (claim_stale_active_job w j before s).1 in
          let same : claimed ≡ record job { updated_at = w.clock s.clock_reads } =
            cc (ap (λ p. p.0) m, e) in
          let stored : Dict.get t.jobs j ≡ some claimed =
            rw (ap (λ p. Dict.get p.1.jobs j) m) (rw same (get-put_self s.jobs j _)) in
          (
            (job, found, stale, same),
            stored,
            stale_none w t j before (
                rw (stored, if_stale)
                  (rw same (rw (touched_not_stale before (w.clock s.clock_reads) job late) refl))),
          )
    ]

-- `claim_metadata_analysis_run` gives a run to one claimer. If it returns a run and the clock that it
-- read stood past `stale_before`, then a run with that id was there, recoverable for `stale_before`; it
-- is stored as `RUNNING`, without error; and a second claim with the same limit returns nothing and
-- changes nothing.
pub claim_metadata_analysis_run_once :
    (w : World) (s : MemoryWorkflowRepository) (r : String) (before : ℕ)
    (claimed : MetadataAnalysisRunRecord)
    → (claim_metadata_analysis_run w r before s).0 ≡ ok (some claimed)
    → before < w.clock s.clock_reads
    → let t = (claim_metadata_analysis_run w r before s).1 in
      ((old : MetadataAnalysisRunRecord) × (Dict.get s.metadata_analysis_runs r ≡ some old)
        × (metadata_analysis_run_is_recoverable old before ≡ true))
      × (claimed.status ≡ "RUNNING")
      × (claimed.error ≡ none)
      × (Dict.get t.metadata_analysis_runs r ≡ some claimed)
      × (claim_metadata_analysis_run w r before t ≡ (ok none, t))
unfolding if_recoverable
claim_metadata_analysis_run_once w s r before claimed e late =
    elim (if_recoverable-cases before (Dict.get s.metadata_analysis_runs r)) [
      | inl no_run ↦ absurd (nothing_claimed (run_none w s r before no_run) e)
      | inr (run, found, open_, picked) ↦
          let m = run_some w s r before run picked in
          let t = (claim_metadata_analysis_run w r before s).1 in
          let started : MetadataAnalysisRunRecord = record run {
            status = "RUNNING";
            started_at = some (w.clock s.clock_reads);
            completed_at = none;
            error = none;
          } in
          let same : claimed ≡ started = cc (ap (λ p. p.0) m, e) in
          let stored : Dict.get t.metadata_analysis_runs r ≡ some claimed =
            rw (ap (λ p. Dict.get p.1.metadata_analysis_runs r) m)
              (rw same (get-put_self s.metadata_analysis_runs r _)) in
          (
            (run, found, open_),
            ap (λ (q : MetadataAnalysisRunRecord). q.status) same,
            ap (λ (q : MetadataAnalysisRunRecord). q.error) same,
            stored,
            run_none w t r before (
                rw (stored, if_recoverable)
                  (rw
                    (started_not_recoverable before (w.clock s.clock_reads) claimed late
                      (ap (λ (q : MetadataAnalysisRunRecord). q.status) same)
                      (ap (λ (q : MetadataAnalysisRunRecord). q.started_at) same))
                    refl)),
          )
    ]
