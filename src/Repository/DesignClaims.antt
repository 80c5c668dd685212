-- ===== src/Repository/DesignClaims.antt =====
-- Claims on design runs that are queued, or that their worker seems to have dropped.
use mssql_ai_project.Base.{
  ℕ, ◌+◌, ◌<◌, String, ◌≡◌, refl, ap, ◌⊎◌, inl, inr, true, false, Option, none, some, arith,
  Bool-cases,
}
use mssql_ai_project.Base.Dict
use mssql_ai_project.Base.Dict.{get-put_self}
use mssql_ai_project.Base.Result.{Result, ok}
use mssql_ai_project.Base.Exec.{◌>>=◌}
use mssql_ai_project.Repository.Records.{MetadataDesignRunRecord}
use mssql_ai_project.Repository.State.{RepositoryError, World, MemoryWorkflowRepository, utc_now}
use mssql_ai_project.Repository.DesignRuns.{
  metadata_design_run_is_recoverable, if_design_recoverable, start_claimed_design,
  claim_metadata_design_run,
}

if_design_recoverable-cases :
    (b : ℕ) (o : Option MetadataDesignRunRecord)
    → (if_design_recoverable b o ≡ none)
      ⊎ ((run : MetadataDesignRunRecord) × (o ≡ some run)
          × (metadata_design_run_is_recoverable run b ≡ true)
          × (if_design_recoverable b o ≡ some run))
unfolding if_design_recoverable
if_design_recoverable-cases b none = inl refl
if_design_recoverable-cases b (some run) =
    elim (Bool-cases (metadata_design_run_is_recoverable run b)) [
      | inl e ↦ inr (run, refl, e, rw e refl)
      | inr e ↦ inl (rw e refl)
    ]

nothing_claimed :
    {A S : Type 0} {p : Result RepositoryError (Option A) × S} {s : S} {a : A}
    → p ≡ (ok none, s)
    → p.0 ≡ ok (some a)
    → ⊥
nothing_claimed e h = cc

module _ (w : World) (s : MemoryWorkflowRepository) (j : String) (before : ℕ) where
  run_none :
      if_design_recoverable before (Dict.get s.metadata_design_runs j) ≡ none
      → claim_metadata_design_run w j before s ≡ (ok none, s)
  unfolding claim_metadata_design_run ◌>>=◌ start_claimed_design
  run_none h = rw (h, start_claimed_design) refl

  run_some :
      (run : MetadataDesignRunRecord)
      → if_design_recoverable before (Dict.get s.metadata_design_runs j) ≡ some run
      → let started : MetadataDesignRunRecord = record run {
        status = "RUNNING";
        started_at = some (w.clock s.clock_reads);
        completed_at = none;
        result = none;
        error = none;
      } in
        claim_metadata_design_run w j before s ≡ (
          ok (some started),
          record s {
            metadata_design_runs = Dict.put s.metadata_design_runs j started;
            clock_reads = s.clock_reads + 1;
          },
        )
  unfolding claim_metadata_design_run ◌>>=◌ start_claimed_design utc_now
  run_some run h = rw (h, start_claimed_design) refl

started_not_recoverable :
    (before now : ℕ) (run : MetadataDesignRunRecord)
    → before < now
    → run.status ≡ "RUNNING"
    → run.started_at ≡ some now
    → metadata_design_run_is_recoverable run before ≡ false
unfolding metadata_design_run_is_recoverable
started_not_recoverable before now run h st at = rw (st, at) (ground arith)

-- `claim_metadata_design_run` gives a run to one claimer. If it returns a run and the clock that it
-- read stood past `stale_before`, then a run with that id was there, recoverable for `stale_before`; it
-- is stored as `RUNNING`, without result or error; and a second claim with the same limit returns
-- nothing and changes nothing.
pub claim_metadata_design_run_once :
    (w : World) (s : MemoryWorkflowRepository) (r : String) (before : ℕ)
    (claimed : MetadataDesignRunRecord)
    → (claim_metadata_design_run w r before s).0 ≡ ok (some claimed)
    → before < w.clock s.clock_reads
    → let t = (claim_metadata_design_run w r before s).1 in
      ((old : MetadataDesignRunRecord) × (Dict.get s.metadata_design_runs r ≡ some old)
        × (metadata_design_run_is_recoverable old before ≡ true))
      × (claimed.status ≡ "RUNNING")
      × (claimed.result ≡ none)
      × (claimed.error ≡ none)
      × (Dict.get t.metadata_design_runs r ≡ some claimed)
      × (claim_metadata_design_run w r before t ≡ (ok none, t))
unfolding if_design_recoverable
claim_metadata_design_run_once w s r before claimed e late =
    elim (if_design_recoverable-cases before (Dict.get s.metadata_design_runs r)) [
      | inl no_run ↦ absurd (nothing_claimed (run_none w s r before no_run) e)
      | inr (run, found, open_, picked) ↦
          let m = run_some w s r before run picked in
          let t = (claim_metadata_design_run w r before s).1 in
          let started : MetadataDesignRunRecord = record run {
            status = "RUNNING";
            started_at = some (w.clock s.clock_reads);
            completed_at = none;
            result = none;
            error = none;
          } in
          let same : claimed ≡ started = cc (ap (λ p. p.0) m, e) in
          let stored : Dict.get t.metadata_design_runs r ≡ some claimed =
            rw (ap (λ p. Dict.get p.1.metadata_design_runs r) m)
              (rw same (get-put_self s.metadata_design_runs r _)) in
          (
            (run, found, open_),
            ap (λ (q : MetadataDesignRunRecord). q.status) same,
            ap (λ (q : MetadataDesignRunRecord). q.result) same,
            ap (λ (q : MetadataDesignRunRecord). q.error) same,
            stored,
            run_none w t r before (
                rw (stored, if_design_recoverable)
                  (rw
                    (started_not_recoverable before (w.clock s.clock_reads) claimed late
                      (ap (λ (q : MetadataDesignRunRecord). q.status) same)
                      (ap (λ (q : MetadataDesignRunRecord). q.started_at) same))
                    refl)),
          )
    ]
