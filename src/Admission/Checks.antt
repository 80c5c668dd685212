-- ===== src/Admission/Checks.antt =====
-- apps/api/api_app/backpressure.py at concrete inputs.
use mssql_ai_project.Base.{ℕ, ◌+◌, ◌≤◌, ◌≡◌, ◌≢◌, refl, [], ◌∷◌, length, arith}
use mssql_ai_project.Base.Int.{ℤ, pos}
use mssql_ai_project.Admission.{Pass, acquire, acquired, refused, waits, attempt, admit}
use mssql_ai_project.Admission.Waiting.{acquire_admits, acquire_refuses, acquire_ends}
use mssql_ai_project.Admission.Occupancy.{
  Admissions, Reach, start, then_step, enter, AtMost, Reach-bounded,
}

abbrev full_at : ℕ → Pass
full_at now = record { active = 2; now = now }

acquire_admits_example :
    acquire (pos 2) 250 (full_at 10 ∷ full_at 60 ∷ record { active = 1; now = 110 } ∷ []) ≡ acquired
acquire_admits_example =
    acquire_admits 2 250 (full_at 10 ∷ full_at 60 ∷ []) [] (record { active = 1; now = 110 })
      ((omega arith, omega arith), ((omega arith, omega arith), tt)) (omega arith)

acquire_refuses_example : acquire (pos 2) 250 (full_at 10 ∷ full_at 260 ∷ []) ≡ refused
acquire_refuses_example =
    acquire_refuses 2 250 (full_at 10 ∷ []) [] (full_at 260) (omega arith)
      ((omega arith, omega arith), tt) (omega arith) (omega arith)

acquire_ends_example : acquire (pos 2) 250 (full_at 10 ∷ full_at 260 ∷ []) ≢ waits
acquire_ends_example = acquire_ends (pos 2) 250 (full_at 10 ∷ []) [] (full_at 260) (omega arith)

-- Two callers enter, a third is let in uncounted, and the first leaves.
abbrev AnyLimit : ℤ → Type 0
AnyLimit m = Unit

abbrev one_left : Admissions
one_left = record { active = 1; counted = 8 ∷ []; uncounted = 9 ∷ [] }

abbrev both_inside : Admissions
both_inside = record { active = 2; counted = 8 ∷ 7 ∷ []; uncounted = [] }

two_entered : Reach (AtMost 2) both_inside
unfolding attempt admit
two_entered =
    then_step (then_step start (enter 7 (pos 2) 250 0 (omega arith, omega arith) refl))
      (enter 8 (pos 2) 260 10 (omega arith, omega arith) refl)

Reach-bounded_example : length both_inside.counted + length both_inside.uncounted ≤ 2
Reach-bounded_example = Reach-bounded 2 both_inside two_entered
