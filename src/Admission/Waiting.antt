-- ===== src/Admission/Waiting.antt =====
-- apps/api/api_app/backpressure.py, the loop of `acquire`: when it ends, and how.
use mssql_ai_project.Base.{ℕ, ◌≤◌, ◌<◌, ◌≡◌, ◌≢◌, refl, List, [], ◌∷◌, ◌++◌, arith, All}
use mssql_ai_project.Base.Int.{ℤ, pos, negsuc}
use mssql_ai_project.Admission.{
  Attempt, unlimited, acquired, waits, refused, Pass, attempt, acquire, or_next,
}

-- the pass is full and before the deadline
abbrev pub IsHeldUp : ℕ → ℕ → Pass → Type 0
IsHeldUp m deadline p = (m ≤ p.active) × (p.now < deadline)

held_up :
    (m deadline : ℕ) (p : Pass)
    → 1 ≤ m
    → IsHeldUp m deadline p
    → attempt (pos m) p.active deadline p.now ≡ waits
unfolding attempt
held_up m deadline p positive h = ground arith

skip_held_up :
    (m deadline : ℕ) (before after : List Pass)
    → 1 ≤ m
    → All (IsHeldUp m deadline) before
    → acquire (pos m) deadline (before ++ after) ≡ acquire (pos m) deadline after
unfolding acquire
skip_held_up m deadline [] after positive h = refl
skip_held_up m deadline (p ∷ before) after positive h =
    rw (held_up m deadline p positive h.0) (skip_held_up m deadline before after positive h.1)

-- The caller is admitted at the first pass that finds a free place, however late, if each pass
-- before it found the counter full and the deadline ahead.
pub acquire_admits :
    (m deadline : ℕ) (before after : List Pass) (p : Pass)
    → All (IsHeldUp m deadline) before
    → p.active < m
    → acquire (pos m) deadline (before ++ p ∷ after) ≡ acquired
unfolding acquire attempt
acquire_admits m deadline before after p h free =
    rw (skip_held_up m deadline before (p ∷ after) (omega arith) h) (ground arith)

-- The caller is refused at the first pass after the deadline, if that one and all before found the
-- counter full.
pub acquire_refuses :
    (m deadline : ℕ) (before after : List Pass) (p : Pass)
    → 1 ≤ m
    → All (IsHeldUp m deadline) before
    → m ≤ p.active
    → deadline ≤ p.now
    → acquire (pos m) deadline (before ++ p ∷ after) ≡ refused
unfolding acquire attempt
acquire_refuses m deadline before after p positive h full late =
    rw (skip_held_up m deadline before (p ∷ after) positive h) (ground arith)

attempt-ends :
    (max_active : ℤ) (deadline active now : ℕ)
    → deadline ≤ now
    → attempt max_active active deadline now ≢ waits
unfolding attempt
attempt-ends (pos m) deadline active now late = λ e. ground arith
attempt-ends (negsuc m) deadline active now late = λ e. ground arith

or_next-ends : (a b : Attempt) → b ≢ waits → or_next a b ≢ waits
or_next-ends unlimited b n = λ e. ground arith
or_next-ends acquired b n = λ e. ground arith
or_next-ends refused b n = λ e. ground arith
or_next-ends waits b n = n

or_next-ends_here : (a b : Attempt) → a ≢ waits → or_next a b ≢ waits
or_next-ends_here unlimited b n = n
or_next-ends_here acquired b n = n
or_next-ends_here refused b n = n
or_next-ends_here waits b n = elim (n refl) [ ]

-- The loop ends: a sequence of passes that reaches the deadline has a result, whatever the limit.
pub acquire_ends :
    (max_active : ℤ) (deadline : ℕ) (before after : List Pass) (p : Pass)
    → deadline ≤ p.now
    → acquire max_active deadline (before ++ p ∷ after) ≢ waits
unfolding acquire
acquire_ends max_active deadline [] after p late =
    or_next-ends_here _ (acquire max_active deadline after)
      (attempt-ends max_active deadline p.active p.now late)
acquire_ends max_active deadline (q ∷ before) after p late =
    or_next-ends (attempt max_active q.active deadline q.now) _
      (acquire_ends max_active deadline before after p late)
