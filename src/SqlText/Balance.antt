-- ===== src/SqlText/Balance.antt =====
-- packages/analysis/src/ai_agent_analysis/sql_utils.py, _find_matching_paren: the parenthesis that it
-- finds is the one that closes the first.
use mssql_ai_project.Base.{
  ℕ, zero, suc, ◌+◌, ◌-◌, ◌≡◌, refl, sym, ap, ◌∙◌, ◌↔◌, true, false, Option, none, some, [], ◌∷◌,
  ◌++◌, length, nat_beq, if◌then◌else◌, arith, Bool-cases, inl, inr,
}
use mssql_ai_project.Base.Int.{pos}
use mssql_ai_project.Base.Text.{Text}
use mssql_ai_project.SqlText.{drop, scan_paren, find_matching_paren}

-- The depth after a text that begins at a depth, unless it closes more than is open.
unfoldable pub depth_after : ℕ → Text → Option ℕ
depth_after n [] = some n
depth_after n (c ∷ s) =
    let opened = depth_after (suc n) s in
    let closed = depth_after (n - 1) s in
    let same = depth_after n s in
    if nat_beq c b'('
    then opened
    else if nat_beq c b')'
    then (if nat_beq n 0 then none else closed)
    else same

-- Every parenthesis in the text is closed in the text.
abbrev pub IsBalanced : Text → Type 0
IsBalanced s = depth_after 0 s ≡ some 0

-- The text has the form `inside ++ ")" ++ after`, where `inside` comes back from the depth to zero.
abbrev pub ClosesAt : ℕ → ℕ → ℕ → Text → Type 0
ClosesAt n index close s =
    (inside after : Text) × (s ≡ inside ++ b')' ∷ after)
    × (depth_after n inside ≡ some 0)
    × (close ≡ index + length inside)

scan_paren-finds :
    (n index : ℕ) (inside after : Text)
    → depth_after n inside ≡ some 0
    → scan_paren (pos (suc n)) index (inside ++ b')' ∷ after) ≡ some (index + length inside)
unfolding scan_paren depth_after
scan_paren-finds n index [] after h = ground arith
scan_paren-finds zero index (c ∷ s) after h =
    ground (arith, scan_paren-finds 1 (suc index) s after, scan_paren-finds 0 (suc index) s after)
scan_paren-finds (suc n) index (c ∷ s) after h = ground (
  arith,
  scan_paren-finds (suc (suc n)) (suc index) s after,
  scan_paren-finds n (suc index) s after,
  scan_paren-finds (suc n) (suc index) s after,
)

-- A code point before what closes at another depth.
step_before :
    (n m index close c : ℕ) (s : Text)
    → ((inside : Text) → depth_after m inside ≡ some 0 → depth_after n (c ∷ inside) ≡ some 0)
    → ClosesAt m (suc index) close s
    → ClosesAt n index close (c ∷ s)
step_before n m index close c s step (inside, after, e, level_, at) =
    (c ∷ inside, after, ap (λ r. c ∷ r) e, step inside level_, omega arith)

opens :
    (n c : ℕ) (inside : Text)
    → nat_beq c b'(' ≡ true
    → depth_after (suc n) inside ≡ some 0
    → depth_after n (c ∷ inside) ≡ some 0
unfolding depth_after
opens n c inside e h = ground arith

closes :
    (n c : ℕ) (inside : Text)
    → nat_beq c b')' ≡ true
    → depth_after n inside ≡ some 0
    → depth_after (suc n) (c ∷ inside) ≡ some 0
unfolding depth_after
closes n c inside e h = ground arith

passes_over :
    (n c : ℕ) (inside : Text)
    → nat_beq c b'(' ≡ false
    → nat_beq c b')' ≡ false
    → depth_after n inside ≡ some 0
    → depth_after n (c ∷ inside) ≡ some 0
unfolding depth_after
passes_over n c inside e f h = ground arith

at_close :
    (n index close c : ℕ) (s : Text)
    → ((m : ℕ)
        → scan_paren (pos (suc m)) (suc index) s ≡ some close
        → ClosesAt m (suc index) close s)
    → nat_beq c b')' ≡ true
    → scan_paren (pos (suc n)) index (c ∷ s) ≡ some close
    → ClosesAt n index close (c ∷ s)
unfolding scan_paren depth_after
at_close zero index close c s found shut h = ([], s, ground arith, refl, ground arith)
at_close (suc m) index close c s found shut h =
    step_before (suc m) m index close c s (λ i. closes m c i shut) (found m (ground arith))

scan_paren-found :
    (n index close : ℕ) (s : Text)
    → scan_paren (pos (suc n)) index s ≡ some close
    → ClosesAt n index close s
unfolding scan_paren depth_after
scan_paren-found n index close [] h = ground arith
scan_paren-found n index close (c ∷ s) h = elim (Bool-cases (nat_beq c b'(')) [
  | inl open_ ↦
      step_before n (suc n) index close c s (λ i. opens n c i open_)
        (scan_paren-found (suc n) (suc index) close s (ground arith))
  | inr e ↦ elim (Bool-cases (nat_beq c b')')) [
    | inl shut ↦ at_close n index close c s (λ m. scan_paren-found m (suc index) close s) shut h
    | inr other ↦
        step_before n n index close c s (λ i. passes_over n c i e other)
          (scan_paren-found n (suc index) close s (ground arith))
  ]
]

pub drop-length : (before s : Text) → drop (length before) (before ++ s) ≡ s
unfolding drop
drop-length [] s = refl
drop-length (c ∷ before) s = drop-length before s

find_from :
    (before s : Text)
    → find_matching_paren (before ++ b'(' ∷ s) (length before)
      ≡ scan_paren (pos 1) (length before + 1) s
unfolding find_matching_paren scan_paren
find_from before s = rw (drop-length before (b'(' ∷ s)) (ground arith)

-- From an opening parenthesis `_find_matching_paren` returns the index `close` exactly when the text
-- after it is a balanced text, a closing parenthesis at that index, and a rest.
pub find_matching_paren_iff :
    (before s : Text) (close : ℕ)
    → (find_matching_paren (before ++ b'(' ∷ s) (length before) ≡ some close) ↔ (
        (inside after : Text) × (s ≡ inside ++ b')' ∷ after)
        × IsBalanced inside
        × (close ≡ length before + 1 + length inside))
find_matching_paren_iff before s close = (
  λ h. scan_paren-found 0 (length before + 1) close s (sym (find_from before s) ∙ h),
  λ (inside, after, e, balanced, at).
      find_from before s
      ∙ ap (scan_paren (pos 1) (length before + 1)) e
      ∙ scan_paren-finds 0 (length before + 1) inside after balanced
      ∙ ap some (sym at),
)
