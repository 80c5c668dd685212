-- ===== src/Base/Exec.antt =====
-- Methods that change an object and may raise: the state comes back beside the result, after a
-- raise too, since what was written before it stays written.
pub mod Keeps
use mathlib.Core.Option.{Option, none, some}
use mssql_ai_project.Base.Result.{Result, ok, err}

abbrev pub Exec : Type 0 → Type 0 → Type 0 → Type 0
Exec E S A = S → Result E A × S

module _ {E S A : Type 0} where
  unfoldable pub pure : A → Exec E S A
  pure a s = (ok a, s)

  unfoldable pub raise : E → Exec E S A
  raise e s = (err e, s)

  -- a pure call that may raise
  unfoldable pub lift : Result E A → Exec E S A
  lift r s = (r, s)

  -- a read of the state
  unfoldable pub gets : (S → A) → Exec E S A
  gets f s = (ok (f s), s)

  -- `d[k]`: a missing key raises
  unfoldable pub or_raise : E → Option A → Exec E S A
  or_raise e none s = (err e, s)
  or_raise e (some a) s = (ok a, s)

module _ {E S : Type 0} where
  -- an assignment
  unfoldable pub modify : (S → S) → Exec E S (Unit {0})
  modify f s = (ok tt, f s)

module _ {E S A B : Type 0} where
  abbrev pub continue : Result E A → (A → Exec E S B) → Exec E S B
  continue (ok a) f s = f a s
  continue (err e) f s = (err e, s)

  infixl 5 ◌>>=◌ ◌>>◌
  -- opening this opens the actions above too
  unfoldable pub ◌>>=◌ : Exec E S A → (A → Exec E S B) → Exec E S B
  unfolding pure raise lift gets or_raise modify
  ◌>>=◌ m f s = let (r, s') = m s in continue r f s'

  abbrev pub ◌>>◌ : Exec E S A → Exec E S B → Exec E S B
  m >> k = m >>= λ _. k
