-- ===== src/Base/Exec/Keeps.antt =====
-- What an action keeps of the state, whether it returns or raises, with one rule for each way to
-- build an action. `R s t`: the state `t` after the action keeps what matters of `s` before it.
use mathlib.Core.Path.{◌≡◌, refl}
use mathlib.Core.Bool.{Bool, true, false}
use mathlib.Core.Option.{Option, none, some}
use mssql_ai_project.Base.Tests.{if◌then◌else◌}
use mssql_ai_project.Base.Result.{Result, ok, err}
use mssql_ai_project.Base.Exec.{Exec, pure, raise, lift, gets, or_raise, modify, continue, ◌>>=◌}

pub record IsKept {S : Type 0} (R : S → S → Type 0) : Type 0 where
  pub same : (s : S) → R s s
  pub join : (s t u : S) → R s t → R t u → R s u

-- An invariant is kept as the implication from the state before to the state after.
abbrev pub Invariant : {S : Type 0} → (S → Type 0) → S → S → Type 0
Invariant P s t = P s → P t

pub Invariant-IsKept : {S : Type 0} (P : S → Type 0) → IsKept (Invariant P)
Invariant-IsKept P = record { same = λ s h. h; join = λ s t u f g h. g (f h) }

pub record Keeps {E S A : Type 0} (R : S → S → Type 0) (m : Exec E S A) : Type 0 where
  pub at : (s : S) → R s (m s).1

module _ {E S A : Type 0} {R : S → S → Type 0} where
  pub Keeps-pure : IsKept R → (a : A) → Keeps R (pure {E = E} a)
  unfolding pure
  Keeps-pure k a = record { at = k.same }

  pub Keeps-raise : IsKept R → (e : E) → Keeps R (raise {A = A} e)
  unfolding raise
  Keeps-raise k e = record { at = k.same }

  pub Keeps-lift : IsKept R → (r : Result E A) → Keeps R (lift r)
  unfolding lift
  Keeps-lift k r = record { at = k.same }

  pub Keeps-gets : IsKept R → (f : S → A) → Keeps R (gets {E = E} f)
  unfolding gets
  Keeps-gets k f = record { at = k.same }

  pub Keeps-or_raise : IsKept R → (e : E) (o : Option A) → Keeps R (or_raise e o)
  unfolding or_raise
  Keeps-or_raise k e none = record { at = k.same }
  Keeps-or_raise k e (some a) = record { at = k.same }

  pub Keeps-if :
      (b : Bool) (m n : Exec E S A)
      → (b ≡ true → Keeps R m)
      → (b ≡ false → Keeps R n)
      → Keeps R (if b then m else n)
  Keeps-if true m n km kn = km refl
  Keeps-if false m n km kn = kn refl

module _ {E S : Type 0} {R : S → S → Type 0} where
  pub Keeps-modify : (f : S → S) → ((s : S) → R s (f s)) → Keeps R (modify {E = E} f)
  unfolding modify
  Keeps-modify f h = record { at = h }

module _ {E S A B : Type 0} {R : S → S → Type 0} (k : IsKept R) where
  Keeps-continue :
      (f : A → Exec E S B) (s t : S) (r : Result E A)
      → ((a : A) → Keeps R (f a))
      → R s t
      → R s (continue r f t).1
  Keeps-continue f s t (ok a) kf h = k.join s t (f a t).1 h ((kf a).at t)
  Keeps-continue f s t (err e) kf h = h

  pub Keeps-bind :
      (m : Exec E S A) (f : A → Exec E S B)
      → Keeps R m
      → ((a : A) → Keeps R (f a))
      → Keeps R (m >>= f)
  unfolding ◌>>=◌
  Keeps-bind m f km kf = record {
    at = λ s. let (r, t) = m s in Keeps-continue f s t r kf (km.at s);
  }

pub ruleset keeps_rules =
    (Keeps-pure, Keeps-raise, Keeps-lift, Keeps-gets, Keeps-or_raise, Keeps-if, Keeps-bind)
