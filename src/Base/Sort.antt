-- ===== src/Base/Sort.antt =====
-- Python's `sorted`: stable. `before a b` says that `a` must stand before `b`; for `reverse=True`
-- it compares the other way round, and equal items still keep their order.
use Prim.Native.Nat.{ℕ}
use Prim.Native.Nat.{Ordering}
use Prim.Native.String.{String, compare}
use mathlib.Core.Path.{◌≡◌}
use mathlib.Core.Logic.{inl, inr}
use mathlib.Core.Bool.{Bool, true, false}
use mathlib.Core.List.{List, [], ◌∷◌, Perm}
use mathlib.Core.List.Perm
use native.Mathlib.Omega.{arith}
use mssql_ai_project.Base.Tests.{if◌then◌else◌, ◌==◌, nat_eq, ltb, Bool-cases}
use mssql_ai_project.Base.Lists.{All}

abbrev pub text_ltb : String → String → Bool
text_ltb s t = elim (compare s t) [ Ordering.lt ↦ true | _ ↦ false ]

-- A pair of a time and an id is less than another.
unfoldable pub key_ltb : ℕ × String → ℕ × String → Bool
key_ltb (t, i) (u, j) = if t == u then text_ltb i j else ltb t u

module _ {ℓ} {A : Type ℓ} (before : A → A → Bool) where
  unfoldable pub insert_by : A → List A → List A
  insert_by x [] = x ∷ []
  insert_by x (y ∷ ys) = let rest = insert_by x ys in if before y x then y ∷ rest else x ∷ y ∷ ys

  unfoldable pub sort_by : List A → List A
  unfolding insert_by
  sort_by [] = []
  sort_by (x ∷ xs) = insert_by x (sort_by xs)

  -- No item stands before one that must stand before it.
  abbrev pub IsSortedBy : List A → Type 0
  IsSortedBy [] = Unit
  IsSortedBy (x ∷ []) = Unit
  IsSortedBy (x ∷ y ∷ ys) = (before y x ≡ false) × IsSortedBy (y ∷ ys)

  insert_by-IsSortedBy :
      ((a b : A) → before a b ≡ true → before b a ≡ false)
      → (x : A) (ys : List A) → IsSortedBy ys
      → IsSortedBy (insert_by x ys)
  unfolding insert_by
  insert_by-IsSortedBy asym x [] h = tt
  insert_by-IsSortedBy asym x (y ∷ []) h = ground (arith, asym y x)
  insert_by-IsSortedBy asym x (y ∷ z ∷ zs) h =
      ground (arith, asym y x, insert_by-IsSortedBy asym x (z ∷ zs) h.1)

  pub sort_by-IsSortedBy :
      ((a b : A) → before a b ≡ true → before b a ≡ false) → (xs : List A) → IsSortedBy (sort_by xs)
  unfolding sort_by
  sort_by-IsSortedBy asym [] = tt
  sort_by-IsSortedBy asym (x ∷ xs) =
      insert_by-IsSortedBy asym x (sort_by xs) (sort_by-IsSortedBy asym xs)

  insert_by-perm : (x : A) (ys : List A) → Perm (insert_by x ys) (x ∷ ys)
  unfolding insert_by
  insert_by-perm x [] = Perm.refl (x ∷ [])
  insert_by-perm x (y ∷ ys) = elim (Bool-cases (before y x)) [
    | inl e ↦ rw e (Perm.trans (Perm.cons y (insert_by-perm x ys)) (Perm.swap x y ys))
    | inr e ↦ rw e (Perm.refl (x ∷ y ∷ ys))
  ]

  pub sort_by-perm : (xs : List A) → Perm (sort_by xs) xs
  unfolding sort_by
  sort_by-perm [] = Perm.refl []
  sort_by-perm (x ∷ xs) = Perm.trans (insert_by-perm x (sort_by xs)) (Perm.cons x (sort_by-perm xs))

module _ {ℓ κ} {A : Type ℓ} (P : A → Type κ) (before : A → A → Bool) where
  All-insert_by : (x : A) (ys : List A) → P x → All P ys → All P (insert_by before x ys)
  unfolding insert_by
  All-insert_by x [] p h = (p, tt)
  All-insert_by x (y ∷ ys) p h = ground (arith, All-insert_by x ys p h.1)

  pub All-sort_by : (xs : List A) → All P xs → All P (sort_by before xs)
  unfolding sort_by
  All-sort_by [] h = tt
  All-sort_by (x ∷ xs) h = All-insert_by x (sort_by before xs) h.0 (All-sort_by xs h.1)
