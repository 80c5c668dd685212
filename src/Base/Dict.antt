-- ===== src/Base/Dict.antt =====
-- Python's `dict` with text keys, in insertion order: an assignment to a present key keeps its
-- place, and one to a new key goes to the end.
use Prim.Native.String.{String}
use mathlib.Core.Path.{◌≡◌, refl}
use mathlib.Core.Bool.{Bool, true}
use mathlib.Core.Option.{Option, none, some}
use mathlib.Core.List.{List, [], ◌∷◌}
use native.Mathlib.Omega.{arith}
use text.Mathlib.TextEquality.{eq_iff}
use mssql_ai_project.Base.Tests.{if◌then◌else◌, ◌==◌, string_eq, is_some}
use mssql_ai_project.Base.Lists.{All}

abbrev pub Dict {ℓ} : Type ℓ → Type ℓ
Dict V = List (String × V)

module _ {ℓ} {V : Type ℓ} where
  -- `d.get(k)`
  unfoldable pub get : Dict V → String → Option V
  get [] k = none
  get ((j, v) ∷ d) k = if j == k then some v else get d k

  -- `k in d`
  abbrev pub contains : Dict V → String → Bool
  contains d k = is_some (get d k)

  -- `d[k] = v`
  unfoldable pub put : Dict V → String → V → Dict V
  put [] k v = (k, v) ∷ []
  put ((j, u) ∷ d) k v = if j == k then (j, v) ∷ d else (j, u) ∷ put d k v

  -- `d.pop(k, None)`
  unfoldable pub remove : Dict V → String → Dict V
  remove [] k = []
  remove ((j, u) ∷ d) k = let rest = remove d k in if j == k then rest else (j, u) ∷ rest

  -- `d.values()`
  unfoldable pub values : Dict V → List V
  values [] = []
  values ((j, u) ∷ d) = u ∷ values d

  pub get-put :
      (d : Dict V) (k j : String) (v : V) → get (put d k v) j ≡ (if k == j then some v else get d j)
  unfolding get put
  get-put [] k j v = refl
  get-put ((i, u) ∷ d) k j v = ground (arith, eq_iff k j, eq_iff i k, eq_iff i j, get-put d k j v)

  pub get-put_self : (d : Dict V) (k : String) (v : V) → get (put d k v) k ≡ some v
  get-put_self d k v = ground (arith, get-put d k k v, eq_iff k k)

  pub contains-put :
      (d : Dict V) (k j : String) (v : V) → contains d j ≡ true → contains (put d k v) j ≡ true
  contains-put d k j v h = rw get-put (ground arith)

  pub get-remove :
      (d : Dict V) (k j : String) → get (remove d k) j ≡ (if k == j then none else get d j)
  unfolding get remove
  get-remove [] k j = ground arith
  get-remove ((i, u) ∷ d) k j = ground (arith, get-remove d k j, eq_iff i k, eq_iff i j, eq_iff k j)

module _ {ℓ κ} {V : Type ℓ} where
  -- Every entry, its key with its value, has the property.
  abbrev pub Each : (String → V → Type κ) → Dict V → Type κ
  Each P = All (λ (e : String × V). P e.0 e.1)

  module _ (P : String → V → Type κ) where
    pub Each-get : (d : Dict V) (k : String) (v : V) → Each P d → get d k ≡ some v → P k v
    unfolding get
    Each-get [] k v h e = ground arith
    Each-get ((j, u) ∷ d) k v h e = ground (arith, Each-get d k v h.1, eq_iff j k)

    pub Each-put : (d : Dict V) (k : String) (v : V) → Each P d → P k v → Each P (put d k v)
    unfolding put
    Each-put [] k v h p = (p, tt)
    Each-put ((j, u) ∷ d) k v h p = ground (arith, Each-put d k v h.1 p, eq_iff j k)

pub ruleset dict_laws = (get-put, get-remove)
