-- ===== src/Base/Json.antt =====
-- Decoded JSON, as `dict[str, Any]` payloads hold it. A `float` is held by its representation.
use mathlib.Core.Bool.{Bool}
use mathlib.Core.Path.{◌≡◌, refl}
use native.Mathlib.Omega.{arith}
use mathlib.Core.Option.{Option, none, some}
use mssql_ai_project.Base.Tests.{if◌then◌else◌, ◌==◌}
use mssql_ai_project.Base.Text.{Text, text_eq, text_beq_iff}
use mssql_ai_project.Base.Int.{ℤ}
use Prim.Native.String.{String}

mutual
  pub data Json : Type 0 where
    null : Json
    bool : Bool → Json
    int : ℤ → Json
    float : String → Json
    str : Text → Json
    arr : Items → Json
    obj : Fields → Json

  pub data Items : Type 0 where
    nil : Items
    cons : Json → Items → Items

  pub data Fields : Type 0 where
    empty : Fields
    field : Text → Json → Fields → Fields

-- `d.get(k)`
unfoldable pub get : Fields → Text → Option Json
get empty k = none
get (field j v d) k = if j == k then some v else get d k

-- `d[k] = v`
unfoldable pub put : Fields → Text → Json → Fields
put empty k v = field k v empty
put (field j u d) k v = if j == k then field j v d else field j u (put d k v)

pub get-put :
    (d : Fields) (k j : Text) (v : Json) → get (put d k v) j ≡ (if k == j then some v else get d j)
unfolding get put
get-put empty k j v = refl
get-put (field i u d) k j v =
    ground (arith, get-put d k j v, text_beq_iff i k, text_beq_iff i j, text_beq_iff k j)
