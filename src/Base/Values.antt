-- ===== src/Base/Values.antt =====
-- What Python's `bool(...)` and `str(...)` make of a JSON value. The text of a list or of a dict is
-- the parameter `repr`: the program keys and stores nothing by it but what a caller sent that way.
use Prim.Native.Nat.{ℕ, zero, suc, ◌+◌, ◌-◌, ◌*◌, ◌/◌, ◌%◌}
use mathlib.Core.Bool.{Bool, true, false, not, ◌&&◌}
use mathlib.Core.Option.{Option, none, some}
use mathlib.Core.List.{[], ◌∷◌}
use mssql_ai_project.Base.Tests.{if◌then◌else◌, nat_beq, ltb, leb, ◌==◌, string_eq}
use mssql_ai_project.Base.Text.{Text, codes, is_empty, strip}
use mssql_ai_project.Base.Int.{ℤ, pos, negsuc}
use mssql_ai_project.Base.Json.{
  Json, null, bool, int, float, str, arr, obj, nil, cons, empty, field,
}

-- `bool(value)`
unfoldable pub truthy : Json → Bool
truthy null = false
truthy (bool b) = b
truthy (int (pos n)) = not (nat_beq n 0)
truthy (int (negsuc n)) = true
truthy (float r) = not (r == "0.0") && not (r == "-0.0")
truthy (str s) = not (is_empty s)
truthy (arr nil) = false
truthy (arr (cons v vs)) = true
truthy (obj empty) = false
truthy (obj (field k v d)) = true

-- `bool(value)` of an optional value: `None` is false.
abbrev pub truthy? : Option Json → Bool
truthy? none = false
truthy? (some v) = truthy v

-- The decimal digits of a number; a number has at most as many as itself plus one.
digits : ℕ → ℕ → Text → Text
digits zero n acc = acc
digits (suc fuel) n acc =
    let rest = digits fuel (n / 10) ((48 + n % 10) ∷ acc) in
    if ltb n 10 then (48 + n) ∷ acc else rest

unfoldable pub decimal : ℕ → Text
unfolding digits
decimal n = digits (suc n) n []

-- `str(value)`
unfoldable pub py_str : (Json → Text) → Json → Text
py_str repr null = codes "None"
py_str repr (bool true) = codes "True"
py_str repr (bool false) = codes "False"
py_str repr (int (pos n)) = decimal n
py_str repr (int (negsuc n)) = b'-' ∷ decimal (suc n)
py_str repr (float r) = codes r
py_str repr (str s) = s
py_str repr (arr vs) = repr (arr vs)
py_str repr (obj d) = repr (obj d)

-- `str(value or "")` of an optional value.
abbrev pub str_or_empty : (Json → Text) → Option Json → Text
str_or_empty repr none = []
str_or_empty repr (some v) = if truthy v then py_str repr v else []

-- The digits of a decimal literal, with single underscores between digits.
unfoldable pub read_digits : ℕ → Bool → Text → Option ℕ
read_digits n after_digit [] = if after_digit then some n else none
read_digits n after_digit (c ∷ s) =
    let digit = read_digits (n * 10 + (c - 48)) true s in
    let gap = read_digits n false s in
    if leb 48 c && leb c 57 then digit else if nat_beq c b'_' && after_digit then gap else none

abbrev signed : Bool → Option ℕ → Option ℤ
signed negative none = none
signed negative (some zero) = some (pos 0)
signed true (some (suc n)) = some (negsuc n)
signed false (some (suc n)) = some (pos (suc n))

unfoldable pub read_sign : Text → Option ℤ
unfolding read_digits
read_sign [] = none
read_sign (c ∷ s) =
    if nat_beq c b'-'
    then signed true (read_digits 0 false s)
    else if nat_beq c b'+'
    then signed false (read_digits 0 false s)
    else signed false (read_digits 0 false (c ∷ s))

-- `int(text)`, with `none` for its `ValueError`; ASCII digits
unfoldable pub parse_int : Text → Option ℤ
unfolding read_sign
parse_int s = read_sign (strip s)
