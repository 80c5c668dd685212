-- ===== src/SqlText/Split.antt =====
-- packages/analysis/src/ai_agent_analysis/sql_utils.py, split_top_level_csv: joining and splitting.
use mssql_ai_project.Base.{
  ℕ, ◌+◌, ◌-◌, ◌≤◌, ◌≡◌, refl, sym, ap, ◌∙◌, Bool, true, false, List, [], ◌∷◌, ◌++◌, map, nat_beq,
  arith,
}
use mathlib.Core.List.{append-nil, append_assoc}
use mssql_ai_project.Base.Text.{Text, strip}
use mssql_ai_project.SqlText.{
  Scan, level, before_quote, advance, ends_part, tail_part, split_from, split_top_level_csv,
}

-- The text between the quotes of a literal, its quotes doubled.
pub data Quoted : Text → Type 0 where
  no_more : Quoted []
  other : {s : Text} (c : ℕ) → nat_beq c 39 ≡ false → Quoted s → Quoted (c ∷ s)
  doubled : {s : Text} → Quoted s → Quoted (39 ∷ 39 ∷ s)

-- One part of a list: plain code points, literals and parenthesised groups. A comma may stand in a
-- literal or in a group (`inside`) only, and a literal is not directly followed by another.
pub data Part : Bool → Text → Type 0 where
  done : {inside : Bool} → Part inside []
  plain :
      {inside : Bool} {s : Text} (c : ℕ)
      → nat_beq c 39 ≡ false
      → nat_beq c b'(' ≡ false
      → nat_beq c b')' ≡ false
      → nat_beq c b',' ≡ false
      → Part inside s
      → Part inside (c ∷ s)
  comma : {s : Text} → Part true s → Part true (b',' ∷ s)
  group :
      {inside : Bool} {a s : Text}
      → Part true a
      → Part inside s
      → Part inside (b'(' ∷ (a ++ b')' ∷ s))
  literal :
      {inside : Bool} {q s : Text}
      → Quoted q
      → Part inside s
      → before_quote s ≡ false
      → Part inside (39 ∷ (q ++ 39 ∷ s))

abbrev at_depth : ℕ → Scan
at_depth n = record { depth = n; in_string = false; skip = false }

abbrev in_literal : ℕ → Scan
in_literal n = record { depth = n; in_string = true; skip = false }

-- Inside a literal everything up to its closing quote goes to the part.
through_literal :
    (n : ℕ) (q part rest : Text)
    → Quoted q
    → before_quote rest ≡ false
    → split_from (in_literal n) part (q ++ 39 ∷ rest)
      ≡ split_from (at_depth n) (part ++ (q ++ 39 ∷ [])) rest
unfolding split_from advance ends_part
through_literal n _ part rest no_more h = rw h refl
through_literal n _ part rest (other {s} c mark q) h = rw mark (
    through_literal n s (part ++ c ∷ []) rest q h
    ∙ ap (λ r. split_from (at_depth n) r rest) (append_assoc part (c ∷ []) (s ++ 39 ∷ [])))
through_literal n _ part rest (doubled {s} q) h =
    through_literal n s ((part ++ 39 ∷ []) ++ 39 ∷ []) rest q h
    ∙ ap (λ r. split_from (at_depth n) r rest)
        (append_assoc (part ++ 39 ∷ []) (39 ∷ []) (s ++ 39 ∷ [])
          ∙ append_assoc part (39 ∷ []) (39 ∷ (s ++ 39 ∷ [])))

-- A comma may be passed over at a depth above zero only.
abbrev Fits : Bool → ℕ → Type 0
Fits true n = 1 ≤ n
Fits false n = Unit

not_level : (n : ℕ) → 1 ≤ n → nat_beq n 0 ≡ false
not_level n h = ground arith

still_apart :
    (s rest : Text)
    → before_quote s ≡ false
    → before_quote rest ≡ false
    → before_quote (s ++ rest) ≡ false
still_apart [] rest h g = g
still_apart (c ∷ s) rest h g = h

regroup :
    (part a s : Text)
    → (((part ++ b'(' ∷ []) ++ a) ++ b')' ∷ []) ++ s ≡ part ++ b'(' ∷ (a ++ b')' ∷ s)
regroup part a s =
    append_assoc ((part ++ b'(' ∷ []) ++ a) (b')' ∷ []) s
    ∙ append_assoc (part ++ b'(' ∷ []) a (b')' ∷ s)
    ∙ append_assoc part (b'(' ∷ []) (a ++ b')' ∷ s)

requote :
    (part q s : Text) → ((part ++ 39 ∷ []) ++ (q ++ 39 ∷ [])) ++ s ≡ part ++ 39 ∷ (q ++ 39 ∷ s)
requote part q s =
    append_assoc (part ++ 39 ∷ []) (q ++ 39 ∷ []) s
    ∙ append_assoc part (39 ∷ []) ((q ++ 39 ∷ []) ++ s)
    ∙ ap (λ r. part ++ 39 ∷ r) (append_assoc q (39 ∷ []) s)

leave_group :
    (n : ℕ) (part rest : Text)
    → split_from (at_depth (n + 1)) part (b')' ∷ rest)
      ≡ split_from (at_depth n) (part ++ b')' ∷ []) rest
unfolding split_from advance ends_part
leave_group n part rest =
    let one_less : (n + 1) - 1 ≡ n = omega arith in
    ap (λ m. split_from (at_depth m) (part ++ b')' ∷ []) rest) one_less

-- The part goes to what is collected, and the state is the same after it.
through_part :
    (inside : Bool) (n : ℕ) (p part rest : Text)
    → Part inside p
    → Fits inside n
    → before_quote rest ≡ false
    → split_from (at_depth n) part (p ++ rest) ≡ split_from (at_depth n) (part ++ p) rest
unfolding split_from advance ends_part
through_part inside n _ part rest done f h =
    ap (λ r. split_from (at_depth n) r rest) (sym (append-nil part))
through_part inside n _ part rest (plain {s} c quote open_ shut sep p) f h =
    rw (quote, open_, shut, sep)
      (through_part inside n s (part ++ c ∷ []) rest p f h
        ∙ ap (λ r. split_from (at_depth n) r rest) (append_assoc part (c ∷ []) s))
through_part true n _ part rest (comma {s} p) f h = rw (not_level n f) (
    through_part true n s (part ++ b',' ∷ []) rest p f h
    ∙ ap (λ r. split_from (at_depth n) r rest) (append_assoc part (b',' ∷ []) s))
through_part inside n _ part rest (group {a} {s} g p) f h =
    ap (split_from (at_depth (n + 1)) (part ++ b'(' ∷ [])) (append_assoc a (b')' ∷ s) rest)
    ∙ through_part true (n + 1) a (part ++ b'(' ∷ []) (b')' ∷ (s ++ rest)) g (omega arith) refl
    ∙ leave_group n ((part ++ b'(' ∷ []) ++ a) (s ++ rest)
    ∙ through_part inside n s (((part ++ b'(' ∷ []) ++ a) ++ b')' ∷ []) rest p f h
    ∙ ap (λ r. split_from (at_depth n) r rest) (regroup part a s)
through_part inside n _ part rest (literal {q} {s} l p apart) f h =
    ap (split_from (in_literal n) (part ++ 39 ∷ [])) (append_assoc q (39 ∷ s) rest)
    ∙ through_literal n q (part ++ 39 ∷ []) (s ++ rest) l (still_apart s rest apart h)
    ∙ through_part inside n s ((part ++ 39 ∷ []) ++ (q ++ 39 ∷ [])) rest p f h
    ∙ ap (λ r. split_from (at_depth n) r rest) (requote part q s)

-- parts joined by commas, the last one apart
unfoldable pub join_parts : List Text → Text → Text
join_parts [] last = last
join_parts (p ∷ ps) last = p ++ b',' ∷ join_parts ps last

abbrev pub AllParts : List Text → Type 0
AllParts [] = Unit
AllParts (p ∷ ps) = Part false p × AllParts ps

-- Splitting gives back the parts that were joined by commas, stripped, where in every part the
-- literals are closed, the parentheses balance, no literal directly follows another, and a comma
-- stands within a literal or a parenthesised group only; the last part is left out if it is blank.
pub split_top_level_csv-join :
    (parts : List Text) (last : Text)
    → AllParts parts
    → Part false last
    → split_top_level_csv (join_parts parts last) ≡ map strip parts ++ tail_part last
unfolding split_top_level_csv join_parts split_from ends_part advance
split_top_level_csv-join [] last ps l =
    ap (split_from level []) (sym (append-nil last)) ∙ through_part false 0 last [] [] l tt refl
split_top_level_csv-join (p ∷ ps) last (h, hs) l =
    through_part false 0 p [] (b',' ∷ join_parts ps last) h tt refl
    ∙ ap (λ r. strip p ∷ r) (split_top_level_csv-join ps last hs l)
