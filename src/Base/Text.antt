-- ===== src/Base/Text.antt =====
-- Python's `str` where the program walks it: a list of code points.
-- `lower` and `upper` map the ASCII letters; other code points are left as they are.
use Prim.Native.Nat.{ℕ, ◌+◌, ◌-◌}
use Prim.Native.Char.{code}
use Prim.Native.String.{String}
use mathlib.Core.Path.{◌≡◌, refl, ap}
use mathlib.Core.Logic.{◌↔◌, ◌⊎◌, inl, inr}
use mathlib.Core.Bool.{Bool, true, false, ◌&&◌, ◌||◌}
use mathlib.Core.List.{List, [], ◌∷◌, map}
use native.Mathlib.Omega.{arith}
use mssql_ai_project.Base.Tests.{leb, nat_beq, nat_beq_iff, if◌then◌else◌, Eq, Bool-cases}

abbrev pub Text : Type 0
Text = List ℕ

abbrev pub codes : String → Text
codes String.[] = []
codes (String.◌∷◌ c s) = code c ∷ codes s

abbrev pub text_beq : Text → Text → Bool
text_beq [] [] = true
text_beq [] (d ∷ t) = false
text_beq (c ∷ s) [] = false
text_beq (c ∷ s) (d ∷ t) = if nat_beq c d then text_beq s t else false

text_beq→eq : (s t : Text) → text_beq s t ≡ true → s ≡ t
text_beq→eq [] [] h = refl
text_beq→eq [] (d ∷ t) h = ground arith
text_beq→eq (c ∷ s) [] h = ground arith
text_beq→eq (c ∷ s) (d ∷ t) h = ground (arith, text_beq→eq s t, nat_beq_iff c d)

text_beq_refl : (s : Text) → text_beq s s ≡ true
text_beq_refl [] = refl
text_beq_refl (c ∷ s) = ground (arith, text_beq_refl s, nat_beq_iff c c)

pub text_beq_iff : (s t : Text) → (text_beq s t ≡ true) ↔ (s ≡ t)
text_beq_iff s t = (text_beq→eq s t, λ e. ground (arith, text_beq_refl s))

instance abbrev pub text_eq : Eq Text
text_eq = record { equals = text_beq; equals_iff = text_beq_iff }

-- `not s`
abbrev pub is_empty {ℓ} : {A : Type ℓ} → List A → Bool
is_empty [] = true
is_empty (c ∷ s) = false

-- The code points that `str.isspace` and `str.strip` take for white space.
unfoldable pub is_space : ℕ → Bool
is_space c =
    (leb 9 c && leb c 13)
    || (leb 28 c && leb c 32)
    || nat_beq c 133
    || nat_beq c 160
    || nat_beq c 5760
    || (leb 8192 c && leb c 8202)
    || (leb 8232 c && leb c 8233)
    || nat_beq c 8239
    || nat_beq c 8287
    || nat_beq c 12288

unfoldable pub lstrip : Text → Text
lstrip [] = []
lstrip (c ∷ s) = let rest = lstrip s in if is_space c then rest else c ∷ s

unfoldable pub rstrip : Text → Text
rstrip [] = []
rstrip (c ∷ s) = let rest = rstrip s in if is_space c && is_empty rest then [] else c ∷ rest

-- `s.strip()`
unfoldable pub strip : Text → Text
unfolding lstrip rstrip
strip s = rstrip (lstrip s)

unfoldable pub to_lower : ℕ → ℕ
to_lower c = if leb b'A' c && leb c b'Z' then c + 32 else c

-- `s.lower()`
unfoldable pub lower : Text → Text
unfolding to_lower
lower = map to_lower

unfoldable pub to_upper : ℕ → ℕ
to_upper c = if leb b'a' c && leb c b'z' then c - 32 else c

-- `s.upper()`
unfoldable pub upper : Text → Text
unfolding to_upper
upper = map to_upper

lstrip_head : (c : ℕ) (s : Text) → is_space c ≡ false → lstrip (c ∷ s) ≡ c ∷ s
unfolding lstrip
lstrip_head c s h = rw h

rstrip_head : (c : ℕ) (s : Text) → is_space c ≡ false → rstrip (c ∷ s) ≡ c ∷ rstrip s
unfolding rstrip
rstrip_head c s h = rw h

rstrip_idem : (s : Text) → rstrip (rstrip s) ≡ rstrip s
unfolding rstrip
rstrip_idem [] = refl
rstrip_idem (c ∷ s) = ground (arith, rstrip_idem s)

-- What is left after stripping on the left is empty or begins with a mark.
lstrip-cases :
    (s : Text)
    → (lstrip s ≡ []) ⊎ ((c : ℕ) × (t : Text) × (lstrip s ≡ c ∷ t) × (is_space c ≡ false))
unfolding lstrip
lstrip-cases [] = inl refl
lstrip-cases (c ∷ s) = elim (Bool-cases (is_space c)) [
  | inl e ↦ rw e (lstrip-cases s)
  | inr e ↦ rw e (inr (c, s, refl, e))
]

-- `s.strip().strip() == s.strip()`
pub strip_idem : (s : Text) → strip (strip s) ≡ strip s
unfolding strip
strip_idem s = elim (lstrip-cases s) [
  | inl e ↦ rw e (unfold lstrip rstrip in refl)
  | inr (c, t, e, mark) ↦
      rw (e, rstrip_head c t mark, lstrip_head c (rstrip t) mark, rstrip_head c (rstrip t) mark)
        (ap (λ r. c ∷ r) (rstrip_idem t))
]

to_lower_idem : (c : ℕ) → to_lower (to_lower c) ≡ to_lower c
unfolding to_lower
to_lower_idem c = ground arith

pub lower_idem : (s : Text) → lower (lower s) ≡ lower s
unfolding lower
lower_idem [] = refl
lower_idem (c ∷ s) = cc (to_lower_idem c, lower_idem s)

-- Lowering keeps white space where it is.
pub is_space-to_lower : (c : ℕ) → is_space (to_lower c) ≡ is_space c
unfolding is_space to_lower
is_space-to_lower c = ground arith

pub lstrip-lower : (s : Text) → lstrip (lower s) ≡ lower (lstrip s)
unfolding lstrip lower
lstrip-lower [] = refl
lstrip-lower (c ∷ s) = rw is_space-to_lower (ground (arith, lstrip-lower s))

is_empty-lower : (s : Text) → is_empty (lower s) ≡ is_empty s
unfolding lower
is_empty-lower [] = refl
is_empty-lower (c ∷ s) = refl

pub rstrip-lower : (s : Text) → rstrip (lower s) ≡ lower (rstrip s)
unfolding rstrip lower
rstrip-lower [] = refl
rstrip-lower (c ∷ s) =
    rw is_space-to_lower (ground (arith, rstrip-lower s, is_empty-lower (rstrip s)))

unfoldable pub starts_with : Text → Text → Bool
starts_with [] s = true
starts_with (c ∷ m) [] = false
starts_with (c ∷ m) (d ∷ s) = nat_beq c d && starts_with m s

-- `marker in text`
unfoldable pub is_substring : Text → Text → Bool
is_substring marker [] = is_empty marker
is_substring marker (c ∷ s) = starts_with marker (c ∷ s) || is_substring marker s
