-- ===== src/Prelude/Strings.antt =====
-- What the program takes from the package strings to cut a text, with the texts read from the left.
use Prim.Native.Char.{Char, code}
use Prim.Native.Nat.{ℕ, zero, suc}
use Prim.Native.String.{String}
use mathlib.Core.Bool.{Bool, true, false, ◌||◌}
use mathlib.Core.Option.{Option, none, some}
use text.Mathlib.Text.{◌==◌ as str_eq}
use text.Mathlib.TextEquality.{eq_iff}
use mathlib.Core.Path.{◌≡◌}
use mathlib.Core.Logic.{inl, inr}
use murlog.Prelude.Tests.{◌==◌, Bool-cases, if◌then◌else◌}

-- two texts one behind the other
abbrev pub append : String → String → String
append String.[] t = t
append (String.◌∷◌ c s) t = String.◌∷◌ c (append s t)

-- what is left of a text behind a prefix that it has
abbrev pub strip_prefix : String → String → Option String
strip_prefix String.[] s = some s
strip_prefix (String.◌∷◌ c p) String.[] = none
strip_prefix (String.◌∷◌ c p) (String.◌∷◌ d s) =
    let rest = strip_prefix p s in if code c == code d then rest else none

-- strings.HasPrefix
abbrev pub has_prefix : String → String → Bool
has_prefix p s = elim (strip_prefix p s) [ none ↦ false | some _ ↦ true ]

-- strings.TrimPrefix
abbrev pub trim_prefix : String → String → String
trim_prefix p s = elim (strip_prefix p s) [ none ↦ s | some r ↦ r ]

-- strings.HasSuffix
abbrev pub has_suffix : String → String → Bool
has_suffix q String.[] = str_eq q ""
has_suffix q (String.◌∷◌ c s) = str_eq q (String.◌∷◌ c s) || has_suffix q s

-- what follows the first part `p` of a text (strings.Index)
abbrev pub after_first : String → String → Option String
after_first p String.[] = strip_prefix p ""
after_first p (String.◌∷◌ c s) = elim (strip_prefix p (String.◌∷◌ c s)) [
  | some r ↦ some r
  | none ↦ after_first p s
]

-- what follows the last part `p` of a text (strings.LastIndex)
abbrev pub after_last : String → String → Option String
after_last p String.[] = strip_prefix p ""
after_last p (String.◌∷◌ c s) = elim (after_last p s) [
  | some r ↦ some r
  | none ↦ strip_prefix p (String.◌∷◌ c s)
]

-- what precedes the first character `c` of a text, or none
abbrev pub before_char : ℕ → String → Option String
before_char c String.[] = none
before_char c (String.◌∷◌ d s) =
    let rest : Option String = elim (before_char c s) [
      | none ↦ none
      | some r ↦ some (String.◌∷◌ d r)
    ] in
    if code d == c then some "" else rest

-- strings.TrimSuffix
abbrev pub trim_suffix : String → String → String
trim_suffix q String.[] = ""
trim_suffix q (String.◌∷◌ c s) =
    let rest = String.◌∷◌ c (trim_suffix q s) in if str_eq q (String.◌∷◌ c s) then "" else rest

-- truncateRunes
abbrev pub truncate_runes : ℕ → String → String
truncate_runes zero s = ""
truncate_runes (suc n) String.[] = ""
truncate_runes (suc n) (String.◌∷◌ c s) = String.◌∷◌ c (truncate_runes n s)

pub cons-ne-empty : (c : Char) (s : String) → str_eq (String.◌∷◌ c s) "" ≡ false
cons-ne-empty c s = elim (Bool-cases (str_eq (String.◌∷◌ c s) "")) [
  | inl e ↦ let same : String.◌∷◌ c s ≡ "" = (eq_iff (String.◌∷◌ c s) "").0 e in cc
  | inr e ↦ e
]
