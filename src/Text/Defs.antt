-- ===== src/Text/Defs.antt =====
-- The methods of `str` that the addons call, on lists of code points.

use Prim.Native.Char.{code}
use jedi_academy_pterodactyl.Prelude.{
  ℕ, String, Bool, true, false, ◌&&◌, ◌||◌, Option, none, some, List, [], ◌∷◌, ◌++◌, leb, ◌==◌,
  if◌then◌else◌, is_empty,
}

abbrev pub Text : Type 0
Text = List ℕ

-- The code points of a literal.
abbrev pub codes : String → Text
codes String.[] = []
codes (String.◌∷◌ c s) = code c ∷ codes s

-- `a == b`
unfoldable pub same : Text → Text → Bool
same [] [] = true
same (a ∷ s) (b ∷ t) = a == b && same s t
same _ _ = false

-- `t in (…)`
unfoldable pub is_one_of : Text → List Text → Bool
unfolding same
is_one_of t [] = false
is_one_of t (u ∷ us) = same t u || is_one_of t us

abbrev pub between : ℕ → ℕ → ℕ → Bool
between lo hi c = leb lo c && leb c hi

-- `str.isspace`, the characters that `strip` removes and `\s` matches.
unfoldable pub is_space : ℕ → Bool
is_space c =
    between 9 13 c
    || between 28 32 c
    || c == 0x85
    || c == 0xa0
    || c == 0x1680
    || between 0x2000 0x200a c
    || between 0x2028 0x2029 c
    || c == 0x202f
    || c == 0x205f
    || c == 0x3000

unfoldable pub lstrip : Text → Text
lstrip [] = []
lstrip (c ∷ cs) = let rest = lstrip cs in if is_space c then rest else c ∷ cs

unfoldable pub rstrip : Text → Text
rstrip [] = []
rstrip (c ∷ cs) = let rest = rstrip cs in if is_empty rest && is_space c then [] else c ∷ rest

-- `s.strip()`
unfoldable pub strip : Text → Text
unfolding lstrip rstrip is_space
strip s = rstrip (lstrip s)

-- `s.replace(old, new)` where `old` is one character
unfoldable pub replace : ℕ → Text → Text → Text
replace old new [] = []
replace old new (c ∷ cs) = (if c == old then new else c ∷ []) ++ replace old new cs

-- `s.startswith(prefix)`
unfoldable pub starts_with : Text → Text → Bool
starts_with s [] = true
starts_with [] (p ∷ ps) = false
starts_with (c ∷ cs) (p ∷ ps) = c == p && starts_with cs ps

-- `needle in s`
unfoldable pub contains : Text → Text → Bool
unfolding starts_with
contains [] needle = is_empty needle
contains (c ∷ cs) needle = starts_with (c ∷ cs) needle || contains cs needle

-- `s.split(sep, 1)` where `sep` is one character that may be missing
unfoldable pub split_once : ℕ → Text → Option (Text × Text)
split_once sep [] = none
split_once sep (c ∷ cs) =
    let rest = split_once sep cs in
    if c == sep
    then some ([], cs)
    else elim rest [ none ↦ none | some (key, value) ↦ some (c ∷ key, value) ]

-- `s.split(sep)` where `sep` is one character
split_onto : Text → ℕ → Text → List Text
split_onto part sep [] = part ∷ []
split_onto part sep (c ∷ cs) =
    let cut = part ∷ split_onto [] sep cs in
    let go_on = split_onto (part ++ (c ∷ [])) sep cs in if c == sep then cut else go_on

unfoldable pub split : ℕ → Text → List Text
unfolding split_onto
split sep s = split_onto [] sep s

-- `_CONTROL_CHAR_RE`, the class [\x00-\x1f\x7f]
abbrev pub is_control : ℕ → Bool
is_control c = leb c 0x1f || c == 0x7f

-- The characters that end a line for `str.splitlines`.
abbrev is_line_end : ℕ → Bool
is_line_end c = between 10 13 c || between 28 30 c || c == 0x85 || c == 0x2028 || c == 0x2029

-- A carriage return and the newline behind it end one line.
lines_onto : Text → Text → List Text
lines_onto line [] = if is_empty line then [] else line ∷ []
lines_onto line (c ∷ []) = if is_line_end c then line ∷ [] else (line ++ (c ∷ [])) ∷ []
lines_onto line (c ∷ (d ∷ cs)) =
    let after_both = line ∷ lines_onto [] cs in
    let after_one = line ∷ lines_onto [] (d ∷ cs) in
    let onward = lines_onto (line ++ (c ∷ [])) (d ∷ cs) in
    if c == 13 && d == 10 then after_both else if is_line_end c then after_one else onward

-- `s.splitlines()`
unfoldable pub splitlines : Text → List Text
unfolding lines_onto
splitlines s = lines_onto [] s
