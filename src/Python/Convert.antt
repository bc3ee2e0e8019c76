-- ===== src/Python/Convert.antt =====
-- The conversions of a JSON value that the addons call.

use jedi_academy_pterodactyl.Prelude.{
  if◌then◌else◌, is_empty, eq_ℤ, ℤ, pos, Bool, true, false, not, none, some, [],
}
use jedi_academy_pterodactyl.Text.{Text, codes}
use jedi_academy_pterodactyl.Outcome.{
  type_error, value_error, overflow_error, Outcome, returns, raises,
}
use jedi_academy_pterodactyl.Python.Json.{
  finite, infinite, nan, Json, null, bool, int, float, str, list, dict, nil, end, Python,
}
use jedi_academy_pterodactyl.Python.Number.{int_of_text, decimal_ℤ}

-- `bool(value)`
unfoldable pub truthy : Json → Bool
truthy null = false
truthy (bool b) = b
truthy (int n) = not (eq_ℤ n (pos 0))
truthy (float (finite n zero_valued s)) = not zero_valued
truthy (float f) = true
truthy (str s) = not (is_empty s)
truthy (list nil) = false
truthy (dict end) = false
truthy _ = true

module _ ⦃py : Python⦄ where
  -- `str(value)`
  unfoldable pub str_of : Json → Text
  unfolding decimal_ℤ
  str_of null = codes "None"
  str_of (bool true) = codes "True"
  str_of (bool false) = codes "False"
  str_of (int n) = decimal_ℤ n
  str_of (float (finite n zero_valued s)) = s
  str_of (float (infinite s)) = s
  str_of (float nan) = codes "nan"
  str_of (str s) = s
  str_of v = py.repr v

  -- `str(value or "")`
  unfoldable pub str_or_empty : Json → Text
  unfolding truthy str_of
  str_or_empty v = if truthy v then str_of v else []

  -- `int(value)`
  unfoldable pub int_of : Json → Outcome ℤ
  unfolding int_of_text
  int_of (bool b) = returns (pos (if b then 1 else 0))
  int_of (int n) = returns n
  int_of (float (finite n zero_valued s)) = returns n
  int_of (float (infinite s)) = raises overflow_error
  int_of (float nan) = raises value_error
  int_of (str s) = elim (int_of_text s) [ none ↦ raises value_error | some n ↦ returns n ]
  int_of _ = raises type_error
