-- ===== src/Python/Number.antt =====
-- `int(text)` and `str(int)` in base ten.

use mathlib.Core.Option
use mathlib.Core.List.{reverse}
use jedi_academy_pterodactyl.Prelude.{
  ltb, ◌==◌, if◌then◌else◌, is_empty, neg, ℤ, pos, negsuc, ℕ, zero, suc, ◌+◌, ◌*◌, ◌/◌, ◌%◌, not,
  ◌&&◌, Option, none, some, [], ◌∷◌,
}
use jedi_academy_pterodactyl.Text.{Text, strip}
use jedi_academy_pterodactyl.Python.Json.{Python}

module _ ⦃py : Python⦄ where
  -- The number that a run of digits denotes; an underscore may stand between two digits.
  digits_onto : ℕ → Text → Option ℕ
  digits_onto n [] = some n
  digits_onto n (c ∷ []) = Option.map (λ d. 10 * n + d) (py.digit_value c)
  digits_onto n (c ∷ (e ∷ cs)) =
      let after : Option ℕ = elim (py.digit_value c) [
        | none ↦ none
        | some d ↦ digits_onto (10 * n + d) (e ∷ cs)
      ] in
      let skip : Option ℕ = elim (py.digit_value c) [
        | none ↦ none
        | some d ↦ digits_onto (10 * n + d) cs
      ] in
      if e == b'_' && not (is_empty cs) then skip else after

  -- An unsigned literal has at least one digit.
  unfoldable pub parse_digits : Text → Option ℕ
  unfolding digits_onto
  parse_digits [] = none
  parse_digits (c ∷ cs) = digits_onto 0 (c ∷ cs)

  signed : Text → Option ℤ
  unfolding parse_digits
  signed [] = none
  signed (c ∷ cs) =
      if c == b'-'
      then Option.map neg (parse_digits cs)
      else if c == b'+'
      then Option.map pos (parse_digits cs)
      else Option.map pos (parse_digits (c ∷ cs))

  -- `int(text)`, where `none` is a `ValueError`
  unfoldable pub int_of_text : Text → Option ℤ
  unfolding strip signed
  int_of_text s = signed (strip s)

-- The digits of a number, the last one first, on fuel.
reversed_digits : ℕ → ℕ → Text
reversed_digits zero n = []
reversed_digits (suc f) n =
    let rest = reversed_digits f (n / 10) in
    if ltb n 10 then (b'0' + n) ∷ [] else (b'0' + n % 10) ∷ rest

-- `str(n)`
unfoldable pub decimal : ℕ → Text
unfolding reversed_digits
decimal n = reverse (reversed_digits (suc n) n)

unfoldable pub decimal_ℤ : ℤ → Text
unfolding decimal
decimal_ℤ (pos n) = decimal n
decimal_ℤ (negsuc n) = b'-' ∷ decimal (suc n)
