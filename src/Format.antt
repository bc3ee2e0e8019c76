-- ===== src/Format.antt =====
-- `template.format(**values)`: braces, plain names, and every other field by the runtime.

use jedi_academy_pterodactyl.Prelude.{
  ◌==◌, if◌then◌else◌, length, All, ℕ, zero, suc, ◌≡◌, refl, Bool, true, false, ◌&&◌, ◌||◌, none,
  some, [], ◌∷◌, ◌++◌, arith,
}
use jedi_academy_pterodactyl.Text.{Text, between}
use jedi_academy_pterodactyl.Outcome.{
  value_error, key_error, index_error, Outcome, returns, raises, ◌>>=◌,
}
use jedi_academy_pterodactyl.Python.Json.{Fields, Python}
use jedi_academy_pterodactyl.Python.Dict.{field_of}
use jedi_academy_pterodactyl.Python.Convert.{str_of}

-- What a template goes on with: a character, a field that is a plain name, a field with an
-- attribute, an index, a conversion or a format specification, or an error of syntax.
pub data Piece : Type 0 where
  literal : ℕ → Text → Piece
  plain : Text → Text → Piece
  extended : Text → Piece
  broken : Piece

abbrev extends_name : ℕ → Bool
extends_name c = c == b'.' || c == b'[' || c == b'!' || c == b':'

-- `name` is what was read since the opening brace, and `all` the text behind that brace.
field_piece : Text → Text → Text → Piece
field_piece all name [] = broken
field_piece all name (c ∷ cs) =
    let onward = field_piece all (name ++ (c ∷ [])) cs in
    if c == b'}'
    then plain name cs
    else if extends_name c
    then extended all
    else if c == b'{'
    then broken
    else onward

-- `{{` and `}}` stand for one brace.
brace : ℕ → Text → Piece
unfolding field_piece
brace c [] = if c == b'{' || c == b'}' then broken else literal c []
brace c (d ∷ ds) =
    if c == b'{'
    then (if d == b'{' then literal b'{' ds else field_piece (d ∷ ds) [] (d ∷ ds))
    else if c == b'}'
    then (if d == b'}' then literal b'}' ds else broken)
    else literal c (d ∷ ds)

-- An empty or decimal field name counts positional arguments, and there are none.
abbrev is_positional : Text → Bool
is_positional [] = true
is_positional (c ∷ []) = between b'0' b'9' c
is_positional (c ∷ cs) = between b'0' b'9' c && is_positional cs

module _ ⦃py : Python⦄ where
  format_value : Text → Fields → Outcome Text
  format_value name values =
      if is_positional name
      then raises index_error
      else elim (field_of values name) [ none ↦ raises key_error | some v ↦ returns (str_of v) ]

  -- The first argument bounds the pieces: each one takes at least a character.
  format_onto : ℕ → Fields → Text → Outcome Text
  unfolding brace format_value
  format_onto zero values s = returns []
  format_onto (suc f) values [] = returns []
  format_onto (suc f) values (c ∷ cs) = elim (brace c cs) [
    | literal d rest ↦ format_onto f values rest >>= λ out. returns (d ∷ out)
    | plain name rest ↦ format_value name values >>= λ shown.
        format_onto f values rest >>= λ out. returns (shown ++ out)
    | extended rest ↦ py.format_field rest values >>= λ (shown, rest').
        format_onto f values rest' >>= λ out. returns (shown ++ out)
    | broken ↦ raises value_error
  ]

  unfoldable pub format_text : Text → Fields → Outcome Text
  unfolding format_onto
  format_text template values = format_onto (length template) values template

  -- A template without braces formats to itself, whatever the values.
  format_onto_of_literal :
      (values : Fields) (s : Text)
      → All (λ c. (c == b'{' || c == b'}') ≡ false) s
      → format_onto (length s) values s ≡ returns s
  unfolding format_onto
  format_onto_of_literal values [] h = refl
  format_onto_of_literal values (c ∷ []) h = ground arith
  format_onto_of_literal values (c ∷ (d ∷ ds)) h =
      ground (arith, format_onto_of_literal values (d ∷ ds) h.1)

  pub format_text_of_literal :
      (values : Fields) (s : Text)
      → All (λ c. (c == b'{' || c == b'}') ≡ false) s
      → format_text s values ≡ returns s
  unfolding format_text
  format_text_of_literal values s h = format_onto_of_literal values s h
