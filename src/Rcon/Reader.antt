-- ===== src/Rcon/Reader.antt =====
-- What `quote_rcon_arg` of bundled-addons/defaults/match-announcer.py writes determines its argument.

use mathlib.Core.Option
use mathlib.Core.List.{append_assoc}
use jedi_academy_pterodactyl.Prelude.{
  ◌==◌, if◌then◌else◌, ℕ, ◌≡◌, refl, Option, none, some, [], ◌∷◌, ◌++◌, arith, Bool, true, false,
}
use jedi_academy_pterodactyl.Text.{Text, replace}
use jedi_academy_pterodactyl.Rcon.Quote.{escape_command_argument, quote_rcon_arg}

-- The escapes undone, up to the first quote that is not escaped, with what follows it. This is the
-- inverse of the function, for the proof, and no model of the server's reader. The flag says that
-- the character before was a backslash that escapes.
body : Bool → Text → Option (Text × Text)
body escaped [] = none
body true (c ∷ cs) = Option.map (λ (s, rest). (c ∷ s, rest)) (body false cs)
body false (c ∷ cs) =
    let after_backslash = body true cs in
    let onward = body false cs in
    if c == b'"'
    then some ([], cs)
    else if c == b'\\'
    then after_backslash
    else Option.map (λ (s, rest). (c ∷ s, rest)) onward

read_quoted : Text → Option (Text × Text)
unfolding body
read_quoted [] = none
read_quoted (c ∷ cs) = if c == b'"' then body false cs else none

-- One character, escaped.
escape_char : ℕ → Text
escape_char c =
    if c == b'\\' then b'\\' ∷ b'\\' ∷ [] else if c == b'"' then b'\\' ∷ b'"' ∷ [] else c ∷ []

escape-cons :
    (c : ℕ) (cs : Text)
    → escape_command_argument (c ∷ cs) ≡ escape_char c ++ escape_command_argument cs
unfolding escape_command_argument escape_char replace
escape-cons c cs = ground arith

body-escape_char :
    (c : ℕ) (rest : Text)
    → body false (escape_char c ++ rest)
      ≡ Option.map (λ (s, after). (c ∷ s, after)) (body false rest)
unfolding body escape_char
body-escape_char c rest = ground arith

body-escape :
    (v rest : Text) → body false (escape_command_argument v ++ (b'"' ∷ rest)) ≡ some (v, rest)
body-escape [] rest = unfold escape_command_argument body in refl
body-escape (c ∷ cs) rest =
    rw (escape-cons c cs, append_assoc) (rw (body-escape_char, body-escape cs rest))

quote-escape : (v : Text) → quote_rcon_arg v ≡ b'"' ∷ (escape_command_argument v ++ (b'"' ∷ []))
unfolding quote_rcon_arg escape_command_argument
quote-escape v = refl

read_quoted-quote : (v rest : Text) → read_quoted (quote_rcon_arg v ++ rest) ≡ some (v, rest)
unfolding read_quoted
read_quoted-quote v rest = rw (quote-escape v) (rw append_assoc (body-escape v rest))

-- A quoted argument and what follows it can be told apart in one way only: if two texts that begin
-- with a quoted argument are equal, then the two arguments are equal, and so is what follows them.
-- So no two texts have the same quoted argument, and none has a quoted argument that begins that
-- of another.
pub quote_rcon_arg_unique :
    (v w rest after : Text)
    → quote_rcon_arg v ++ rest ≡ quote_rcon_arg w ++ after
    → (v ≡ w) × (rest ≡ after)
quote_rcon_arg_unique v w rest after h = (cc both, cc both)
  where
    both : ◌≡◌ {A = Option (Text × Text)} (some (v, rest)) (some (w, after))
    both = cc (read_quoted-quote v rest, read_quoted-quote w after, h)
