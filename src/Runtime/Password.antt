-- ===== src/Runtime/Password.antt =====
-- `extract_rcon_password` of bundled-addons/defaults/announcer.py.

use jedi_academy_pterodactyl.Prelude.{
  ◌==◌, if◌then◌else◌, ℕ, zero, suc, ◌+◌, Bool, false, not, ◌||◌, Option, none, some, List, [], ◌∷◌,
}
use jedi_academy_pterodactyl.Text.{Text, codes, is_space, strip, splitlines}
use jedi_academy_pterodactyl.Regex.{
  group_in, star, Re, search_re, ◌⨾◌, plus, one, exactly, capture, start, alt, group_of, any_case,
  space,
}
use jedi_academy_pterodactyl.Config.{Environment}
use jedi_academy_pterodactyl.Outcome.{Outcome, raises, os_error, returns}
use jedi_academy_pterodactyl.Python.Json.{Python}

abbrev or_empty : Option Text → Text
or_empty none = []
or_empty (some s) = s

abbrev pub non_empty : Text → Option Text
non_empty [] = none
non_empty s = some s

-- `match.group(1) or match.group(2) or ""`
abbrev either_group : Text → Text → Text
either_group [] b = b
either_group a b = a

-- The class [a-z] under `re.IGNORECASE`.
some_letter : ⦃py : Python⦄ → ℕ → ℕ → Bool
some_letter ⦃py⦄ zero d = false
some_letter ⦃py⦄ (suc n) d = py.same_letter (b'a' + n) d || some_letter n d

module _ ⦃py : Python⦄ where
  -- ^\s*set[a-z]*\s+rconpassword\s+(?:\"([^\"]+)\"|(\S+))
  abbrev pub password_re : Re
  unfolding some_letter
  password_re =
      start
      ⨾ star space
      ⨾ any_case (codes "set")
      ⨾ star (one (some_letter 26))
      ⨾ plus space
      ⨾ any_case (codes "rconpassword")
      ⨾ plus space
      ⨾ alt
          (exactly (codes "\"")
            ⨾ capture 1 (plus (one (λ c. not (c == b'"'))))
            ⨾ exactly (codes "\""))
          (capture 2 (plus (one (λ c. not (is_space c)))))

  -- The first line that matches decides.
  password_in : List Text → Option Text
  unfolding search_re group_in
  password_in [] = none
  password_in (l ∷ ls) = elim (search_re password_re l) [
    | some t ↦ non_empty (strip (either_group (or_empty (group_of 1 t)) (or_empty (group_of 2 t))))
    | none ↦ password_in ls
  ]

  password_of : Outcome Text → Outcome (Option Text)
  unfolding password_in
  password_of (returns content) = returns (password_in (splitlines content))
  password_of (raises os_error) = returns none
  password_of (raises e) = raises e

  unfoldable pub extract_rcon_password : Environment → Text → Outcome (Option Text)
  unfolding password_of
  extract_rcon_password env config_path =
      if env.is_file config_path then password_of (env.read_text config_path) else returns none
