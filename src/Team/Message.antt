-- ===== src/Team/Message.antt =====
-- The lines and the messages of bundled-addons/examples/deprecated/20-live-team-announcer.py.
use jedi_academy_pterodactyl.Prelude.{
  ◌==◌, if◌then◌else◌, is_empty, ℕ, not, ◌||◌, Option, none, some, List, [], ◌∷◌, ◌++◌,
}
use jedi_academy_pterodactyl.Text.{Text, codes, same, is_one_of, between, strip}
use jedi_academy_pterodactyl.Regex.{
  one, digit, exactly, space, plus, capture, sub_re, search_re, star, ◌⨾◌, Re,
}
use jedi_academy_pterodactyl.Python.Json.{Python}
use jedi_academy_pterodactyl.Chat.Patterns.{named, quake_color}

-- \x1b\[[0-9;]*m
abbrev colour_re : Re
colour_re =
    exactly (0x1b ∷ b'[' ∷ [])
    ⨾ star (one (λ c. between b'0' b'9' c || c == b';'))
    ⨾ exactly (codes "m")

-- [A-Za-z]+
abbrev letters_re : Re
letters_re = plus (one (λ c. between b'A' b'Z' c || between b'a' b'z' c))

-- [^x]
abbrev other_than : ℕ → Re
other_than x = one (λ c. not (c == x))

-- The player, the old team and the new one.
pub record Change : Type 0 where
  pub player : Text
  pub old_team : Text
  pub new_team : Text

module _ ⦃py : Python⦄ where
  -- `player` is group 1, `old_team` is group 2 and `new_team` is group 3.
  abbrev change_team_re : Re
  change_team_re =
      exactly (codes "ChangeTeam:")
      ⨾ star space
      ⨾ plus digit
      ⨾ star space
      ⨾ exactly (codes "[")
      ⨾ star (other_than b']')
      ⨾ exactly (codes "]")
      ⨾ star space
      ⨾ exactly (codes "(")
      ⨾ star (other_than b')')
      ⨾ exactly (codes ")")
      ⨾ star space
      ⨾ exactly (b'"' ∷ [])
      ⨾ capture 1 (plus (other_than b'"'))
      ⨾ exactly (b'"' ∷ [])
      ⨾ plus space
      ⨾ capture 2 letters_re
      ⨾ star space
      ⨾ exactly (codes "->")
      ⨾ star space
      ⨾ capture 3 letters_re

  unfoldable pub parse_change_team : Text → Option Change
  unfolding sub_re search_re named
  parse_change_team raw = elim (search_re change_team_re (sub_re colour_re [] raw)) [
    | none ↦ none
    | some t ↦ some (record { player = named 1 t; old_team = named 2 t; new_team = named 3 t })
  ]

  unfoldable pub normalize_player_name : Text → Text
  unfolding sub_re
  normalize_player_name value = strip (sub_re quake_color [] value)

  abbrev spectator_teams : List Text
  spectator_teams = codes "SPECTATOR" ∷ codes "SPECTATORS" ∷ codes "FREE" ∷ []

  joined_message : Text → Text → Text
  unfolding same is_one_of
  joined_message name side =
      if same side (codes "RED")
      then name ++ codes " joined RED TEAM"
      else if same side (codes "BLUE")
      then name ++ codes " joined BLUE TEAM"
      else if is_one_of side spectator_teams
      then name ++ codes " changed SPECTATORS"
      else name ++ (codes " joined " ++ side)

  unfoldable pub change_message : Text → Text → Option Text
  unfolding joined_message normalize_player_name
  change_message player new_team =
      let name = normalize_player_name player in
      if is_empty name then none else some (joined_message name (py.upper (strip new_team)))

  -- What `run_selftest` makes of a line.
  unfoldable pub message_of_line : Text → Option Text
  unfolding parse_change_team change_message
  message_of_line raw = elim (parse_change_team raw) [
    | none ↦ none
    | some change ↦ change_message change.player change.new_team
  ]
