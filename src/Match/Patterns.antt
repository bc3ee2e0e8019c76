-- ===== src/Match/Patterns.antt =====
-- The patterns of bundled-addons/defaults/match-announcer.py, and the functions that only match.

use jedi_academy_pterodactyl.Prelude.{
  is_empty, ℕ, Bool, true, not, ◌&&◌, ◌||◌, Option, none, some, List, [], ◌∷◌,
}
use jedi_academy_pterodactyl.Text.{Text, codes, contains}
use jedi_academy_pterodactyl.Python.Json.{Python}
use jedi_academy_pterodactyl.Python.Number.{parse_digits}
use jedi_academy_pterodactyl.Regex.{
  Re, alt, capture, boundary, At, search_re, sub_re, any_case, digit, found, group_of, group_in,
  exactly, space, star, plus, ◌⨾◌,
}

abbrev pub timelimit_pattern : Re
timelimit_pattern = exactly (codes "Exit:") ⨾ plus space ⨾ exactly (codes "Timelimit hit.")

abbrev pub killlimit_pattern : Re
killlimit_pattern = exactly (codes "Exit:") ⨾ plus space ⨾ exactly (codes "Kill limit hit.")

abbrev escaped_space : ℕ → Re
escaped_space c = exactly (b'\\' ∷ c ∷ [])

-- (?:\\n|\\r|\\t|\s)+
abbrev pub scoreboard_whitespace : Re
scoreboard_whitespace =
    plus (alt (escaped_space b'n') (alt (escaped_space b'r') (alt (escaped_space b't') space)))

abbrev pub scoreboard_markers : List Text
scoreboard_markers =
    codes "broadcast: print"
    ∷ codes "Score"
    ∷ codes "Kills"
    ∷ codes "Deaths"
    ∷ codes "Dmg Given"
    ∷ codes "Dmg Taken"
    ∷ codes "Name"
    ∷ []

unfoldable pub contains_all : List Text → Text → Bool
unfolding contains
contains_all [] s = true
contains_all (marker ∷ markers) s = contains s marker && contains_all markers s

module _ ⦃py : Python⦄ where
  -- @@@VOTEPASSED\s*\(\s*map_restart\b
  abbrev pub votepassed_pattern : Re
  votepassed_pattern =
      any_case (codes "@@@VOTEPASSED")
      ⨾ star space
      ⨾ exactly (codes "(")
      ⨾ star space
      ⨾ any_case (codes "map_restart")
      ⨾ boundary

  -- \\g_gametype\\(\d+)
  abbrev pub gametype_pattern : Re
  gametype_pattern = exactly (codes "\\g_gametype\\") ⨾ capture 1 (plus digit)

  -- \bred:\s*(\d+)\s+blue:\s*(\d+)\b
  abbrev pub score_pattern : Re
  score_pattern =
      boundary
      ⨾ any_case (codes "red:")
      ⨾ star space
      ⨾ capture 1 (plus digit)
      ⨾ plus space
      ⨾ any_case (codes "blue:")
      ⨾ star space
      ⨾ capture 2 (plus digit)
      ⨾ boundary

  unfoldable pub vote_passed : Text → Bool
  unfolding search_re
  vote_passed raw = found (search_re votepassed_pattern raw)

  unfoldable pub exit_hit : Text → Bool
  unfolding search_re
  exit_hit raw = found (search_re timelimit_pattern raw) || found (search_re killlimit_pattern raw)

  -- `int(match.group(n))`
  unfoldable pub int_group : ℕ → At → Option ℕ
  unfolding group_in parse_digits
  int_group n t = elim (group_of n t) [ none ↦ none | some s ↦ parse_digits s ]

  unfoldable pub parse_gametype : Text → Option ℕ
  unfolding search_re int_group
  parse_gametype raw = elim (search_re gametype_pattern raw) [
    | none ↦ none
    | some t ↦ int_group 1 t
  ]

  -- The two numbers of a team-score line.
  unfoldable pub team_score : Text → Option (Option ℕ × Option ℕ)
  unfolding search_re int_group
  team_score raw = elim (search_re score_pattern raw) [
    | none ↦ none
    | some t ↦ some (int_group 1 t, int_group 2 t)
  ]

  unfoldable pub is_final_scoreboard_broadcast : Text → Bool
  unfolding sub_re contains_all
  is_final_scoreboard_broadcast raw =
      not (is_empty raw)
      && contains_all scoreboard_markers (sub_re scoreboard_whitespace (b' ' ∷ []) raw)
