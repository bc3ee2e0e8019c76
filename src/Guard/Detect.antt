-- ===== src/Guard/Detect.antt =====
-- The detection of bundled-addons/examples/deprecated/50-rcon-live-guard.py: which lines name an
-- attempt, and which addresses are left alone.
use jedi_academy_pterodactyl.Prelude.{Bool, true, false, Option, none, some, List, [], ◌∷◌}
use jedi_academy_pterodactyl.Text.{Text, is_one_of, strip}
use jedi_academy_pterodactyl.Regex.{found, sub_re}
use jedi_academy_pterodactyl.Outcome.{Outcome, index_error, attribute_error, ◌>>=◌, raises, returns}
use jedi_academy_pterodactyl.Python.Json.{Python}
use jedi_academy_pterodactyl.Chat.Patterns.{ansi}
use jedi_academy_pterodactyl.Guard.Address.{bare_ip}
use jedi_academy_pterodactyl.Guard.Config.{Pattern}

module _ ⦃py : Python⦄ where
  unfoldable pub strip_ansi : Text → Text
  unfolding sub_re
  strip_ansi value = sub_re ansi [] value

  -- `group.strip()`, where a group that took no part in the match is `None`
  unfoldable pub stripped_group : Option Text → Outcome Text
  stripped_group none = raises attribute_error
  stripped_group (some s) = returns (strip s)

  -- `match.group("ip")` of a pattern that has or has not that group
  unfoldable pub ip_group : Bool → Option Text → Outcome Text
  unfolding stripped_group
  ip_group false g = raises index_error
  ip_group true g = stripped_group g

  -- `text or None`
  abbrev or_none : Text → Option Text
  or_none [] = none
  or_none s = some s

  unfoldable pub command_group : Bool → Option Text → Outcome (Option Text)
  unfolding stripped_group
  command_group false g = returns none
  command_group true g = stripped_group g >>= λ s. returns (or_none s)

  unfoldable pub attempt_of :
      Pattern → Option Text × Option Text → Outcome (Option (Text × Option Text))
  unfolding ip_group command_group
  attempt_of p (ip, command) = ip_group p.has_ip ip >>= λ ip_str.
      command_group p.has_command command >>= λ attempted. returns (some (ip_str, attempted))

  -- The first pattern that matches decides.
  unfoldable pub detect_in : Text → List Pattern → Outcome (Option (Text × Option Text))
  unfolding attempt_of
  detect_in cleaned [] = returns none
  detect_in cleaned (p ∷ ps) = elim (p.find cleaned) [
    | none ↦ detect_in cleaned ps
    | some found ↦ attempt_of p found
  ]

  unfoldable pub try_detect_rcon_attempt :
      Text → List Pattern → Outcome (Option (Text × Option Text))
  unfolding detect_in strip_ansi
  try_detect_rcon_attempt raw patterns = detect_in (strip_ansi raw) patterns

  unfoldable pub is_ignored_ip : Text → List Text → Bool
  unfolding bare_ip is_one_of
  is_ignored_ip source_address ignore_list =
      is_one_of (py.lower (bare_ip source_address)) ignore_list
